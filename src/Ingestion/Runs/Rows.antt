-- ===== src/Ingestion/Runs/Rows.antt =====
-- The rows and uploads of a bundle, without the statements that write them.
use auditcore.Base.{List, [], ◌∷◌, ◌++◌, map, contains, if◌then◌else◌}
use auditcore.Base.Error.{Result, ok, ◌>>=◌}
use auditcore.Base.Uuid.{Uuid}
use auditcore.Database.{EvidenceRecord}
use auditcore.Ingestion.Bundle.{BundleItem}
use auditcore.Ingestion.Item.{Settings, Services, item_key, evidence_record}
use auditcore.Ingestion.Site.{Upload, upload, uri}

-- A row goes to the end of the table, unless its id is there.
unfoldable pub add_row : List EvidenceRecord → EvidenceRecord → List EvidenceRecord
add_row old e = if contains (map (λ x. x.id) old) e.id then old else old ++ e ∷ []

unfoldable pub merge : List EvidenceRecord → List EvidenceRecord → List EvidenceRecord
merge old [] = old
merge old (e ∷ es) = merge (add_row old e) es

-- The uploads, with those of the items.
unfoldable pub uploaded : Settings → Uuid → List BundleItem → List Upload → List Upload
uploaded config run_id [] uploads = uploads
uploaded config run_id (item ∷ items) uploads =
    uploaded config run_id items
      (upload config.s3_bucket_raw (item_key run_id item.id) item.raw_bytes uploads)

module _ (config : Settings) (sv : Services) where
  -- The row of an item.
  abbrev pub row_of : Uuid → BundleItem → Result EvidenceRecord
  row_of run_id item =
      evidence_record config sv run_id item (uri config.s3_bucket_raw (item_key run_id item.id))

  unfoldable pub rows_of : Uuid → List BundleItem → Result (List EvidenceRecord)
  rows_of run_id [] = ok []
  rows_of run_id (item ∷ items) = do e ← row_of run_id item; es ← rows_of run_id items; ok (e ∷ es)
