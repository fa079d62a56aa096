-- ===== src/Ingestion/Item.antt =====
-- main.py and config.py: the keys of objects, and the row that an item of a bundle becomes.
use auditcore.Base.{ℕ, String, none, ◌++◌, false}
use auditcore.Base.Text.{Text, codes}
use auditcore.Base.Json.{Value, finite}
use auditcore.Base.Error.{Result, ok, raised, bundle_error, http_error, ◌>>=◌}
use auditcore.Base.Uuid.{Uuid, print_uuid}
use auditcore.Database.{Fresh, EvidenceRecord}
use auditcore.Ingestion.Bundle.{Formats, BundleItem, Bundle}

pub record Settings : Type 0 where
  pub s3_bucket_raw : Text
  pub default_tenant_id : String
  pub max_bundle_bytes : ℕ

-- What the services call: the parser's packages, and how the driver writes a value to a text column.
pub record Services : Type 0 where
  pub formats : Formats
  pub text_column : Value → Result String
  pub fresh : ℕ → Fresh

-- A BundleError answers 400.
unfoldable pub or_bad_request : Result Bundle → Result Bundle
or_bad_request (raised (bundle_error message)) =
    raised (http_error 400 (codes "invalid bundle: " ++ message))
or_bad_request r = r

unfoldable pub item_key : Uuid → Uuid → Text
item_key run_id id =
    codes "runs/" ++ (print_uuid run_id ++ (codes "/items/" ++ (print_uuid id ++ codes ".raw")))

-- `stamp` is what `datetime.utcnow()` prints.
unfoldable pub bundle_key_of : Uuid → Text → Text
bundle_key_of run_id stamp =
    codes "runs/" ++ (print_uuid run_id ++ (codes "/bundles/" ++ (stamp ++ codes ".tar.gz")))

module _ (config : Settings) (sv : Services) where
  -- The values of the INSERT.
  unfoldable pub evidence_record : Uuid → BundleItem → Text → Result EvidenceRecord
  evidence_record run_id item raw_ref = do
    source_tool ← sv.text_column item.source_tool
    source_tool_version ← sv.text_column item.source_tool_version
    category ← sv.text_column item.category
    ok (record {
      id = item.id;
      tenant_id = config.default_tenant_id;
      run_id = run_id;
      asset_id = none;
      source_tool = source_tool;
      source_tool_version = source_tool_version;
      collected_at = item.collected_at;
      category = category;
      raw_ref = raw_ref;
      parsed = none;
      confidence = finite 0 0 false;
    })
