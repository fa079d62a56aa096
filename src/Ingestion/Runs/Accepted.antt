-- ===== src/Ingestion/Runs/Accepted.antt =====
-- main.py: the rows of a bundle that was taken in.
use auditcore.Base.{◌+◌, ◌≡◌, sym, ap, ◌∙◌, List, ◌++◌, true, length, map, arith}
use mathlib.Core.Path.{subst}
use auditcore.Base.Text.{Text}
use auditcore.Base.Error.{ok, ok-injective}
use auditcore.Base.Exec.Returns.{Returns}
use auditcore.Base.Uuid.{Uuid}
use auditcore.Database.{EvidenceRecord}
use auditcore.Orchestrator.PgRepo.Statements.{with_status}
use auditcore.Ingestion.Bundle.{Bytes, Bundle, parse_bundle}
use auditcore.Ingestion.Item.{Settings, Services, bundle_key_of}
use auditcore.Ingestion.Site.{Site, upload}
use auditcore.Ingestion.Runs.Rows.{merge, rows_of, uploaded}
use auditcore.Ingestion.Runs.Merge.{find_row, find_row-merge, merge-has, merge-there}
use auditcore.Ingestion.Runs.Ingested.{ingest_bundle-IsIngested}
use auditcore.Ingestion.Runs.{IngestResponse, has_run, ingest_bundle}

module _ {F : Type 0} (config : Settings) (sv : Services) (run_id : Uuid) where
  -- The contents are a bundle `b` for a known run, whose items have `rows`: the table of evidence,
  -- as a map from ids, is what it was, and for the other ids the first of the rows; the answer
  -- counts the rows that the table gained.
  pub record IsAccepted (stamp : Text) (contents : Bytes) (r : IngestResponse) (s t : Site F)
      : Type 0 where
    pub b : Bundle
    pub parsed : parse_bundle sv.formats contents ≡ ok b
    pub known : has_run run_id config.default_tenant_id s.db.tables.runs ≡ true
    pub rows : List EvidenceRecord
    pub made : rows_of config sv run_id b.items ≡ ok rows
    pub as_map :
        (id : Uuid)
        → find_row id t.db.tables.evidence_items ≡ find_row id (s.db.tables.evidence_items ++ rows)
    pub counted :
        r.accepted_items + length s.db.tables.evidence_items ≡ length t.db.tables.evidence_items
    pub runs : t.db.tables.runs ≡ map (with_status run_id "normalizing") s.db.tables.runs
    pub uploads :
        t.uploads
        ≡ uploaded config run_id b.items
            (upload config.s3_bucket_raw (bundle_key_of run_id stamp) contents s.uploads)

  -- If `ingest_bundle` returns, then the contents are a bundle and the run is known; afterwards each
  -- id has the evidence row that it had, and if it had none, that of the first item with the id, if
  -- any; the number of accepted items is that of the rows gained; the run is `normalizing`; and the
  -- uploads are those before, then the bundle, then the items' bytes, each under its key, in order.
  pub ingest_bundle-IsAccepted :
      (stamp : Text) (contents : Bytes) (s t : Site F) (r : IngestResponse)
      → Returns (ingest_bundle config sv run_id stamp contents) s r t
      → IsAccepted stamp contents r s t
  ingest_bundle-IsAccepted stamp contents s t r h =
      let done = ingest_bundle-IsIngested config sv run_id stamp contents s t h in
      let work = done.stored in
      let old = s.db.tables.evidence_items in
      let table = ap (λ u. u.evidence_items) work.tables in
      record {
        b = done.b;
        parsed = done.parsed;
        known = work.known;
        rows = work.rows;
        made = work.made;
        as_map = λ id. ap (find_row id) table ∙ find_row-merge id old work.rows;
        counted = work.counted ∙ sym (ap length table);
        runs = ap (λ u. u.runs) work.tables;
        uploads = work.uploads;
      }

  -- If `ingest_bundle` returns for some contents, and later, with the table of evidence as it left
  -- it, returns for the same contents and run, then the second time it accepts no item and the table
  -- stays as it is.
  pub ingest_bundle_again :
      (stamp later : Text) (contents : Bytes) (s t u v : Site F) (r q : IngestResponse)
      → Returns (ingest_bundle config sv run_id stamp contents) s r t
      → u.db.tables.evidence_items ≡ t.db.tables.evidence_items
      → Returns (ingest_bundle config sv run_id later contents) u q v
      → (q.accepted_items ≡ 0) × (v.db.tables.evidence_items ≡ t.db.tables.evidence_items)
  ingest_bundle_again stamp later contents s t u v r q h same k =
      let first = ingest_bundle-IsIngested config sv run_id stamp contents s t h in
      let second = ingest_bundle-IsIngested config sv run_id later contents u v k in
      let same_bundle : first.b ≡ second.b = ok-injective (sym first.parsed ∙ second.parsed) in
      let same_rows : first.stored.rows ≡ second.stored.rows = ok-injective (
        sym first.stored.made
        ∙ (ap (λ b. rows_of config sv run_id b.items) same_bundle ∙ second.stored.made)) in
      let old = s.db.tables.evidence_items in
      let table : u.db.tables.evidence_items ≡ merge old first.stored.rows =
        same ∙ ap (λ x. x.evidence_items) first.stored.tables in
      let again : merge u.db.tables.evidence_items second.stored.rows ≡ u.db.tables.evidence_items =
        subst (λ (p : List EvidenceRecord × List EvidenceRecord). merge p.0 p.1 ≡ p.0)
          (λ i. (sym table i, same_rows i))
          (merge-there (merge old first.stored.rows) first.stored.rows
            (merge-has old first.stored.rows)) in
      (
        omega (arith, second.stored.counted, ap length again),
        ap (λ x. x.evidence_items) second.stored.tables ∙ (again ∙ same),
      )
