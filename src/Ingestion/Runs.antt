-- ===== src/Ingestion/Runs.antt =====
-- main.py: the endpoints that create a run and take in a bundle.
pub mod Rows
pub mod Merge
pub mod Stored
pub mod Ingested
pub mod Accepted
pub mod Rejected
pub mod Kept
pub mod Succeeds
use auditcore.Base.{
  ℕ, ◌+◌, ltb, String, Option, none, some, List, [], ◌∷◌, ◌++◌, Bool, true, false, ◌&&◌, map,
  contains, length, str_eq, ◌==◌, if◌then◌else◌,
}
use auditcore.Base.Text.{Text, codes}
use auditcore.Base.Json.{Value, pos, Float, finite}
use auditcore.Base.Error.{PyError, Result, ok, raised, bundle_error, http_error, foreign}
use auditcore.Base.Exec.{Exec, pure, raise, lift, ◌>>=◌, ◌>>◌}
use auditcore.Base.Uuid.{Uuid, print_uuid}
use auditcore.Database.{
  Fresh, RunRecord, EvidenceRecord, AuditRecord, run_create, bundle_ingest, Tables,
}
use auditcore.Orchestrator.PgRepo.Statements.{with_status}
use auditcore.Ingestion.Bundle.{Bytes, Formats, BundleItem, Bundle, parse_bundle}
use auditcore.Ingestion.Item.{
  Settings, Services, or_bad_request, item_key, bundle_key_of, evidence_record,
}
use auditcore.Ingestion.Site.{Site, put_bytes, on_tables, connection}

pub record CreateRunResponse : Type 0 where
  pub run_id : Uuid
  pub status : String

pub record IngestResponse : Type 0 where
  pub run_id : Uuid
  pub accepted_items : ℕ
  pub status : String

unfoldable pub has_run : Uuid → String → List RunRecord → Bool
has_run run_id tenant_id [] = false
has_run run_id tenant_id (r ∷ rs) =
    let others = has_run run_id tenant_id rs in
    if r.id == run_id && str_eq r.tenant_id tenant_id then true else others

module _ {F : Type 0} (config : Settings) (sv : Services) where
  unfoldable pub insert_run : Value → Tables F → Result RunRecord × Tables F
  insert_run scope t =
      let (id, now) = sv.fresh t.drawn in
      let run : RunRecord = record {
        id = id;
        tenant_id = config.default_tenant_id;
        scope = scope;
        status = "collecting";
        started_at = some now;
        completed_at = none;
        cost_cents = pos 0;
      } in
      (ok run, record t { runs = t.runs ++ run ∷ []; drawn = t.drawn + 1 })

  abbrev pub add_entry : AuditRecord F → Tables F → Tables F
  add_entry entry t = record t { audit_log = t.audit_log ++ entry ∷ [] }

  -- `_audit`
  unfoldable pub audit : AuditRecord F → Exec (Site F) (Unit {0})
  unfolding on_tables
  audit entry = on_tables (λ t. (ok tt, add_entry entry t))

  unfoldable pub create_run : Value → Exec (Site F) CreateRunResponse
  unfolding connection on_tables insert_run audit
  create_run scope = do
    run ← connection (do run ← on_tables (insert_run scope); audit (run_create run.id); pure run)
    pure (record { run_id = run.id; status = run.status })

  -- INSERT … ON CONFLICT (id) DO NOTHING, which gives the number of rows.
  unfoldable pub insert_evidence : EvidenceRecord → Tables F → Result ℕ × Tables F
  insert_evidence e t =
      if contains (map (λ x. x.id) t.evidence_items) e.id
      then (ok 0, t)
      else if contains (map (λ r. r.id) t.runs) e.run_id
      then (ok 1, record t { evidence_items = t.evidence_items ++ e ∷ [] })
      else (raised (foreign 23503), t)

  -- One turn of the loop over the items.
  unfoldable pub store_item : Uuid → BundleItem → Exec (Site F) ℕ
  unfolding put_bytes item_key evidence_record insert_evidence on_tables
  store_item run_id item = do
    raw_ref ← put_bytes config.s3_bucket_raw (item_key run_id item.id) item.raw_bytes
    e ← lift (evidence_record config sv run_id item raw_ref)
    on_tables (insert_evidence e)

  unfoldable pub store_items : Uuid → List BundleItem → ℕ → Exec (Site F) ℕ
  unfolding store_item
  store_items run_id [] inserted = pure inserted
  store_items run_id (item ∷ rest) inserted = do
    n ← store_item run_id item
    store_items run_id rest (inserted + n)

  check_run : Uuid → Tables F → Result (Unit {0}) × Tables F
  unfolding has_run
  check_run run_id t =
      if has_run run_id config.default_tenant_id t.runs
      then (ok tt, t)
      else (raised (http_error 404 (codes "run not found")), t)

  abbrev pub set_normalizing : Uuid → Tables F → Tables F
  set_normalizing run_id t = record t { runs = map (with_status run_id "normalizing") t.runs }

  normalizing : Uuid → Tables F → Result (Unit {0}) × Tables F
  unfolding with_status
  normalizing run_id t = (ok tt, set_normalizing run_id t)

  -- What happens in the connection.
  unfoldable pub store_bundle : Uuid → Bundle → Text → Exec (Site F) ℕ
  unfolding check_run store_items normalizing audit on_tables
  store_bundle run_id b bundle_key = do
    on_tables (check_run run_id)
    inserted ← store_items run_id b.items 0
    on_tables (normalizing run_id)
    audit (bundle_ingest run_id (length b.items) bundle_key)
    pure inserted

  take_in : Uuid → Text → Bytes → Exec (Site F) IngestResponse
  unfolding parse_bundle or_bad_request bundle_key_of put_bytes connection store_bundle
  take_in run_id stamp contents = do
    b ← lift (or_bad_request (parse_bundle sv.formats contents))
    put_bytes config.s3_bucket_raw (bundle_key_of run_id stamp) contents
    inserted ← connection (store_bundle run_id b (bundle_key_of run_id stamp))
    pure (record { run_id = run_id; accepted_items = inserted; status = "normalizing" })

  unfoldable pub ingest_bundle : Uuid → Text → Bytes → Exec (Site F) IngestResponse
  unfolding take_in
  ingest_bundle run_id stamp contents =
      if ltb config.max_bundle_bytes (length contents)
      then raise (http_error 413 (codes "bundle too large"))
      else take_in run_id stamp contents
