-- ===== src/Orchestrator/PgRepo.antt =====
-- PgRepo of repo.py: the persistence layer over Postgres.
pub mod Statements
pub mod Sound
pub mod Pass
pub mod Grounded
use auditcore.Base.{
  ℕ, ◌+◌, String, Option, none, some, List, [], ◌∷◌, ◌++◌, Bool, true, false, ◌&&◌, ◌||◌, map,
  filter, contains, length, str_eq, leb, ◌==◌, if◌then◌else◌,
}
use mathlib.Core.List.{foldl}
use auditcore.Base.Json.{Value, obj, end, or_default}
use auditcore.Base.Sort.{sorted, text_le}
use auditcore.Base.Text.{Text, codes}
use auditcore.Base.Error.{Result, ok, raised, foreign}
use auditcore.Base.Exec.{Exec, pure}
use auditcore.Base.Uuid.{Uuid}
use auditcore.Database.{
  Fresh, RunRecord, AssetRecord, EvidenceRecord, ObservationRecord, SectionRecord, AuditRecord,
  orchestrator, Tables, Db, transaction,
}
use auditcore.Orchestrator.Rows.{
  EvidenceRow, AssetRow, ObservationWrite, ObservationRow, ReportSectionWrite,
}
use auditcore.Orchestrator.Repo.{Repo, AuditEntry}
use auditcore.Orchestrator.PgRepo.Statements.{
  evidence_row, or_empty, select_evidence, select_categories, observation_row, observation_le,
  insert_observations, insert_sections, with_status,
}

-- The database and what else the program calls, such as the gateway.
pub record World (F N : Type 0) : Type 0 where
  pub db : Db F
  pub net : N

-- `len(rows)`, unless a statement raised.
abbrev pub counted : Result (Unit {0}) → ℕ → Result ℕ
counted (ok u) n = ok n
counted (raised e) n = raised e

module _ {F N : Type 0} (tenant_id : String) (fresh : ℕ → Fresh) where
  pub in_db : {A : Type 0} → (Tables F → Result A × Tables F) → Exec (World F N) A
  unfolding transaction
  in_db body w = let (r, db) = transaction body w.db.faults w.db.tables in (r, record w { db = db })

  read : {A : Type 0} → (Tables F → A) → Exec (World F N) A
  unfolding in_db
  read f = in_db (λ t. (ok (f t), t))

  change : (Tables F → Tables F) → Exec (World F N) (Unit {0})
  unfolding in_db
  change f = in_db (λ t. (ok tt, f t))

  evidence_for_category : Uuid → String → Exec (World F N) (List EvidenceRow)
  unfolding read select_evidence
  evidence_for_category run_id category = read (λ t.
      map (λ e. evidence_row e (or_empty e.parsed))
        (sorted (λ a b. leb a.collected_at b.collected_at)
          (select_evidence run_id category t.evidence_items)))

  assets_for_run : Uuid → Exec (World F N) (List AssetRow)
  unfolding read
  assets_for_run run_id = read (λ t.
      map (λ a. record a.row { attributes = or_default a.attributes (obj end) })
        (sorted (λ a b. text_le (codes a.name) (codes b.name))
          (filter (λ a. a.run_id == run_id) t.assets)))

  categories_present : Uuid → Exec (World F N) (List String)
  unfolding read select_categories
  categories_present run_id = read (λ t. select_categories run_id t.evidence_items)

  write_observations : List ObservationWrite → Exec (World F N) ℕ
  unfolding in_db insert_observations
  write_observations [] = pure 0
  write_observations (o ∷ os) = in_db (λ t.
      let (r, t') = insert_observations tenant_id fresh (o ∷ os) t in
      (counted r (length (o ∷ os)), t'))

  observations_for_run : Uuid → Exec (World F N) (List ObservationRow)
  unfolding read observation_le
  observations_for_run run_id = read (λ t.
      map observation_row (sorted observation_le (filter (λ o. o.run_id == run_id) t.observations)))

  write_report_sections : List ReportSectionWrite → Exec (World F N) ℕ
  unfolding in_db insert_sections
  write_report_sections [] = pure 0
  write_report_sections (s ∷ ss) = in_db (λ t.
      let (r, t') = insert_sections tenant_id fresh (s ∷ ss) t in (counted r (length (s ∷ ss)), t'))

  set_run_status : Uuid → String → Exec (World F N) (Unit {0})
  unfolding change with_status
  set_run_status run_id status =
      change (λ t. record t { runs = map (with_status run_id status) t.runs })

  audit : Uuid → AuditEntry F → Exec (World F N) (Unit {0})
  unfolding change
  audit run_id entry =
      change (λ t. record t { audit_log = t.audit_log ++ orchestrator run_id entry ∷ [] })

  unfoldable pub pg_repo : Repo F (World F N)
  unfolding evidence_for_category assets_for_run categories_present write_observations
      observations_for_run write_report_sections set_run_status audit
  pg_repo = record {
    evidence_for_category = evidence_for_category;
    assets_for_run = assets_for_run;
    categories_present = categories_present;
    write_observations = write_observations;
    observations_for_run = observations_for_run;
    write_report_sections = write_report_sections;
    set_run_status = set_run_status;
    audit = audit;
  }
