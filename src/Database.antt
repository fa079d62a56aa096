-- ===== src/Database.antt =====
-- The tables that the services share (deploy/docker-compose/postgres/init), as far as Python code
-- reads or writes them, and transactions on them.
use auditcore.Base.{ℕ, String, Option, none, some, List, [], ◌∷◌}
use auditcore.Base.Text.{Text}
use auditcore.Base.Json.{Value, ℤ, Float}
use auditcore.Base.Error.{Result, ok, raised, foreign}
use auditcore.Base.Uuid.{Uuid}
use auditcore.Orchestrator.Rows.{AssetRow, ObservationWrite, ReportSectionWrite}
use auditcore.Orchestrator.Repo.{AuditEntry}

-- What the server gives to a new row: its id and the time.
abbrev pub Fresh : Type 0
Fresh = Uuid × ℕ

-- Times are microseconds since the start of the year 1.
pub record RunRecord : Type 0 where
  pub id : Uuid
  pub tenant_id : String
  pub scope : Value
  pub status : String
  pub started_at : Option ℕ
  pub completed_at : Option ℕ
  pub cost_cents : ℤ

pub record AssetRecord : Type 0 where
  pub tenant_id : String
  pub run_id : Uuid
  pub row : AssetRow
  pub open row use *
  pub first_seen : ℕ
  pub last_seen : ℕ

pub record EvidenceRecord : Type 0 where
  pub id : Uuid
  pub tenant_id : String
  pub run_id : Uuid
  pub asset_id : Option Uuid
  pub source_tool : String
  pub source_tool_version : String
  pub collected_at : ℕ
  pub category : String
  pub raw_ref : Text
  pub parsed : Option Value
  pub confidence : Float

pub record ObservationRecord : Type 0 where
  pub id : Uuid
  pub tenant_id : String
  pub row : ObservationWrite
  pub open row use *
  pub created_at : ℕ

pub record SectionRecord : Type 0 where
  pub id : Uuid
  pub tenant_id : String
  pub row : ReportSectionWrite
  pub open row use *
  pub created_at : ℕ

-- A row of audit_log: who, and what the metadata says.
pub data AuditRecord (F : Type 0) : Type 0 where
  orchestrator : Uuid → AuditEntry F → AuditRecord F
  run_create : Uuid → AuditRecord F
  -- items, bundle_key
  bundle_ingest : Uuid → ℕ → Text → AuditRecord F

pub record Tables (F : Type 0) : Type 0 where
  pub runs : List RunRecord
  pub assets : List AssetRecord
  pub evidence_items : List EvidenceRecord
  pub observations : List ObservationRecord
  pub report_sections : List SectionRecord
  pub audit_log : List (AuditRecord F)
  -- how many ids the server has made up
  pub drawn : ℕ

-- The server, and what becomes of the connections to come: `some e` fails with the code `e`, and
-- so does every statement in it.
pub record Db (F : Type 0) : Type 0 where
  pub tables : Tables F
  pub faults : List (Option ℕ)

module _ {F A : Type 0} where
  -- What a raise inside a transaction wrote is rolled back.
  abbrev commit : Tables F → List (Option ℕ) → Result A × Tables F → Result A × Db F
  commit old faults (ok a, new) = (ok a, record { tables = new; faults = faults })
  commit old faults (raised e, new) = (raised e, record { tables = old; faults = faults })

  -- `with connect() as c: … c.commit()`
  unfoldable pub transaction :
      (Tables F → Result A × Tables F) → List (Option ℕ) → Tables F → Result A × Db F
  transaction body [] t = commit t [] (body t)
  transaction body (none ∷ rest) t = commit t rest (body t)
  transaction body (some e ∷ rest) t = (raised (foreign e), record { tables = t; faults = rest })
