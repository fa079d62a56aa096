-- ===== src/Orchestrator/Repo.antt =====
-- Repo of repo.py: the persistence layer as the orchestrator calls it. Any call may raise.
use auditcore.Base.{ℕ, String, List}
use auditcore.Base.Exec.{Exec}
use auditcore.Base.Uuid.{Uuid}
use auditcore.Orchestrator.Rows.{
  EvidenceRow, AssetRow, ObservationWrite, ObservationRow, ReportSectionWrite,
}

-- The actions of the audit log, each with its metadata.
pub data AuditEntry (F : Type 0) : Type 0 where
  -- agent, domain, evidence, written, dropped, model, cost_usd
  agent_run : String → String → ℕ → ℕ → ℕ → String → F → AuditEntry F
  -- observations, dropped, cost_usd
  discovery_complete : ℕ → ℕ → F → AuditEntry F
  -- sections, dropped, unknown_refs, cost_usd
  report_assembled : ℕ → ℕ → ℕ → F → AuditEntry F

pub record Repo (F W : Type 0) : Type 0 where
  pub evidence_for_category : Uuid → String → Exec W (List EvidenceRow)
  pub assets_for_run : Uuid → Exec W (List AssetRow)
  pub categories_present : Uuid → Exec W (List String)
  pub write_observations : List ObservationWrite → Exec W ℕ
  pub observations_for_run : Uuid → Exec W (List ObservationRow)
  pub write_report_sections : List ReportSectionWrite → Exec W ℕ
  pub set_run_status : Uuid → String → Exec W (Unit {0})
  pub audit : Uuid → AuditEntry F → Exec W (Unit {0})
