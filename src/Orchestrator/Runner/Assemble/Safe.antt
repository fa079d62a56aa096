-- ===== src/Orchestrator/Runner/Assemble/Safe.antt =====
-- runner.py: `assemble_run_report` over any persistence layer, and what it asks of one.
use auditcore.Base.{◌≡◌, ◌⊎◌, String, Option, none, some, List, [], ◌∷◌, All, All-imp, map}
use mathlib.Core.List.{Mem}
use auditcore.Base.Text.{Text, codes}
use auditcore.Base.Json.{Runtime}
use auditcore.Base.Exec.Ensures.{Ensures, Ensures-pure, Ensures-bind}
use auditcore.Base.Uuid.{Uuid}
use auditcore.Agents.Definition.{AgentDefinition}
use auditcore.Agents.Registry.{AgentRegistry, lookup}
use auditcore.Orchestrator.Rows.{ObservationRow, ReportSectionWrite}
use auditcore.Orchestrator.Repo.{Repo, AuditEntry}
use auditcore.Orchestrator.Discovery.{Request, GatewayClient, CallSettings}
use auditcore.Orchestrator.Report.Section.Traceable.{IsTraceable}
use auditcore.Orchestrator.Report.Results.{assemble_report-Ensures}
use auditcore.Orchestrator.Runner.Discover.{Costs}
use auditcore.Orchestrator.Runner.Discover.Safe.{Mem_trans, All-ids}
use auditcore.Orchestrator.Runner.Assemble.{describe, with_agent, assemble_run_report}

-- The section is of the run, for an audience that there is, and embeds observations that are known.
pub record IsGrounded (run_id : Uuid) (observations : List Uuid) (s : ReportSectionWrite)
    : Type 0 where
  pub run : s.run_id ≡ run_id
  pub audience : (s.audience ≡ codes "technical") ⊎ (s.audience ≡ codes "summary")
  pub embedded : All (λ u. Mem u observations) s.embedded_observations

-- What is asked of the persistence layer for a report.
pub record ReportRepoKeeps {F W : Type 0} (repo : Repo F W) (P : W → Type 0) (run_id : Uuid)
    (observations : List Uuid) : Type 0 where
  pub reads_observations :
      Ensures P (repo.observations_for_run run_id) (All (λ o. Mem o.id observations))
  pub writes :
      (ss : List ReportSectionWrite)
      → All (IsGrounded run_id observations) ss
      → Ensures P (repo.write_report_sections ss) (λ _. Unit {0})
  pub sets_status :
      (status : String) → Ensures P (repo.set_run_status run_id status) (λ _. Unit {0})
  pub audits : (entry : AuditEntry F) → Ensures P (repo.audit run_id entry) (λ _. Unit {0})

module _ {F W : Type 0} {P : W → Type 0} (rt : Runtime) (costs : Costs F) (repo : Repo F W)
    (registry : AgentRegistry) (gateway : GatewayClient F W) (settings : CallSettings)
    (run_id : Uuid) (observations : List Uuid) (keeps : ReportRepoKeeps repo P run_id observations)
    (answers : (r : Request) → Ensures P (gateway r) (λ _. Unit {0})) where
  traceable-IsGrounded :
      (os : List ObservationRow) (unknown : List Text)
      → All (λ o. Mem o.id observations) os
      → (s : ReportSectionWrite) → IsTraceable run_id (map (λ o. o.id) os) unknown s
      → IsGrounded run_id observations s
  traceable-IsGrounded os unknown h s t = record {
    run = t.run;
    audience = t.audience;
    embedded =
        All-imp _ _ s.embedded_observations
          (λ u m.
            Mem_trans (map (λ o. o.id) os) observations (All-ids (λ o. o.id) observations os h) m)
          t.embedded;
  }

  describe-keeps :
      (agent : AgentDefinition) (os : List ObservationRow)
      → All (λ o. Mem o.id observations) os
      → Ensures P (describe rt costs repo registry gateway settings run_id agent os) (λ _. Unit {0})
  unfolding describe
  describe-keeps agent [] h = Ensures-pure _ tt
  describe-keeps agent (o ∷ os) h =
      Ensures-bind _ _ (assemble_report-Ensures rt run_id agent (o ∷ os) gateway settings answers)
        λ result hr.
          Ensures-bind _ _
            (keeps.writes result.sections (
              All-imp _ _ result.sections (traceable-IsGrounded (o ∷ os) result.unknown_refs h) hr))
            λ written _.
              Ensures-bind _ _ (keeps.sets_status "complete")
                λ _ _. Ensures-bind _ _ (keeps.audits _) λ _ _. Ensures-pure _ tt

  with_agent-keeps :
      (o : Option AgentDefinition)
      → Ensures P (with_agent rt costs repo registry gateway settings run_id o) (λ _. Unit {0})
  unfolding with_agent
  with_agent-keeps none = Ensures-pure _ tt
  with_agent-keeps (some agent) =
      Ensures-bind _ _ keeps.reads_observations λ os h. describe-keeps agent os h

  -- A report keeps whatever the persistence layer keeps when only grounded sections are written, on
  -- every path, also where a call raises.
  pub assemble_run_report-keeps :
      Ensures P (assemble_run_report rt costs repo registry gateway settings run_id) (λ _. Unit {0})
  unfolding assemble_run_report
  assemble_run_report-keeps = with_agent-keeps (lookup (codes "report") registry)
