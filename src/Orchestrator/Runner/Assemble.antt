-- ===== src/Orchestrator/Runner/Assemble.antt =====
-- runner.py: `assemble_run_report`.
pub mod Safe
use auditcore.Base.{ℕ, String, Option, none, some, List, [], ◌∷◌, ◌++◌, length}
use auditcore.Base.Text.{Text, codes}
use auditcore.Base.Json.{Runtime}
use auditcore.Base.Exec.{Exec, pure, ◌>>=◌, ◌>>◌}
use auditcore.Base.Uuid.{Uuid}
use auditcore.Agents.Definition.{AgentDefinition}
use auditcore.Agents.Registry.{AgentRegistry, lookup}
use auditcore.Orchestrator.Rows.{ObservationRow}
use auditcore.Orchestrator.Discovery.{GatewayClient, CallSettings}
use auditcore.Orchestrator.Report.{assemble_report}
use auditcore.Orchestrator.Repo.{Repo, report_assembled}
use auditcore.Orchestrator.Runner.Discover.{Costs}

pub record ReportRunResult (F : Type 0) : Type 0 where
  pub run_id : Uuid
  pub sections_written : ℕ
  pub dropped : List Text
  pub unknown_refs : List Text
  pub cost_usd : F

module _ {F W : Type 0} (rt : Runtime) (costs : Costs F) (repo : Repo F W)
    (registry : AgentRegistry) (gateway : GatewayClient F W) (settings : CallSettings)
    (run_id : Uuid) where
  abbrev nothing_written : String → ReportRunResult F
  nothing_written reason = record {
    run_id = run_id;
    sections_written = 0;
    dropped = codes reason ∷ [];
    unknown_refs = [];
    cost_usd = costs.zero;
  }

  describe : AgentDefinition → List ObservationRow → Exec W (ReportRunResult F)
  describe agent [] = pure (nothing_written "no observations to describe")
  describe agent (o ∷ os) = do
    result ← assemble_report rt gateway run_id agent (o ∷ os) settings
    written ← repo.write_report_sections result.sections
    repo.set_run_status run_id "complete"
    repo.audit run_id (
        report_assembled written (length result.dropped) (length result.unknown_refs)
          result.cost_usd)
    pure (record {
      run_id = run_id;
      sections_written = written;
      dropped = result.dropped;
      unknown_refs = result.unknown_refs;
      cost_usd = result.cost_usd;
    })

  with_agent : Option AgentDefinition → Exec W (ReportRunResult F)
  unfolding describe
  with_agent none = pure (nothing_written "report agent not in registry")
  with_agent (some agent) = do
    observations ← repo.observations_for_run run_id
    describe agent observations

  unfoldable pub assemble_run_report : Exec W (ReportRunResult F)
  unfolding with_agent
  assemble_run_report = with_agent (lookup (codes "report") registry)
