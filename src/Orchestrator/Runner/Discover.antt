-- ===== src/Orchestrator/Runner/Discover.antt =====
-- runner.py: `discover_run`.
pub mod Safe
use auditcore.Base.{ℕ, ◌+◌, String, Option, none, some, List, [], ◌∷◌, ◌++◌, length, if◌then◌else◌}
use auditcore.Base.Text.{Text, codes}
use auditcore.Base.Json.{str, Runtime}
use auditcore.Base.Exec.{Exec, pure, ◌>>=◌, ◌>>◌}
use auditcore.Base.Uuid.{Uuid}
use auditcore.Agents.Definition.{AgentDefinition}
use auditcore.Agents.Registry.{AgentRegistry, lookup}
use auditcore.Orchestrator.Rows.{EvidenceRow, AssetRow}
use auditcore.Orchestrator.Discovery.{GatewayClient, CallSettings, run_domain}
use auditcore.Orchestrator.Discovery.Answer.{DomainResult}
use auditcore.Orchestrator.Repo.{Repo, agent_run, discovery_complete}
use auditcore.Orchestrator.Runner.Grouping.{Group, group_categories}

-- Floats, of which the runner adds costs to 0.0.
pub record Costs (F : Type 0) : Type 0 where
  pub zero : F
  pub add : F → F → F

pub record RunReport (F : Type 0) : Type 0 where
  pub run_id : Uuid
  pub observations_written : ℕ
  pub dropped : List Text
  pub coverage_notes : List Text
  pub cost_usd : F
  pub domains_run : List String

module _ {F W : Type 0} (rt : Runtime) (costs : Costs F) (repo : Repo F W)
    (registry : AgentRegistry) (gateway : GatewayClient F W) (settings : CallSettings)
    (run_id : Uuid) where
  -- The evidence of the categories, in their order.
  unfoldable pub gather : List String → Exec W (List EvidenceRow)
  gather [] = pure []
  gather (category ∷ rest) = do
    found ← repo.evidence_for_category run_id category
    more ← gather rest
    pure (found ++ more)

  -- What the report has after an agent's result.
  unfoldable pub add_result : RunReport F → Group → ℕ → DomainResult F → RunReport F
  add_result report g written result = record report {
    observations_written = report.observations_written + written;
    dropped = report.dropped ++ result.dropped;
    coverage_notes = report.coverage_notes ++ result.coverage_notes;
    cost_usd = costs.add report.cost_usd result.cost_usd;
    domains_run = report.domains_run ++ g.agent ∷ [];
  }

  run_agent :
      AgentDefinition
      → Group
      → List AssetRow
      → RunReport F
      → List EvidenceRow
      → Exec W (RunReport F)
  unfolding add_result
  run_agent agent g assets report [] = pure report
  run_agent agent g assets report (e ∷ es) = do
    result ← run_domain rt gateway run_id agent g.domain (e ∷ es) assets settings
    written ← repo.write_observations result.observations
    repo.audit run_id (
        agent_run g.agent g.domain (length (e ∷ es)) written (length result.dropped)
          result.model_used result.cost_usd)
    pure (add_result report g written result)

  -- One turn of the loop over `by_agent`.
  run_group : Group → Option AgentDefinition → List AssetRow → RunReport F → Exec W (RunReport F)
  unfolding run_agent gather
  run_group g none assets report = pure (record report {
    dropped =
        report.dropped
        ++ (codes "agent " ++ (rt.repr (str (codes g.agent)) ++ codes " not in registry")) ∷ [];
  })
  run_group g (some agent) assets report = do
    evidence ← gather g.categories
    run_agent agent g assets report evidence

  run_groups : List Group → List AssetRow → RunReport F → Exec W (RunReport F)
  unfolding run_group
  run_groups [] assets report = pure report
  run_groups (g ∷ gs) assets report = do
    next ← run_group g (lookup (codes g.agent) registry) assets report
    run_groups gs assets next

  abbrev empty_report : List Text → RunReport F
  empty_report drops = record {
    run_id = run_id;
    observations_written = 0;
    dropped = drops;
    coverage_notes = [];
    cost_usd = costs.zero;
    domains_run = [];
  }

  unfoldable pub discover_run : Exec W (RunReport F)
  unfolding run_groups
  discover_run = do
    repo.set_run_status run_id "discovering"
    categories ← repo.categories_present run_id
    assets ← repo.assets_for_run run_id
    let (groups, drops) = group_categories rt categories ([], [])
    report ← run_groups groups assets (empty_report drops)
    repo.set_run_status run_id "reporting"
    repo.audit run_id
        (discovery_complete report.observations_written (length report.dropped) report.cost_usd)
    pure report
