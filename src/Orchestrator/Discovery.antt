-- ===== src/Orchestrator/Discovery.antt =====
-- discovery.py: one agent over the evidence of one domain.
pub mod Prompt
pub mod Validate
pub mod Answer
pub mod Results
use auditcore.Base.{String, List}
use auditcore.Base.Text.{Text}
use auditcore.Base.Json.{Value, Runtime}
use auditcore.Base.Exec.{Exec, lift, ◌>>=◌}
use auditcore.Base.Uuid.{Uuid}
use auditcore.Agents.Definition.{AgentDefinition}
use auditcore.Orchestrator.Rows.{EvidenceRow, AssetRow, GatewayResult}
use Prompt.{build_user_content}
use Answer.{DomainResult, read_answer}

-- The arguments of `GatewayClient.complete`.
pub record Request : Type 0 where
  pub task_kind : Text
  pub system_prompt : Text
  pub user_content : Text
  pub output_schema : Value
  pub tenant_id : String
  pub agent : Text
  pub budget_hint : String
  pub privacy : String

-- The model gateway, as the orchestrator calls it: it may raise. `W` is all that calls can read
-- or change.
abbrev pub GatewayClient : Type 0 → Type 0 → Type 0
GatewayClient F W = Request → Exec W (GatewayResult F)

-- The settings that every call of a run passes on.
pub record CallSettings : Type 0 where
  pub tenant_id : String
  pub budget_hint : String
  pub privacy : String

unfoldable pub request : AgentDefinition → CallSettings → Text → Request
request agent settings content = record {
  task_kind = agent.task_kind;
  system_prompt = agent.system_prompt;
  user_content = content;
  output_schema = agent.output_schema;
  tenant_id = settings.tenant_id;
  agent = agent.name;
  budget_hint = settings.budget_hint;
  privacy = settings.privacy;
}

module _ {F W : Type 0} (rt : Runtime) (gateway : GatewayClient F W) where
  unfoldable pub run_domain :
      Uuid
      → AgentDefinition
      → String
      → List EvidenceRow
      → List AssetRow
      → CallSettings
      → Exec W (DomainResult F)
  unfolding request
  run_domain run_id agent domain evidence assets settings = do
    result ← gateway (request agent settings (build_user_content rt evidence assets))
    lift (read_answer rt run_id agent domain evidence assets result)
