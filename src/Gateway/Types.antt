-- ===== src/Gateway/Types.antt =====
-- types.py: requests, responses and routes.
use auditcore.Base.{ℕ, String, Option, List, Bool}
use auditcore.Base.Text.{Text}
use auditcore.Base.Json.{Value}

pub data TaskKind : Type 0 where
  summarize classify reason long_context code : TaskKind

-- `task_kind.value`
abbrev pub kind_value : TaskKind → String
kind_value summarize = "SUMMARIZE"
kind_value classify = "CLASSIFY"
kind_value reason = "REASON"
kind_value long_context = "LONG_CONTEXT"
kind_value code = "CODE"

pub data BudgetTier : Type 0 where
  low normal high : BudgetTier

abbrev pub budget_value : BudgetTier → String
budget_value low = "low"
budget_value normal = "normal"
budget_value high = "high"

pub data PrivacyTier : Type 0 where
  standard sensitive air_gapped : PrivacyTier

abbrev pub privacy_value : PrivacyTier → String
privacy_value standard = "standard"
privacy_value sensitive = "sensitive"
privacy_value air_gapped = "air_gapped"

pub data Tier : Type 0 where
  primary secondary tertiary : Tier

-- A provider and a model.
abbrev pub Target : Type 0
Target = Text × Text

pub record RouteDecision : Type 0 where
  pub primary : Target
  pub secondary : Option Target
  pub tertiary : Option Target
  pub critic_loop : Bool

pub record Message : Type 0 where
  pub role : String
  pub content : Text

-- `F` is the type of floats. The texts of the tiers are not checked here.
pub record CompleteRequest (F : Type 0) : Type 0 where
  pub task_kind : TaskKind
  pub messages : List Message
  pub output_schema : Value
  pub tenant_id : String
  pub budget_hint : String
  pub privacy : String
  pub agent : String
  pub max_tokens : ℕ
  pub temperature : F

pub record ModelResponse (F : Type 0) : Type 0 where
  pub content : Text
  pub parsed : Value
  pub provider : Text
  pub model : Text
  pub tier_used : Tier
  pub input_tokens : ℕ
  pub output_tokens : ℕ
  pub cost_usd : F
  pub latency_ms : ℕ
  pub schema_valid : Option Bool
  pub schema_errors : List Text
