-- ===== src/Orchestrator/Rows.antt =====
-- The rows of repo.py, and GatewayResult of gateway_client.py.
use auditcore.Base.{String, Option, List, Bool}
use auditcore.Base.Text.{Text}
use auditcore.Base.Json.{Value, ℤ}
use auditcore.Base.Uuid.{Uuid}

pub record EvidenceRow : Type 0 where
  pub id : Uuid
  pub asset_id : Option Uuid
  pub source_tool : String
  pub category : String
  pub parsed : Value

pub record AssetRow : Type 0 where
  pub id : Uuid
  pub type : String
  pub natural_key : String
  pub name : String
  pub attributes : Value

pub record ObservationWrite : Type 0 where
  pub run_id : Uuid
  pub asset_id : Uuid
  pub domain : String
  pub topic : Text
  pub summary : Text
  pub detail : Text
  pub facts : Value
  pub related_asset_ids : List Uuid
  pub evidence_ids : List Uuid
  pub produced_by_agent : Text
  pub model_used : String

pub record ObservationRow : Type 0 where
  pub id : Uuid
  pub asset_id : Uuid
  pub domain : String
  pub topic : Text
  pub summary : Text
  pub detail : Text
  pub facts : Value

pub record ReportSectionWrite : Type 0 where
  pub run_id : Uuid
  pub audience : Text
  pub order : ℤ
  pub title : Text
  pub body_md : Text
  pub embedded_observations : List Uuid
  pub produced_by_agent : Text
  pub model_used : String

-- `F` is the type of floats, of which the orchestrator only adds costs.
pub record GatewayResult (F : Type 0) : Type 0 where
  pub parsed : Value
  pub schema_valid : Option Bool
  pub schema_errors : List Text
  pub model : String
  pub provider : String
  pub cost_usd : F
  pub content : Text
