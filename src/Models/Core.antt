-- ===== src/Models/Core.antt =====
-- core.py: what the services exchange.
use auditcore.Base.{ℕ, ◌≢◌, ◌≡◌, refl, String, Option, List, [], ◌∷◌}
use auditcore.Base.Text.{Text}
use auditcore.Base.Json.{ℤ, Fields}
use auditcore.Base.Error.{Result, ok, raised, value_error}
use auditcore.Base.Uuid.{Uuid}
use auditcore.Models.Category.{Category}

pub data Domain : Type 0 where
  security performance cloud k8s db hardware network software : Domain

-- `domain.value`
abbrev pub domain_value : Domain → String
domain_value security = "security"
domain_value performance = "performance"
domain_value cloud = "cloud"
domain_value k8s = "k8s"
domain_value db = "db"
domain_value hardware = "hardware"
domain_value network = "network"
domain_value software = "software"

pub data AssetType : Type 0 where
  host vm container pod k8s_node k8s_cluster cloud_account cloud_resource : AssetType
  database gpu network_device load_balancer storage_bucket : AssetType

pub data RunStatus : Type 0 where
  planning collecting normalizing discovering reporting complete failed : RunStatus

-- Times are microseconds since the epoch.
pub record Run : Type 0 where
  pub id : Uuid
  pub tenant_id : Uuid
  pub parent_run_id : Option Uuid
  pub scope : Fields
  pub collection_plan : Option Fields
  pub status : RunStatus
  pub started_at : ℕ
  pub completed_at : Option ℕ
  pub cost_cents : ℤ

pub data Environment : Type 0 where
  prod staging dev unknown : Environment

pub record Asset : Type 0 where
  pub id : Uuid
  pub tenant_id : Uuid
  pub run_id : Uuid
  pub type : AssetType
  pub natural_key : Text
  pub name : Text
  pub environment : Environment
  pub attributes : Fields
  pub parent_asset_id : Option Uuid
  pub tags : List (String × Text)
  pub first_seen : ℕ
  pub last_seen : ℕ

-- `F` is the type of floats.
pub record EvidenceItem (F : Type 0) : Type 0 where
  pub id : Uuid
  pub tenant_id : Uuid
  pub run_id : Uuid
  pub asset_id : Option Uuid
  pub source_tool : Text
  pub source_tool_version : Text
  pub collected_at : ℕ
  pub category : Category
  pub raw_ref : Text
  pub parsed : Fields
  pub confidence : F
  pub redactions : List Text

pub record Observation : Type 0 where
  pub id : Uuid
  pub tenant_id : Uuid
  pub run_id : Uuid
  pub asset_id : Uuid
  pub domain : Domain
  pub topic : Text
  pub summary : Text
  pub detail : Text
  pub facts : Fields
  pub related_asset_ids : List Uuid
  pub evidence_ids : List Uuid
  pub produced_by_agent : Text
  pub model_used : Text
  pub created_at : ℕ

-- The validator of `evidence_ids`
unfoldable pub must_cite_evidence : List Uuid → Result (List Uuid)
must_cite_evidence [] = raised value_error
must_cite_evidence (u ∷ us) = ok (u ∷ us)

pub data Audience : Type 0 where
  technical summary : Audience

pub record ReportSection : Type 0 where
  pub id : Uuid
  pub run_id : Uuid
  pub audience : Audience
  pub order : ℤ
  pub title : Text
  pub body_md : Text
  pub embedded_observations : List Uuid

-- The validator refuses no ids but the empty list.
pub must_cite_evidence-cited : (ids : List Uuid) → ids ≢ [] → must_cite_evidence ids ≡ ok ids
unfolding must_cite_evidence
must_cite_evidence-cited [] h = absurd (h refl)
must_cite_evidence-cited (u ∷ us) h = refl
