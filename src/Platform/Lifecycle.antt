-- ===== src/Platform/Lifecycle.antt =====
-- The calls of all services, in any order, as steps over the tables.
pub mod Within
pub mod Sound
use auditcore.Base.{ℕ, ◌≡◌, String, Option, List, []}
use auditcore.Base.Text.{Text}
use auditcore.Base.Json.{Value, Runtime, Float}
use auditcore.Base.Uuid.{Uuid}
use auditcore.Agents.Registry.{AgentRegistry}
use auditcore.Database.{Fresh, Tables}
use auditcore.Orchestrator.Discovery.{Request, GatewayClient, CallSettings}
use auditcore.Orchestrator.Runner.Discover.{Costs, discover_run}
use auditcore.Orchestrator.Runner.Assemble.{assemble_run_report}
use auditcore.Orchestrator.PgRepo.{World, pg_repo}
use auditcore.Ingestion.Bundle.{Bytes}
use auditcore.Ingestion.Item.{Settings, Services}
use auditcore.Ingestion.Site.{Site}
use auditcore.Ingestion.Runs.{create_run, ingest_bundle}
use auditcore.Platform.Normalizer.{AssetHint, upsert_asset, write_parsed}

-- How the services are set up.
pub record Setup (F : Type 0) : Type 0 where
  pub runtime : Runtime
  pub costs : Costs F
  pub tenant_id : String
  pub fresh : ℕ → Fresh
  pub config : Settings
  pub services : Services
  pub merge : Value → Value → Value

-- One call of a service, whatever it is given, whatever fails and whatever the gateway answers.
pub data Step {F : Type 0} (N : Type 0) (p : Setup F) : Tables F → Tables F → Type 0 where
  create :
      (scope : Value) (s : Site F)
      → Step N p s.db.tables (create_run p.config p.services scope s).1.db.tables
  ingest :
      (run_id : Uuid) (stamp : Text) (contents : Bytes) (s : Site F)
      → Step N p s.db.tables (ingest_bundle p.config p.services run_id stamp contents s).1.db.tables
  upsert :
      (run_id : Uuid) (hint : AssetHint) (t : Tables F)
      → Step N p t (upsert_asset p.tenant_id p.merge p.fresh run_id hint t)
  parse :
      (evidence_id : Uuid) (asset_id : Option Uuid) (parsed : Value) (confidence : Float)
      (t : Tables F)
      → Step N p t (write_parsed evidence_id asset_id parsed confidence t)
  discover :
      (registry : AgentRegistry) (gateway : GatewayClient F (World F N)) (settings : CallSettings)
      (run_id : Uuid) (w : World F N)
      → ((r : Request) (v : World F N) → (gateway r v).1.db ≡ v.db)
      → Step N p w.db.tables
          (discover_run p.runtime p.costs
            (pg_repo p.tenant_id p.fresh)
            registry
            gateway
            settings
            run_id
            w).1.db.tables
  report :
      (registry : AgentRegistry) (gateway : GatewayClient F (World F N)) (settings : CallSettings)
      (run_id : Uuid) (w : World F N)
      → ((r : Request) (v : World F N) → (gateway r v).1.db ≡ v.db)
      → Step N p w.db.tables
          (assemble_run_report p.runtime p.costs
            (pg_repo p.tenant_id p.fresh)
            registry
            gateway
            settings
            run_id
            w).1.db.tables

abbrev pub empty : {F : Type 0} → Tables F
empty = record {
  runs = [];
  assets = [];
  evidence_items = [];
  observations = [];
  report_sections = [];
  audit_log = [];
  drawn = 0;
}

-- What a sequence of calls comes to, from empty tables.
pub data Reachable {F : Type 0} (N : Type 0) (p : Setup F) : Tables F → Type 0 where
  start : Reachable N p empty
  next : (t u : Tables F) → Reachable N p t → Step N p t u → Reachable N p u
