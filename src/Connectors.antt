-- ===== src/Connectors.antt =====
-- connectors: the readers of the control plane, which make evidence of what a service answers.
pub mod Labelled
use auditcore.Base.{
  ℕ, ◌-◌, ltb, String, Option, List, [], ◌∷◌, ◌++◌, map, Bool, str_eq, ◌||◌, if◌then◌else◌,
}
use auditcore.Base.Text.{Text, codes}
use auditcore.Base.Json.{Value, Fields, str, int, pos, arr, nil, obj, end, fields}
use auditcore.Base.Error.{type_error, overflow_error}
use auditcore.Base.Exec.{Exec, pure, raise, ◌>>=◌, ◌>>◌}
use auditcore.Base.Uuid.{Uuid}

pub record Target : Type 0 where
  pub identifier : Text
  pub credentials_ref : Option Text
  pub metadata : Fields

pub record EvidenceBlob : Type 0 where
  pub source_tool : Text
  pub source_tool_version : Text
  pub category : String
  pub collected_at : ℕ
  pub raw : Text
  pub id : Uuid
  pub scope : Value

-- What the connectors call: a package that is imported when it is needed, the clock, `uuid4`,
-- `json.dumps(…, default=str).encode()` and `isoformat`.
pub record Runtime (W : Type 0) : Type 0 where
  pub import_package : String → Exec W (Unit {0})
  pub now : Exec W ℕ
  pub uuid4 : Exec W Uuid
  pub dumps : Value → Text
  pub isoformat : ℕ → Text

-- The connectors that there are.
pub data Connector : Type 0 where
  aws kubernetes postgres prometheus : Connector

-- The class attributes.
abbrev pub name : Connector → String
name aws = "aws"
name kubernetes = "kubernetes"
name postgres = "postgres"
name prometheus = "prometheus"

abbrev pub category : Connector → String
category aws = "cloud"
category kubernetes = "kubernetes"
category postgres = "database"
category prometheus = "performance"

-- `__init_subclass__`, which runs when a class is defined.
unfoldable pub init_subclass : {W : Type 0} → String → String → Exec W (Unit {0})
init_subclass class_name class_category =
    if str_eq class_name "" || str_eq class_category "" then raise type_error else pure tt

abbrev pub services : List String
services = "iam" ∷ "s3" ∷ "ec2" ∷ "vpc" ∷ "cloudtrail" ∷ "config" ∷ []

abbrev pub resources : List String
resources =
    "rbac.roles" ∷ "rbac.rolebindings" ∷ "rbac.clusterroles" ∷ "rbac.clusterrolebindings"
    ∷ "core.namespaces" ∷ "core.pods" ∷ "networking.networkpolicies" ∷ "policy.podsecuritypolicies"
    ∷ []

-- QUERIES; what they ask is not used yet.
abbrev pub queries : List (String × String)
queries =
    (
      "pg_stat_statements",
      "SELECT queryid, calls, total_exec_time, rows,        query   FROM pg_stat_statements  ORDER BY total_exec_time DESC LIMIT 200",
    )
    ∷ (
      "indexes",
      "SELECT schemaname, relname, indexrelname, idx_scan, idx_tup_read   FROM pg_stat_user_indexes  ORDER BY idx_scan ASC LIMIT 500",
    )
    ∷ (
      "replication",
      "SELECT application_name, state, sync_state, replay_lag   FROM pg_stat_replication",
    )
    ∷ ("settings", "SELECT name, setting, unit, source   FROM pg_settings  WHERE name = ANY(%s)")
    ∷ []

abbrev pub query_names : List String
query_names = map (λ q. q.0) queries

abbrev pub default_queries : List (String × String)
default_queries =
    ("cpu_busy_pct_avg", "avg by (instance) (1 - rate(node_cpu_seconds_total{mode=\"idle\"}[5m]))")
    ∷ ("memory_used_pct", "1 - (node_memory_MemAvailable_bytes / node_memory_MemTotal_bytes)")
    ∷ ("disk_io_util_pct", "rate(node_disk_io_time_seconds_total[5m])")
    ∷ (
      "net_errs_per_sec",
      "rate(node_network_receive_errs_total[5m]) + rate(node_network_transmit_errs_total[5m])",
    )
    ∷ ("load1", "node_load1")
    ∷ []

-- 24 hours, in microseconds
abbrev window : ℕ
window = 86400000000

abbrev text : String → Value
text s = str (codes s)

module _ {W : Type 0} (rt : Runtime W) where
  -- `out.append(…)` for each of the names.
  unfoldable pub collect_each :
      {N : Type 0} → (N → Exec W EvidenceBlob) → List N → Exec W (List EvidenceBlob)
  collect_each blob [] = pure []
  collect_each blob (n ∷ ns) = do b ← blob n; rest ← collect_each blob ns; pure (b ∷ rest)

  -- An EvidenceBlob, whose id is a new one.
  unfoldable pub make_blob : Text → String → String → ℕ → Value → Value → Exec W EvidenceBlob
  make_blob source_tool version blob_category collected_at payload scope = do
    id ← rt.uuid4
    pure (record {
      source_tool = source_tool;
      source_tool_version = codes version;
      category = blob_category;
      collected_at = collected_at;
      raw = rt.dumps payload;
      id = id;
      scope = scope;
    })

  unfoldable pub aws_blob : Target → String → Exec W EvidenceBlob
  unfolding make_blob fields
  aws_blob target svc = do
    now ← rt.now
    make_blob (codes "aws." ++ codes svc) "auditcore-aws/0.1.0" "cloud" now
        (obj (
          fields (
            ("service", text svc)
            ∷ ("account_id", str target.identifier)
            ∷ ("items", arr nil)
            ∷ [])))
        (obj (fields (("aws_account_id", str target.identifier) ∷ ("service", text svc) ∷ [])))

  unfoldable pub k8s_blob : Target → String → Exec W EvidenceBlob
  unfolding make_blob fields
  k8s_blob target r = do
    now ← rt.now
    make_blob (codes "k8s." ++ codes r) "auditcore-k8s/0.1.0" "kubernetes" now
        (obj (
          fields
            (("resource", text r) ∷ ("cluster", str target.identifier) ∷ ("items", arr nil) ∷ [])))
        (obj (fields (("cluster", str target.identifier) ∷ ("resource", text r) ∷ [])))

  unfoldable pub postgres_blob : Target → String → Exec W EvidenceBlob
  unfolding make_blob fields
  postgres_blob target query = do
    now ← rt.now
    make_blob (codes "postgres." ++ codes query) "auditcore-postgres/0.1.0" "database" now
        (obj
          (fields (("query", text query) ∷ ("db", str target.identifier) ∷ ("rows", arr nil) ∷ [])))
        (obj (fields (("db", str target.identifier) ∷ ("query", text query) ∷ [])))

  unfoldable pub prometheus_blob : Target → ℕ → ℕ → String × String → Exec W EvidenceBlob
  unfolding make_blob fields
  prometheus_blob target start end_ (query, promql) =
      make_blob (codes "prometheus." ++ codes query) "auditcore-prometheus/0.1.0" "performance" end_
        (obj (
          fields (
            ("status", text "stub")
            ∷ ("query", text promql)
            ∷ ("start", str (rt.isoformat start))
            ∷ ("end", str (rt.isoformat end_))
            ∷ ("data", obj (fields (("result", arr nil) ∷ [])))
            ∷ [])))
        (obj (
          fields (
            ("prometheus_url", str target.identifier)
            ∷ ("query", text promql)
            ∷ ("window_hours", int (pos 24))
            ∷ ("step", text "5m")
            ∷ [])))

  -- A time before the first year is an OverflowError.
  prometheus_queries : Target → ℕ → Exec W (List EvidenceBlob)
  unfolding collect_each prometheus_blob
  prometheus_queries target end_ =
      if ltb end_ window
      then raise overflow_error
      else collect_each (prometheus_blob target (end_ - window) end_) default_queries

  unfoldable pub collect : Connector → Target → Exec W (List EvidenceBlob)
  unfolding collect_each aws_blob k8s_blob postgres_blob prometheus_queries
  collect aws target = do rt.import_package "boto3"; collect_each (aws_blob target) services
  collect kubernetes target = do
    rt.import_package "kubernetes"
    collect_each (k8s_blob target) resources
  collect postgres target = do
    rt.import_package "psycopg"
    collect_each (postgres_blob target) query_names
  collect prometheus target = do
    rt.import_package "httpx"
    end_ ← rt.now
    prometheus_queries target end_
