-- ===== src/Lib.antt =====
-- AuditCore, a read-only system-discovery platform: agents describe a system from the evidence that
-- collectors gathered, and every statement has to be traceable to that evidence.
--
-- The parts and their files. The ingestion service (services/ingestion-api) creates runs and takes in
-- bundles of evidence; a run's evidence and assets stand in Postgres. The orchestrator
-- (services/orchestrator) groups the categories of the evidence by agent, asks each agent through
-- the model gateway (services/model-gateway), checks what it returns, and writes the rows; a second
-- pass does the same for the sections of the report, which the report generator
-- (services/report-generator) renders. Agents are loaded from files by packages/agents-py.
--   Base: Python's values (Json), texts, `UUID` and `int`, exceptions (Error), methods that change a
--     state and may raise (Exec), sorting, the expression of the observation markers.
--   Models: packages/models-py/auditcore_models/core.py.
--   Database: the tables of deploy/docker-compose/postgres/init/01_schema.sql, and transactions.
--   Agents: packages/agents-py/auditcore_agents/registry.py. `load` is AgentRegistry.load, `load_one`
--     is _load_one.
--   Gateway: services/model-gateway/auditcore_gateway. Routing (routing.py), Cost (cost.py), Validator
--     (validator.py), Complete (gateway.py and providers/__init__.py), Types (types.py), Providers
--     (providers/anthropic.py, openai.py, google.py), Http (main.py).
--   Orchestrator: services/orchestrator/auditcore_orchestrator. Domains (domains.py), Rows and Repo
--     (repo.py and gateway_client.py), Discovery (discovery.py), Report (report.py), Runner
--     (runner.py), PgRepo (class PgRepo of repo.py), Cli (main.py).
--   Ingestion: services/ingestion-api/auditcore_ingestion. Bundle (bundle.py), Site (storage.py and
--     db.py), Item, Runs and Reads (main.py).
--   Rendering: services/report-generator/auditcore_report. Sections (sections.py), Loader
--     (loader.py), Grouping (render.py).
--   Connectors: connectors/base.py and the four connectors.
--   Platform: the calls of all services in any order. Normalizer has the two statements of
--     services/normalizer-worker/src/db.rs that change the tables.
--   Tests: runs on concrete data.
--
-- State and errors. An action `Exec S A` takes a state to a result, or a raised exception, and a
-- state. The runner is written over any `Repo`; PgRepo is one, over a `World` that holds the
-- database and whatever else the gateway keeps. Each method of PgRepo is one connection and one
-- transaction: a list of faults says which connections to come fail, and a raise rolls back what
-- the transaction wrote. A site of the ingestion service has, beside the database, the uploads to the
-- object store in their order, with a list of faults of its own; a raise takes none of them back. What
-- an INSERT can violate raises: the domain enum, the references to runs and assets, the range of INT.
-- NUL characters and surrogates in a text are not refused.
--
-- Parameters. Floats are a type with the operations that are used. `repr`, `json.dumps`,
-- `json.loads`, YAML and jsonschema are functions, and `json.loads` either returns or raises
-- JSONDecodeError. What the object store answers is a function of the uploads so far. The gateway is
-- any action of the orchestrator's world; provider classes, SDKs and the clock are any actions of the
-- gateway's world. The ids that the server makes up are a function of a counter. No fuel is used:
-- each loop runs over a list or a text.
--
-- Choices. A UUID is its 128-bit number; UUID() and int() are modelled for ASCII digits. A JSON object
-- has each key once. Text orders by code points, where the server may use another collation; rows
-- that ORDER BY leaves equal keep their order in the table. The messages of Python's own exceptions
-- are not modelled; those of the program are. TaskKind prints as in Python 3.12.
--
-- Not modelled: the command line of the report generator and its templates, the settings and their
-- defaults but for those that the commands pass on, the local provider, most checks of the pydantic
-- models, the generation of schemas, the check of the allowlists, and the parts in Go, C++ and Rust
-- but for the two statements above.
pub mod Base
pub mod Models
pub mod Database
pub mod Agents
pub mod Gateway
pub mod Orchestrator
pub mod Ingestion
pub mod Platform
pub mod Connectors
pub mod Rendering
pub mod Tests
