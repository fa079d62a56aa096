-- ===== src/Tests/Data.antt =====
-- A run with one asset and one item of evidence, and a gateway that describes it.
use auditcore.Base.{false, ℕ, ◌+◌, Option, none, some, List, [], ◌∷◌, ◌++◌, true}
use auditcore.Base.Text.{Text, codes}
use auditcore.Base.Json.{
  finite, Value, int, pos, str, arr, nil, cons, obj, end, field, Fields, Runtime,
}
use auditcore.Base.Error.{ok}
use auditcore.Base.Uuid.{Uuid, print_uuid}
use auditcore.Agents.Definition.{AgentDefinition}
use auditcore.Agents.Registry.{AgentRegistry}
use auditcore.Database.{ObservationRecord, Tables}
use auditcore.Orchestrator.Rows.{
  EvidenceRow, AssetRow, ObservationWrite, ObservationRow, GatewayResult,
}
use auditcore.Orchestrator.Discovery.{GatewayClient, CallSettings}
use auditcore.Orchestrator.PgRepo.{World}
use auditcore.Orchestrator.Runner.Discover.{Costs}

abbrev pub runtime : Runtime
runtime = record { repr = λ v. codes "?"; dumps = λ v. codes "{}" }

abbrev pub costs : Costs ℕ
costs = record { zero = 0; add = λ a b. a + b }

-- An agent of a name.
abbrev pub agent : Text → AgentDefinition
agent name = record {
  name = name;
  version = codes "0.1.0";
  purpose = codes "describe";
  task_kind = codes "REASON";
  budget_hint = codes "standard";
  privacy = codes "standard";
  system_prompt = codes "Describe.";
  output_schema = obj end;
  contract = [];
  directory = name;
}

abbrev pub registry : AgentRegistry
registry = record {
  agents =
      (codes "hardware", agent (codes "hardware")) ∷ (codes "report", agent (codes "report")) ∷ [];
}

abbrev pub settings : CallSettings
settings = record { tenant_id = "t"; budget_hint = "standard"; privacy = "standard" }

abbrev pub evidence_row : EvidenceRow
evidence_row = record {
  id = 7;
  asset_id = some 5;
  source_tool = "lshw";
  category = "hardware";
  parsed = obj (field "cores" (int (pos 8)) end);
}

abbrev pub asset_row : AssetRow
asset_row = record { id = 5; type = "host"; natural_key = "h1"; name = "h1"; attributes = obj end }

abbrev pub id_text : Uuid → Value
id_text u = str (print_uuid u)

-- An observation of an asset that cites the ids in a value.
abbrev pub observation_of : Uuid → Value → Fields
observation_of asset_id ids = field "asset_id" (id_text asset_id) (
    field "evidence_ids" ids (
      field "related_asset_ids" (arr nil) (
        field "topic" (str (codes "cpu")) (
          field "summary" (str (codes "8 cores"))
            (field "detail" (str (codes "lshw")) (field "facts" (obj end) end))))))

abbrev pub observation_citing : Value → Fields
observation_citing = observation_of 5

abbrev pub good_observation : Fields
good_observation = observation_citing (arr (cons (id_text 7) nil))

-- It also cites an id that no evidence has.
abbrev pub foreign_observation : Fields
foreign_observation = observation_citing (arr (cons (id_text 7) (cons (id_text 9) nil)))

abbrev pub result_with : Value → GatewayResult ℕ
result_with parsed = record {
  parsed = parsed;
  schema_valid = some true;
  schema_errors = [];
  model = "m";
  provider = "p";
  cost_usd = 1;
  content = [];
}

abbrev pub discovered : GatewayResult ℕ
discovered = result_with (
    obj (
      field "observations" (arr (cons (obj good_observation) (cons (obj foreign_observation) nil)))
        end))

-- It refers to observation 9, which there is not.
abbrev pub marked_body : Text
marked_body = codes "[[observation:" ++ (print_uuid 9 ++ codes "]].")

abbrev pub sections_embedding : Value → GatewayResult ℕ
sections_embedding ids = result_with (
    obj (
      field "sections"
        (arr (
          cons
            (obj (
              field "audience" (str (codes "technical")) (
                field "title" (str (codes "Hardware"))
                  (field "body_md" (str marked_body) (field "embedded_observations" ids end)))))
            nil))
        end))

abbrev pub sections_answer : GatewayResult ℕ
sections_answer = sections_embedding (arr (cons (id_text 0) (cons (id_text 9) nil)))

abbrev pub answering : {W : Type 0} → GatewayResult ℕ → GatewayClient ℕ W
answering result request w = (ok result, w)

abbrev pub observation_write : ObservationWrite
observation_write = record {
  run_id = 1;
  asset_id = 5;
  domain = "hardware";
  topic = codes "cpu";
  summary = codes "8 cores";
  detail = codes "lshw";
  facts = obj end;
  related_asset_ids = [];
  evidence_ids = 7 ∷ [];
  produced_by_agent = codes "hardware@0.1.0";
  model_used = "m";
}

abbrev pub observation_row : ObservationRow
observation_row = record {
  id = 0;
  asset_id = 5;
  domain = "hardware";
  topic = codes "cpu";
  summary = codes "8 cores";
  detail = codes "lshw";
  facts = obj end;
}

-- The tables of the run, with some observations.
abbrev pub tables_with : List ObservationRecord → Tables ℕ
tables_with observations = record {
  runs =
      record {
        id = 1;
        tenant_id = "t";
        scope = obj end;
        status = "normalizing";
        started_at = none;
        completed_at = none;
        cost_cents = pos 0;
      }
      ∷ [];
  assets =
      record { tenant_id = "t"; run_id = 1; row = asset_row; first_seen = 0; last_seen = 0 } ∷ [];
  evidence_items =
      record {
        id = 7;
        tenant_id = "t";
        run_id = 1;
        asset_id = some 5;
        source_tool = "lshw";
        source_tool_version = "1";
        collected_at = 0;
        category = "hardware";
        raw_ref = [];
        parsed = some evidence_row.parsed;
        confidence = finite 0 0 false;
      }
      ∷ [];
  observations = observations;
  report_sections = [];
  audit_log = [];
  drawn = 0;
}

-- The database of the run; the connections fail as `faults` says.
abbrev pub world : List ObservationRecord → List (Option ℕ) → World ℕ ℕ
world observations faults = record {
  db = record { tables = tables_with observations; faults = faults };
  net = 0;
}
