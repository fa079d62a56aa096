-- ===== src/Tests/Registry.antt =====
-- A directory with one agent.
use auditcore.Base.{◌≡◌, refl, none, some, List, [], ◌∷◌, true}
use auditcore.Base.Text.{Text, codes}
use auditcore.Base.Json.{Value, str, obj, fields}
use auditcore.Base.Error.{ok}
use auditcore.Agents.Definition.{AgentDefinition, FileSystem, Parsers}
use auditcore.Agents.Registry.{AgentRegistry, lookup, load}
use auditcore.Agents.Registry.Valid.{IsValid, load-IsValid}
use auditcore.Tests.Data.{runtime}

abbrev file_system : FileSystem
file_system = record {
  agents_dir = codes "agents";
  children = some (codes "hardware" ∷ []);
  is_dir = λ child. true;
  spec_text = λ child. some [];
  read = λ child path. some (codes "Describe.");
  spec_path = λ child. child;
}

-- The values of the agent.yaml.
spec : Value
unfolding fields
spec = obj (
    fields (
      ("name", str (codes "hardware"))
      ∷ ("task_kind", str (codes "REASON"))
      ∷ ("system_prompt", str (codes "prompt.md"))
      ∷ []))

abbrev parsers : Parsers
parsers = record {
  safe_load = λ text. ok spec;
  loads = λ text. none;
  json_error = λ text. [];
  runtime = runtime;
}

abbrev hardware : AgentDefinition
hardware = record {
  name = codes "hardware";
  version = codes "0.0.0";
  purpose = [];
  task_kind = codes "REASON";
  budget_hint = codes "normal";
  privacy = codes "standard";
  system_prompt = codes "Describe.";
  output_schema = Value.null;
  contract = [];
  directory = codes "hardware";
}

abbrev registry : AgentRegistry
registry = record { agents = (codes "hardware", hardware) ∷ [] }

loaded : load file_system parsers ≡ ok registry
unfolding load spec codes auditcore.Base.Sort.sorted auditcore.Base.Text.starts_with
    auditcore.Agents.Registry.LoadOne.load_one auditcore.Agents.Registry.LoadOne.require_text
    auditcore.Base.Json.lookup auditcore.Base.Text.text_eq auditcore.Base.Json.py_str
    auditcore.Agents.Registry.LoadOne.allowed auditcore.Agents.Registry.LoadOne.one_of
    auditcore.Agents.Registry.LoadOne.resolve_prompt auditcore.Base.Json.truthy
    auditcore.Agents.Registry.LoadOne.resolve_schema auditcore.Base.Json.iterate
    auditcore.Base.Json.or_default auditcore.Base.Uuid.strip auditcore.Base.Json.items
loaded = refl

there : lookup (codes "hardware") registry ≡ some hardware
unfolding lookup codes auditcore.Base.Text.text_eq
there = refl

load-IsValid_example : IsValid (codes "hardware") hardware
load-IsValid_example =
    load-IsValid file_system parsers registry (codes "hardware") hardware loaded there
