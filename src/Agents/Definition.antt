-- ===== src/Agents/Definition.antt =====
-- AgentDefinition of registry.py.
use auditcore.Base.{Option, List, Bool}
use auditcore.Base.Error.{Result}
use auditcore.Base.Text.{Text}
use auditcore.Base.Json.{Value, Runtime}

pub record AgentDefinition : Type 0 where
  pub name : Text
  pub version : Text
  pub purpose : Text
  pub task_kind : Text
  pub budget_hint : Text
  pub privacy : Text
  pub system_prompt : Text
  pub output_schema : Value
  pub contract : List Value
  pub directory : Text

-- `routing`: the task, the budget and the privacy that the gateway resolves.
unfoldable pub routing : AgentDefinition → Text × (Text × Text)
routing d = (d.task_kind, (d.budget_hint, d.privacy))

-- The agents directory, as `load` reads it. Names are those of its children.
pub record FileSystem : Type 0 where
  -- `str(agents_dir)`
  pub agents_dir : Text
  -- `agents_dir.iterdir()`, `none` if it is no directory
  pub children : Option (List Text)
  pub is_dir : Text → Bool
  -- the text of a child's agent.yaml, if it exists
  pub spec_text : Text → Option Text
  -- `(agents_dir / child / value).resolve()`: the text of the file, if it exists
  pub read : Text → Text → Option Text
  -- `str` of the path of a child's agent.yaml
  pub spec_path : Text → Text

-- The parsers of packages: `yaml.safe_load` and `json.loads`. `none` is a JSONDecodeError.
pub record Parsers : Type 0 where
  pub safe_load : Text → Result Value
  pub loads : Text → Option Value
  -- the message of that error
  pub json_error : Text → Text
  pub runtime : Runtime
