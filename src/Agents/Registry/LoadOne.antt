-- ===== src/Agents/Registry/LoadOne.antt =====
-- `_load_one` of registry.py and its helpers.
use auditcore.Base.{
  String, Option, none, some, List, [], ◌∷◌, ◌++◌, Bool, false, ◌||◌, if◌then◌else◌,
}
use auditcore.Base.Text.{Text, codes, text_eq}
use auditcore.Base.Json.{
  Value, null, str, arr, obj, nil, Fields, lookup, truthy, iterate, or_default, py_str,
}
use auditcore.Base.Error.{Result, ok, raised, type_error, agent_spec_error, ◌>>=◌}
use auditcore.Base.Uuid.{strip, is_space}
use auditcore.Agents.Definition.{AgentDefinition, FileSystem, Parsers}

unfoldable pub one_of : List String → Text → Bool
one_of [] t = false
one_of (s ∷ rest) t = text_eq (codes s) t || one_of rest t

abbrev pub valid_task_kinds : List String
valid_task_kinds = "SUMMARIZE" ∷ "CLASSIFY" ∷ "REASON" ∷ "LONG_CONTEXT" ∷ "CODE" ∷ []

abbrev pub valid_budgets : List String
valid_budgets = "low" ∷ "normal" ∷ "high" ∷ []

abbrev pub valid_privacy : List String
valid_privacy = "standard" ∷ "sensitive" ∷ "air_gapped" ∷ []

-- A value that has to be in a set of texts, or what is raised. A list or a dict cannot be hashed.
unfoldable pub allowed : List String → Value → Result Text → Result Text
allowed names (str t) refused = if one_of names t then ok t else refused
allowed names (arr vs) refused = raised type_error
allowed names (obj fs) refused = raised type_error
allowed names _ refused = refused

-- `d.get(k, v)`
abbrev pub or_given : Option Value → Value → Value
or_given none d = d
or_given (some v) d = v

module _ (fs : FileSystem) (ps : Parsers) (child : Text) where
  unfoldable pub spec_error {ℓ} : {A : Type ℓ} → Text → Result A
  spec_error message = raised (agent_spec_error (fs.spec_path child ++ (codes ": " ++ message)))

  repr_of : Text → Text
  repr_of t = ps.runtime.repr (str t)

  missing : String → Result Text
  unfolding spec_error repr_of
  missing key = spec_error (codes "missing required key " ++ repr_of (codes key))

  -- `_require`
  unfoldable pub require_text : Option Value → String → Result Text
  unfolding missing
  require_text none key = missing key
  require_text (some null) key = missing key
  require_text (some (str [])) key = missing key
  require_text (some v) key = ok (py_str ps.runtime v)

  -- `directory / value`, if `value` is a text, and the file there
  open_file : Value → Text → Result Text
  unfolding spec_error
  open_file (str path) what = elim (fs.read child path) [
    | none ↦ spec_error (what ++ (codes " file not found: " ++ path))
    | some text ↦ ok text
  ]
  open_file v what = raised type_error

  -- `_resolve_prompt`
  unfoldable pub resolve_prompt : Value → Result Text
  unfolding open_file
  resolve_prompt value =
      if truthy value
      then open_file value (codes "system_prompt")
      else spec_error (codes "system_prompt is required")

  parsed_schema : Text → Result Value
  parsed_schema text = elim (ps.loads text) [
    | none ↦ spec_error (codes "output_schema is not valid JSON: " ++ ps.json_error text)
    | some v ↦ ok v
  ]

  -- `_resolve_schema`; None is `null`.
  unfoldable pub resolve_schema : Value → Result Value
  unfolding parsed_schema open_file
  resolve_schema value =
      if truthy value then open_file value (codes "output_schema") >>= parsed_schema else ok null

  unfoldable pub check_name : Text → Result (Unit {0})
  unfolding repr_of
  check_name name =
      if text_eq name child
      then ok tt
      else spec_error
          (codes "name " ++ (repr_of name ++ (codes " does not match directory " ++ repr_of child)))

  unfoldable pub definition : Fields → Result AgentDefinition
  unfolding repr_of
  definition raw = do
    name ← require_text (lookup "name" raw) "name"
    named ← check_name name
    required ← require_text (lookup "task_kind" raw) "task_kind"
    task_kind ← allowed valid_task_kinds (str required) (
        spec_error (
          codes "task_kind "
          ++ (repr_of required
              ++ codes " not in ['CLASSIFY', 'CODE', 'LONG_CONTEXT', 'REASON', 'SUMMARIZE']")))
    let budget = or_given (lookup "budget_hint" raw) (str (codes "normal"))
    budget_hint ←
        allowed valid_budgets budget
          (spec_error (codes "budget_hint " ++ (ps.runtime.repr budget ++ codes " invalid")))
    let tier = or_given (lookup "privacy" raw) (str (codes "standard"))
    privacy ←
        allowed valid_privacy tier
          (spec_error (codes "privacy " ++ (ps.runtime.repr tier ++ codes " invalid")))
    system_prompt ← resolve_prompt (or_given (lookup "system_prompt" raw) null)
    output_schema ← resolve_schema (or_given (lookup "output_schema" raw) null)
    contract ← iterate (or_default (or_given (lookup "contract" raw) (arr nil)) (arr nil))
    ok (record {
      name = name;
      version = py_str ps.runtime (or_given (lookup "version" raw) (str (codes "0.0.0")));
      purpose = strip is_space (py_str ps.runtime (or_given (lookup "purpose" raw) (str [])));
      task_kind = task_kind;
      budget_hint = budget_hint;
      privacy = privacy;
      system_prompt = system_prompt;
      output_schema = output_schema;
      contract = contract;
      directory = child;
    })

  unfoldable pub from_yaml : Value → Result AgentDefinition
  from_yaml (obj raw) = definition raw
  from_yaml v = spec_error (codes "top-level YAML must be a mapping")

  -- `_load_one`, on the text of agent.yaml
  unfoldable pub load_one : Text → Result AgentDefinition
  unfolding definition from_yaml check_name
  load_one text = ps.safe_load text >>= from_yaml
