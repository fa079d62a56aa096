-- ===== src/Agents/Registry.antt =====
-- registry.py: AgentRegistry and the loading of agent definitions.
pub mod LoadOne
pub mod Valid
use auditcore.Base.{
  ℕ, Option, none, some, List, [], ◌∷◌, ◌++◌, Bool, true, false, map, not, ◌||◌, if◌then◌else◌,
}
use auditcore.Base.Text.{Text, codes, text_eq, starts_with}
use auditcore.Base.Sort.{sorted, text_le}
use auditcore.Base.Json.{Value}
use auditcore.Base.Error.{Result, ok, raised, key_error, agent_spec_error, ◌>>=◌}
use auditcore.Agents.Definition.{AgentDefinition, FileSystem, Parsers}
use LoadOne.{load_one}

-- `_agents`: one definition for each name, in the order of loading.
pub record AgentRegistry : Type 0 where
  pub agents : List (Text × AgentDefinition)

find : Text → List (Text × AgentDefinition) → Option AgentDefinition
find k [] = none
find k ((j, d) ∷ rest) = if text_eq j k then some d else find k rest

-- `agents[k] = d`
put : Text → AgentDefinition → List (Text × AgentDefinition) → List (Text × AgentDefinition)
put k d [] = (k, d) ∷ []
put k d ((j, e) ∷ rest) = if text_eq j k then (j, d) ∷ rest else (j, e) ∷ put k d rest

-- `name in registry` and `registry.get(name)` in one: `none` if the name is absent.
unfoldable pub lookup : Text → AgentRegistry → Option AgentDefinition
unfolding find
lookup name r = find name r.agents

unfoldable pub get : Text → AgentRegistry → Result AgentDefinition
get name r = elim (lookup name r) [ none ↦ raised key_error | some d ↦ ok d ]

unfoldable pub names : AgentRegistry → List Text
names r = sorted text_le (map (λ (k, d). k) r.agents)

-- `all`: the definitions in the order of their names; each name is there.
unfoldable pub all : AgentRegistry → Result (List AgentDefinition)
unfolding names get
all r = each (names r)
  where
    each : List Text → Result (List AgentDefinition)
    each [] = ok []
    each (n ∷ ns) = get n r >>= λ d. each ns >>= λ ds. ok (d ∷ ds)

module _ (fs : FileSystem) (ps : Parsers) where
  -- A child that `load` passes over: no directory, or a name that starts with `_`.
  skipped : Text → Bool
  skipped child = not (fs.is_dir child) || starts_with child (codes "_")

  load_child : Text → List (Text × AgentDefinition) → Result (List (Text × AgentDefinition))
  load_child child agents = elim (fs.spec_text child) [
    | none ↦ ok agents
    | some text ↦ load_one fs ps child text >>= λ d. ok (put d.name d agents)
  ]

  load_all : List Text → List (Text × AgentDefinition) → Result (List (Text × AgentDefinition))
  unfolding skipped load_child put
  load_all [] agents = ok agents
  load_all (child ∷ rest) agents = do
    next ← if skipped child then ok agents else load_child child agents
    load_all rest next

  checked : List (Text × AgentDefinition) → Result AgentRegistry
  checked [] =
      raised (agent_spec_error (codes "no agent definitions found under " ++ fs.agents_dir))
  checked (a ∷ as') = ok (record { agents = a ∷ as' })

  -- AgentRegistry.load
  unfoldable pub load : Result AgentRegistry
  unfolding load_all checked
  load = elim fs.children [
    | none ↦ raised (agent_spec_error (codes "agents dir not found: " ++ fs.agents_dir))
    | some children ↦ load_all (sorted text_le children) [] >>= checked
  ]
