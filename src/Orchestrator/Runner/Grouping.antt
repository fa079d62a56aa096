-- ===== src/Orchestrator/Runner/Grouping.antt =====
-- runner.py: the categories of a run, grouped by the agent that describes them.
pub mod Partition
use auditcore.Base.{String, Option, none, some, List, [], ◌∷◌, ◌++◌, str_eq, if◌then◌else◌}
use auditcore.Base.Text.{Text, codes}
use auditcore.Base.Json.{str, Runtime}
use auditcore.Orchestrator.Domains.{DomainBinding, binding_for}

-- An entry of `by_agent`.
pub record Group : Type 0 where
  pub agent : String
  pub domain : String
  pub categories : List String

-- `by_agent.setdefault(agent, (domain, []))`, and the append to its list
unfoldable pub add_category : DomainBinding → String → List Group → List Group
add_category b category [] =
    record { agent = b.agent; domain = b.domain; categories = category ∷ [] } ∷ []
add_category b category (g ∷ gs) =
    if str_eq g.agent b.agent
    then record g { categories = g.categories ++ category ∷ [] } ∷ gs
    else g ∷ add_category b category gs

module _ (rt : Runtime) where
  pub unbound : String → Text
  unbound category = codes "no discovery agent for category " ++ rt.repr (str (codes category))

  -- One turn of the loop over `categories`.
  place : String → Option DomainBinding → List Group × List Text → List Group × List Text
  unfolding unbound
  place category none (groups, drops) = (groups, drops ++ unbound category ∷ [])
  place category (some b) (groups, drops) = (add_category b category groups, drops)

  unfoldable pub group_categories : List String → List Group × List Text → List Group × List Text
  unfolding place
  group_categories [] kept = kept
  group_categories (category ∷ rest) kept =
      group_categories rest (place category (binding_for category) kept)
