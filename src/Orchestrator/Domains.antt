-- ===== src/Orchestrator/Domains.antt =====
-- domains.py: evidence categories and the agents that describe them.
use auditcore.Base.{
  String, Option, none, some, List, [], ◌∷◌, ◌≡◌, refl, str_eq, All, Bool-cases, inl, inr,
  if◌then◌else◌,
}
use mathlib.Core.Path.{subst}
use mathlib.Core.Option.{some-injective}

pub record DomainBinding : Type 0 where
  pub domain : String
  pub agent : String

abbrev pub category_bindings : List (String × DomainBinding)
category_bindings =
    ("security", record { domain = "security"; agent = "security_analysis" })
    ∷ ("performance", record { domain = "performance"; agent = "performance_analysis" })
    ∷ ("cloud", record { domain = "cloud"; agent = "cloud_analysis" })
    ∷ ("kubernetes", record { domain = "k8s"; agent = "kubernetes" })
    ∷ ("database", record { domain = "db"; agent = "database" })
    ∷ ("hardware", record { domain = "hardware"; agent = "hardware" })
    ∷ ("inventory", record { domain = "hardware"; agent = "hardware" })
    ∷ []

find_binding : String → List (String × DomainBinding) → Option DomainBinding
find_binding k [] = none
find_binding k ((j, b) ∷ rest) = if str_eq j k then some b else find_binding k rest

unfoldable pub binding_for : String → Option DomainBinding
unfolding find_binding
binding_for category = find_binding category category_bindings

-- The domain that an agent describes.
abbrev pub domain_of : String → String
domain_of agent =
    if str_eq agent "security_analysis"
    then "security"
    else if str_eq agent "performance_analysis"
    then "performance"
    else if str_eq agent "cloud_analysis"
    then "cloud"
    else if str_eq agent "kubernetes"
    then "k8s"
    else if str_eq agent "database"
    then "db"
    else "hardware"

find_binding-domain :
    (k : String) (table : List (String × DomainBinding)) {b : DomainBinding}
    → All (λ (j, c). c.domain ≡ domain_of c.agent) table
    → find_binding k table ≡ some b
    → b.domain ≡ domain_of b.agent
unfolding find_binding
find_binding-domain k [] h e = cc
find_binding-domain k ((j, c) ∷ table) {b} (hc, h) e = elim (Bool-cases (str_eq j k)) [
  | inl hit ↦
      subst (λ (d : DomainBinding). d.domain ≡ domain_of d.agent) (some-injective c b (rw hit at e))
        hc
  | inr miss ↦ find_binding-domain k table h (rw miss at e)
]

-- Two categories of one agent have one domain.
pub binding_for-domain :
    (category : String) {b : DomainBinding}
    → binding_for category ≡ some b
    → b.domain ≡ domain_of b.agent
unfolding binding_for
binding_for-domain category h =
    find_binding-domain category category_bindings
      (refl, (refl, (refl, (refl, (refl, (refl, (refl, tt))))))) h
