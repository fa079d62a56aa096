-- ===== src/Orchestrator/Runner/Grouping/Partition.antt =====
-- runner.py: the groups of a run against the categories that each agent describes.
use auditcore.Base.{
  ◌≡◌, refl, sym, ap, ◌∙◌, ◌⊎◌, inl, inr, String, Option, none, some, List, [], ◌∷◌, ◌++◌, Bool,
  true, false, str_eq, eq_iff, All, All-append, filter, map, Bool-cases, arith, if◌then◌else◌,
}
use mathlib.Core.Path.{subst}
use mathlib.Core.List.{append-nil, append_assoc}
use auditcore.Base.Text.{Text}
use auditcore.Base.Json.{Runtime}
use auditcore.Orchestrator.Domains.{DomainBinding, binding_for, binding_for-domain, domain_of}
use auditcore.Orchestrator.Runner.Grouping.{Group, add_category, unbound, place, group_categories}

-- The category is described by the group's agent, as the group's domain.
abbrev pub BoundTo : Group → String → Type 0
BoundTo g category = binding_for category ≡ some (record { domain = g.domain; agent = g.agent })

-- No agent has two groups.
abbrev pub Distinct : List Group → Type 0
Distinct [] = Unit
Distinct (g ∷ gs) = All (λ h. str_eq h.agent g.agent ≡ false) gs × Distinct gs

-- The categories of an agent's groups.
abbrev pub listed : String → List Group → List String
listed agent [] = []
listed agent (g ∷ gs) =
    let rest = listed agent gs in if str_eq g.agent agent then g.categories ++ rest else rest

abbrev pub is_bound_to : String → Option DomainBinding → Bool
is_bound_to agent none = false
is_bound_to agent (some b) = str_eq b.agent agent

abbrev pub is_unbound : Option DomainBinding → Bool
is_unbound none = true
is_unbound (some b) = false

-- A group holds what it should.
abbrev pub IsGroup : Group → Type 0
IsGroup g = All (BoundTo g) g.categories × (g.domain ≡ domain_of g.agent)

add_category-IsGroup :
    (b : DomainBinding) (category : String) (gs : List Group)
    → binding_for category ≡ some b
    → All IsGroup gs
    → All IsGroup (add_category b category gs)
unfolding add_category
add_category-IsGroup b category [] e h = (((e, tt), binding_for-domain category e), tt)
add_category-IsGroup b category (g ∷ gs) e (hg, h) = elim (Bool-cases (str_eq g.agent b.agent)) [
  | inl same ↦
      rw same ((All-append (BoundTo g) g.categories (category ∷ []) hg.0 (bound same, tt), hg.1), h)
  | inr other ↦ rw other (hg, add_category-IsGroup b category gs e h)
]
  where
    bound : str_eq g.agent b.agent ≡ true → BoundTo g category
    bound same = e ∙ ap some (λ i. record { domain = sym domains i; agent = sym agents i })
      where
        agents : g.agent ≡ b.agent
        agents = (eq_iff g.agent b.agent).0 same

        domains : g.domain ≡ b.domain
        domains = hg.1 ∙ ap domain_of agents ∙ sym (binding_for-domain category e)

add_category-fresh :
    (a : String) (b : DomainBinding) (category : String) (gs : List Group)
    → str_eq b.agent a ≡ false
    → All (λ h. str_eq h.agent a ≡ false) gs
    → All (λ h. str_eq h.agent a ≡ false) (add_category b category gs)
unfolding add_category
add_category-fresh a b category [] n h = (n, tt)
add_category-fresh a b category (g ∷ gs) n (hg, h) = elim (Bool-cases (str_eq g.agent b.agent)) [
  | inl same ↦ rw same (hg, h)
  | inr other ↦ rw other (hg, add_category-fresh a b category gs n h)
]

str_eq-false_comm : (s t : String) → str_eq s t ≡ false → str_eq t s ≡ false
str_eq-false_comm s t h = ground (arith, eq_iff s t, eq_iff t s)

add_category-Distinct :
    (b : DomainBinding) (category : String) (gs : List Group)
    → Distinct gs
    → Distinct (add_category b category gs)
unfolding add_category
add_category-Distinct b category [] h = (tt, tt)
add_category-Distinct b category (g ∷ gs) (hg, h) = elim (Bool-cases (str_eq g.agent b.agent)) [
  | inl same ↦ rw same (hg, h)
  | inr other ↦ rw other (
    add_category-fresh g.agent b category gs (str_eq-false_comm g.agent b.agent other) hg,
    add_category-Distinct b category gs h,
  )
]

listed-absent :
    (agent : String) (gs : List Group)
    → All (λ h. str_eq h.agent agent ≡ false) gs
    → listed agent gs ≡ []
listed-absent agent [] h = refl
listed-absent agent (g ∷ gs) (hg, h) = rw hg (listed-absent agent gs h)

listed-add_category :
    (agent : String) (b : DomainBinding) (category : String) (gs : List Group)
    → Distinct gs
    → listed agent (add_category b category gs)
      ≡ listed agent gs ++ (if str_eq b.agent agent then category ∷ [] else [])
unfolding add_category
listed-add_category agent b category [] h = refl
listed-add_category agent b category (g ∷ gs) (hg, h) = elim (Bool-cases (str_eq g.agent b.agent)) [
  | inl same ↦
      rw same (at_hit ((eq_iff g.agent b.agent).0 same) (Bool-cases (str_eq b.agent agent)))
  | inr other ↦ rw other (
      rw (listed-add_category agent b category gs h) (
        ground (
          arith,
          append_assoc g.categories (listed agent gs)
              (if str_eq b.agent agent then category ∷ [] else []),
        )))
]
  where
    absent : g.agent ≡ agent → listed agent gs ≡ []
    absent p =
        listed-absent agent gs
          (subst (λ (a : String). All (λ h'. str_eq h'.agent a ≡ false) gs) p hg)

    at_hit :
        g.agent ≡ b.agent
        → (str_eq b.agent agent ≡ true) ⊎ (str_eq b.agent agent ≡ false)
        → listed agent (record g { categories = g.categories ++ category ∷ [] } ∷ gs)
          ≡ listed agent (g ∷ gs) ++ (if str_eq b.agent agent then category ∷ [] else [])
    at_hit e (inl hit) = rw (e, hit) (simp (absent (e ∙ (eq_iff b.agent agent).0 hit), append-nil))
    at_hit e (inr miss) = rw (e, miss) (sym (append-nil (listed agent gs)))

module _ (rt : Runtime) where
  -- A turn of the loop keeps the groups right.
  place-Distinct :
      (category : String) (o : Option DomainBinding) (kept : List Group × List Text)
      → Distinct kept.0
      → Distinct (place rt category o kept).0
  unfolding place
  place-Distinct category none kept h = h
  place-Distinct category (some b) kept h = add_category-Distinct b category kept.0 h

  place-IsGroup :
      (category : String) (o : Option DomainBinding) (kept : List Group × List Text)
      → binding_for category ≡ o
      → All IsGroup kept.0
      → All IsGroup (place rt category o kept).0
  unfolding place
  place-IsGroup category none kept e h = h
  place-IsGroup category (some b) kept e h = add_category-IsGroup b category kept.0 e h

  listed-place :
      (agent category : String) (o : Option DomainBinding) (kept : List Group × List Text)
      → Distinct kept.0
      → listed agent (place rt category o kept).0
        ≡ listed agent kept.0 ++ (if is_bound_to agent o then category ∷ [] else [])
  unfolding place
  listed-place agent category none kept h = sym (append-nil (listed agent kept.0))
  listed-place agent category (some b) kept h = listed-add_category agent b category kept.0 h

  -- No agent has two groups, so no agent runs twice.
  pub group_categories-Distinct :
      (categories : List String) (kept : List Group × List Text)
      → Distinct kept.0
      → Distinct (group_categories rt categories kept).0
  unfolding group_categories
  group_categories-Distinct [] kept h = h
  group_categories-Distinct (c ∷ cs) kept h =
      group_categories-Distinct cs (place rt c (binding_for c) kept)
        (place-Distinct c (binding_for c) kept h)

  pub group_categories-IsGroup :
      (categories : List String) (kept : List Group × List Text)
      → All IsGroup kept.0
      → All IsGroup (group_categories rt categories kept).0
  unfolding group_categories
  group_categories-IsGroup [] kept h = h
  group_categories-IsGroup (c ∷ cs) kept h =
      group_categories-IsGroup cs (place rt c (binding_for c) kept)
        (place-IsGroup c (binding_for c) kept refl h)

  listed-group_categories_onto :
      (agent : String) (categories : List String) (kept : List Group × List Text)
      → Distinct kept.0
      → listed agent (group_categories rt categories kept).0
        ≡ listed agent kept.0 ++ filter (λ c. is_bound_to agent (binding_for c)) categories
  unfolding group_categories
  listed-group_categories_onto agent [] kept h = sym (append-nil (listed agent kept.0))
  listed-group_categories_onto agent (c ∷ cs) kept h =
      listed-group_categories_onto agent cs (place rt c (binding_for c) kept)
        (place-Distinct c (binding_for c) kept h)
      ∙ rw (listed-place agent c (binding_for c) kept h) (
          ground (
            arith,
            append_assoc (listed agent kept.0) (c ∷ [])
                (filter (λ d. is_bound_to agent (binding_for d)) cs),
            append-nil (listed agent kept.0),
          ))

  drops-place :
      (category : String) (o : Option DomainBinding) (kept : List Group × List Text)
      → (place rt category o kept).1
        ≡ kept.1 ++ (if is_unbound o then unbound rt category ∷ [] else [])
  unfolding place
  drops-place category none kept = refl
  drops-place category (some b) kept = sym (append-nil kept.1)

  drops-group_categories_onto :
      (categories : List String) (kept : List Group × List Text)
      → (group_categories rt categories kept).1
        ≡ kept.1 ++ map (unbound rt) (filter (λ c. is_unbound (binding_for c)) categories)
  unfolding group_categories
  drops-group_categories_onto [] kept = sym (append-nil kept.1)
  drops-group_categories_onto (c ∷ cs) kept =
      drops-group_categories_onto cs (place rt c (binding_for c) kept)
      ∙ rw (drops-place c (binding_for c) kept) (
          ground (
            arith,
            append_assoc kept.1 (unbound rt c ∷ [])
                (map (unbound rt) (filter (λ d. is_unbound (binding_for d)) cs)),
            append-nil kept.1,
          ))

  -- Of the groups of a run, no agent has two; each holds only categories that are bound to its agent
  -- and its domain; the groups of any agent list exactly the categories bound to it, in their
  -- order; and the categories without an agent are reported, each, in their order.
  pub group_categories_partition :
      (categories : List String) (agent : String)
      → let r : List Group × List Text = group_categories rt categories ([], []) in
        Distinct r.0
        × All IsGroup r.0
        × (listed agent r.0 ≡ filter (λ c. is_bound_to agent (binding_for c)) categories)
        × (r.1 ≡ map (unbound rt) (filter (λ c. is_unbound (binding_for c)) categories))
  group_categories_partition categories agent = (
    group_categories-Distinct categories ([], []) tt,
    group_categories-IsGroup categories ([], []) tt,
    listed-group_categories_onto agent categories ([], []) tt,
    drops-group_categories_onto categories ([], []),
  )
