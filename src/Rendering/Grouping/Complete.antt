-- ===== src/Rendering/Grouping/Complete.antt =====
-- render.py: the grouping by domain shows every observation, under its domain.
use auditcore.Base.{
  ◌≡◌, refl, sym, ap, ◌∙◌, inl, inr, Bool-cases, String, Option, none, some, List, [], ◌∷◌, ◌++◌,
  Bool, true, false, ◌||◌, not, filter, if◌then◌else◌,
}
use mathlib.Core.List.{append_assoc, append-nil}
use auditcore.Base.Text.{Text, codes, text_eq, text_eq_iff}
use auditcore.Rendering.Grouping.{
  domain_order, is_labelled, or_text, add_to_domain, group_by_domain, in_domain, in_order,
  observations_by_domain,
}

text_eq-same : (j k d : Text) → text_eq j k ≡ true → text_eq k d ≡ text_eq j d
text_eq-same j k d h = ap (λ x. text_eq x d) (sym ((text_eq_iff j k).0 h))

text_eq-other : (j k d : Text) → text_eq j k ≡ false → text_eq j d ≡ true → text_eq k d ≡ false
text_eq-other j k d other same = elim (Bool-cases (text_eq k d)) [
  | inr e ↦ e
  | inl e ↦
      let wrong = (text_eq_iff j k).1 ((text_eq_iff j d).0 same ∙ sym ((text_eq_iff k d).0 e)) in cc
]

text_eq-sym_other : (j k d : Text) → text_eq j k ≡ false → text_eq k d ≡ true → text_eq j d ≡ false
text_eq-sym_other j k d other same = elim (Bool-cases (text_eq j d)) [
  | inr e ↦ e
  | inl e ↦
      let wrong = (text_eq_iff j k).1 ((text_eq_iff j d).0 e ∙ sym ((text_eq_iff k d).0 same)) in cc
]

module _ {A : Type 0} where
  -- The rows of the first group of a name.
  unfoldable pub find_group : Text → List (Text × List A) → Option (List A)
  find_group d [] = none
  find_group d ((j, rows) ∷ rest) = if text_eq j d then some rows else find_group d rest

  abbrev or_nil : Option (List A) → List A
  or_nil none = []
  or_nil (some rows) = rows

  -- What stands under a domain.
  abbrev pub under : Text → List (Text × List A) → List A
  under d groups = or_nil (find_group d groups)

  abbrev first_of : Option (List A) → Option (List A) → Option (List A)
  first_of none o = o
  first_of (some rows) o = some rows

  find_group-append :
      (d : Text) (xs ys : List (Text × List A))
      → find_group d (xs ++ ys) ≡ first_of (find_group d xs) (find_group d ys)
  unfolding find_group
  find_group-append d [] ys = refl
  find_group-append d ((j, rows) ∷ xs) ys = elim (Bool-cases (text_eq j d)) [
    | inl e ↦ rw e refl
    | inr e ↦ rw e (find_group-append d xs ys)
  ]

  find_group-filter :
      (d : Text) (ds : List Text) (g : List (Text × List A))
      → find_group d (filter (λ (j, rows). not (is_labelled j ds)) g)
        ≡ (if is_labelled d ds then none else find_group d g)
  unfolding find_group
  find_group-filter d ds [] = elim (Bool-cases (is_labelled d ds)) [
    | inl e ↦ rw e refl
    | inr e ↦ rw e refl
  ]
  find_group-filter d ds ((j, rows) ∷ g) = elim (Bool-cases (text_eq j d)) [
    | inl e ↦ elim (Bool-cases (is_labelled d ds)) [
      | inl l ↦ rw (alike e, l) (find_group-filter d ds g ∙ rw l refl)
      | inr l ↦ rw (alike e, l, e) refl
    ]
    | inr e ↦ elim (Bool-cases (is_labelled j ds)) [
      | inl l ↦ rw (l, e) (find_group-filter d ds g)
      | inr l ↦ rw (l, e) (find_group-filter d ds g)
    ]
  ]
    where
      alike : text_eq j d ≡ true → is_labelled j ds ≡ is_labelled d ds
      alike e = ap (λ x. is_labelled x ds) ((text_eq_iff j d).0 e)

module _ {A : Type 0} (column : A → String → Option Text) where
  abbrev pub domain_of : A → Text
  domain_of o = or_text (column o "domain") (codes "software")

  under-add_to_domain :
      (d k : Text) (o : A) (g : List (Text × List A))
      → under d (add_to_domain column k o g) ≡ under d g ++ (if text_eq k d then o ∷ [] else [])
  unfolding find_group add_to_domain
  under-add_to_domain d k o [] = elim (Bool-cases (text_eq k d)) [
    | inl e ↦ rw e refl
    | inr e ↦ rw e refl
  ]
  under-add_to_domain d k o ((j, rows) ∷ rest) = elim (Bool-cases (text_eq j k)) [
    | inl same ↦ rw (same, text_eq-same j k d same) (here same)
    | inr other ↦ elim (Bool-cases (text_eq j d)) [
      | inl e ↦ rw (other, e, text_eq-other j k d other e) (sym (append-nil rows))
      | inr e ↦ rw (other, e) (under-add_to_domain d k o rest)
    ]
  ]
    where
      here :
          text_eq j k ≡ true
          → under d ((j, rows ++ o ∷ []) ∷ rest)
            ≡ under d ((j, rows) ∷ rest) ++ (if text_eq j d then o ∷ [] else [])
      here same = elim (Bool-cases (text_eq j d)) [
        | inl e ↦ rw e refl
        | inr e ↦ rw e (sym (append-nil (under d rest)))
      ]

  under-group_by_domain :
      (d : Text) (obs : List A) (g : List (Text × List A))
      → under d (group_by_domain column obs g)
        ≡ under d g ++ filter (λ o. text_eq (domain_of o) d) obs
  unfolding group_by_domain
  under-group_by_domain d [] g = sym (append-nil (under d g))
  under-group_by_domain d (o ∷ obs) g =
      under-group_by_domain d obs (add_to_domain column (domain_of o) o g) ∙ joined
    where
      joined :
          under d (add_to_domain column (domain_of o) o g)
            ++ filter (λ o. text_eq (domain_of o) d) obs
          ≡ under d g ++ filter (λ o. text_eq (domain_of o) d) (o ∷ obs)
      joined = elim (Bool-cases (text_eq (domain_of o) d)) [
        | inl e ↦ rw (under-add_to_domain, e) (append_assoc (under d g) (o ∷ []) _)
        | inr e ↦ rw (under-add_to_domain, e, append-nil) refl
      ]

  find_group-in_domain :
      (d k : Text) (g : List (Text × List A))
      → find_group d (in_domain column k g) ≡ (if text_eq k d then find_group d g else none)
  unfolding find_group in_domain
  find_group-in_domain d k [] = elim (Bool-cases (text_eq k d)) [
    | inl e ↦ rw e refl
    | inr e ↦ rw e refl
  ]
  find_group-in_domain d k ((j, rows) ∷ g) = elim (Bool-cases (text_eq j k)) [
    | inl same ↦ rw (same, text_eq-same j k d same) (hit same)
    | inr other ↦ elim (Bool-cases (text_eq k d)) [
      | inl e ↦
          rw (other, e, text_eq-sym_other j k d other e) (find_group-in_domain d k g ∙ rw e refl)
      | inr e ↦ rw (other, e) (find_group-in_domain d k g ∙ rw e refl)
    ]
  ]
    where
      hit :
          text_eq j k ≡ true
          → find_group d ((j, rows) ∷ [])
            ≡ (if text_eq j d then find_group d ((j, rows) ∷ g) else none)
      hit same = elim (Bool-cases (text_eq j d)) [ inl e ↦ rw e refl | inr e ↦ rw e refl ]

  find_group-in_order :
      (d : Text) (ds : List Text) (g : List (Text × List A))
      → find_group d (in_order column ds g) ≡ (if is_labelled d ds then find_group d g else none)
  unfolding in_order is_labelled find_group
  find_group-in_order d [] g = refl
  find_group-in_order d (k ∷ ds) g =
      find_group-append d (in_domain column k g) (in_order column ds g)
      ∙ (ap (first_of (find_group d (in_domain column k g))) (find_group-in_order d ds g) ∙ joined)
    where
      first_of-self : (o : Option (List A)) (b : Bool) → first_of o (if b then o else none) ≡ o
      first_of-self none true = refl
      first_of-self none false = refl
      first_of-self (some rows) b = refl

      joined :
          first_of
            (find_group d (in_domain column k g))
            (if is_labelled d ds then find_group d g else none)
          ≡ (if text_eq k d || is_labelled d ds then find_group d g else none)
      joined = elim (Bool-cases (text_eq k d)) [
        | inl e ↦ rw (find_group-in_domain, e) (first_of-self (find_group d g) (is_labelled d ds))
        | inr e ↦ rw (find_group-in_domain, e) refl
      ]

  -- Under each domain, in the list that the template gets, stand exactly the observations of that
  -- domain, in their order; so no observation is left out, whatever its domain.
  pub observations_by_domain_complete :
      (observations : List A) (d : Text)
      → under d (observations_by_domain column observations)
        ≡ filter (λ o. text_eq (domain_of o) d) observations
  unfolding observations_by_domain find_group
  observations_by_domain_complete observations d =
      let g = group_by_domain column observations [] in
      ap or_nil (
        find_group-append d (in_order column domain_order g)
          (filter (λ (j, rows). not (is_labelled j domain_order)) g)
        ∙ one_of g)
      ∙ under-group_by_domain d observations []
    where
      one_of :
          (g : List (Text × List A))
          → first_of
              (find_group d (in_order column domain_order g))
              (find_group d (filter (λ (j, rows). not (is_labelled j domain_order)) g))
            ≡ find_group d g
      one_of g = elim (Bool-cases (is_labelled d domain_order)) [
        | inl e ↦
            rw (find_group-in_order d domain_order g, find_group-filter d domain_order g, e)
              (first_of-none (find_group d g))
        | inr e ↦
            rw (find_group-in_order d domain_order g, find_group-filter d domain_order g, e) refl
      ]
        where
          first_of-none : (o : Option (List A)) → first_of o none ≡ o
          first_of-none none = refl
          first_of-none (some rows) = refl
