-- ===== src/Ingestion/Bundle/Paths.antt =====
-- bundle.py: the paths that pass its check, and where they lead.
use auditcore.Base.{
  ◌≡◌, refl, sym, ap, ◌∙◌, inl, inr, Bool-cases, List, [], ◌∷◌, ◌++◌, Bool, true, false, ◌||◌, ◌==◌,
  if◌then◌else◌,
}
use mathlib.Core.List.{append_assoc}
use auditcore.Base.Text.{Text, codes, text_eq, starts_with}
use auditcore.Ingestion.Bundle.{has_parent_part, is_unsafe}

-- The parts of a path; `part` is what stands before `name` in its part.
parts : Text → Text → List Text
parts part [] = part ∷ []
parts part (c ∷ s) =
    let next = part ∷ parts [] s in
    let longer = parts (part ++ c ∷ []) s in if c == b'/' then next else longer

parent : List Text → List Text
parent [] = []
parent (d ∷ ds) = ds

-- The directory that a part leads to: a directory is its names, the innermost first.
enter : List Text → Text → List Text
unfolding parent text_eq codes
enter dir part =
    if text_eq part [] || text_eq part (codes ".")
    then dir
    else if text_eq part (codes "..")
    then parent dir
    else part ∷ dir

walk : List Text → List Text → List Text
walk dir [] = dir
walk dir (part ∷ rest) = walk (enter dir part) rest

is_absolute : Text → Bool
is_absolute [] = false
is_absolute (c ∷ s) = c == b'/'

-- Where a path leads from a directory, as a file system follows it.
unfoldable pub resolve : List Text → Text → List Text
unfolding walk parts is_absolute enter
resolve dir name = if is_absolute name then walk [] (parts [] name) else walk dir (parts [] name)

-- A directory is `dir` or below it.
pub record IsBelow (dir path : List Text) : Type 0 where
  pub inner : List Text
  pub under : path ≡ inner ++ dir

IsBelow-self : (dir : List Text) → IsBelow dir dir
IsBelow-self dir = record { inner = []; under = refl }

IsBelow-trans : (a b c : List Text) → IsBelow a b → IsBelow b c → IsBelow a c
IsBelow-trans a b c h k = record {
  inner = k.inner ++ h.inner;
  under =
      k.under
      ∙ (ap (λ (x : List Text). k.inner ++ x) h.under ∙ sym (append_assoc k.inner h.inner a));
}

enter-IsBelow :
    (dir : List Text) (part : Text)
    → text_eq part (codes "..") ≡ false
    → IsBelow dir (enter dir part)
unfolding enter
enter-IsBelow dir part h = elim (Bool-cases (text_eq part [] || text_eq part (codes "."))) [
  | inl e ↦ rw e (IsBelow-self dir)
  | inr e ↦ rw (e, h) (record { inner = part ∷ []; under = refl })
]

walk-IsBelow :
    (part name : Text) (dir : List Text)
    → has_parent_part part name ≡ false
    → IsBelow dir (walk dir (parts part name))
unfolding has_parent_part walk parts
walk-IsBelow part [] dir h = enter-IsBelow dir part h
walk-IsBelow part (c ∷ s) dir h = elim (Bool-cases (c == b'/')) [
  | inr e ↦ rw e (walk-IsBelow (part ++ c ∷ []) s dir (rw e at h))
  | inl e ↦ elim (Bool-cases (text_eq part (codes ".."))) [
    | inl up ↦ let wrong = (rw (e, up) at h) in cc
    | inr down ↦ rw e (
        IsBelow-trans dir (enter dir part) (walk (enter dir part) (parts [] s))
          (enter-IsBelow dir part down) (walk-IsBelow [] s (enter dir part) (rw (e, down) at h)))
  ]
]

or-false : (a b : Bool) → a || b ≡ false → (a ≡ false) × (b ≡ false)
or-false true b h = cc
or-false false b h = (refl, h)

starts_with-absolute :
    (name : Text) → starts_with name (codes "/") ≡ false → is_absolute name ≡ false
unfolding starts_with codes is_absolute
starts_with-absolute [] h = refl
starts_with-absolute (c ∷ s) h = elim (Bool-cases (c == b'/')) [
  | inl e ↦ let wrong = (rw e at h) in cc
  | inr e ↦ e
]

-- A path that passes leads below the directory that it starts from.
pub is_unsafe-IsBelow :
    (name : Text) → is_unsafe name ≡ false → (dir : List Text) → IsBelow dir (resolve dir name)
unfolding is_unsafe resolve
is_unsafe-IsBelow name h dir =
    let (relative, inside) = or-false (starts_with name (codes "/")) (has_parent_part [] name) h in
    rw (starts_with-absolute name relative) (walk-IsBelow [] name dir inside)
