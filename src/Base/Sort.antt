-- ===== src/Base/Sort.antt =====
-- `sorted` on texts: by code points, equal items in the order they came in.
use mathlib.Core.Bool.{Bool, true, false, ◌&&◌, ◌||◌}
use mathlib.Core.List.{List, [], ◌∷◌}
use mathlib.Core.Logic.{inl, inr}
use Prim.Native.Nat.{suc}
use mathlib.Core.Path.{◌≡◌, refl, ap, ◌∙◌}
use auditcore.Base.Lists.{All, length, filter}
use auditcore.Base.Tests.{Bool-cases, ltb, ◌==◌, if◌then◌else◌}
use auditcore.Base.Text.{Text}

unfoldable pub text_le : Text → Text → Bool
text_le [] t = true
text_le (c ∷ s) [] = false
text_le (c ∷ s) (d ∷ t) = ltb c d || (c == d && text_le s t)

module _ {ℓ} {A : Type ℓ} (le : A → A → Bool) where
  insert_sorted : A → List A → List A
  insert_sorted x [] = x ∷ []
  insert_sorted x (y ∷ ys) = if le x y then x ∷ y ∷ ys else y ∷ insert_sorted x ys

  -- A stable sort, as `sorted` is.
  unfoldable pub sorted : List A → List A
  unfolding insert_sorted
  sorted [] = []
  sorted (x ∷ xs) = insert_sorted x (sorted xs)

  insert_sorted-All {κ} :
      (P : A → Type κ) (x : A) (ys : List A) → P x → All P ys → All P (insert_sorted x ys)
  unfolding insert_sorted
  insert_sorted-All P x [] px h = (px, tt)
  insert_sorted-All P x (y ∷ ys) px (py, h) = elim (Bool-cases (le x y)) [
    | inl e ↦ rw e (px, (py, h))
    | inr e ↦ rw e (py, insert_sorted-All P x ys px h)
  ]

  pub sorted-All {κ} : (P : A → Type κ) (xs : List A) → All P xs → All P (sorted xs)
  unfolding sorted
  sorted-All P [] h = tt
  sorted-All P (x ∷ xs) (px, h) = insert_sorted-All P x (sorted xs) px (sorted-All P xs h)

  length-insert_sorted : (x : A) (ys : List A) → length (insert_sorted x ys) ≡ suc (length ys)
  unfolding insert_sorted
  length-insert_sorted x [] = refl
  length-insert_sorted x (y ∷ ys) = elim (Bool-cases (le x y)) [
    | inl e ↦ rw e refl
    | inr e ↦ rw e (ap suc (length-insert_sorted x ys))
  ]

  pub length-sorted : (xs : List A) → length (sorted xs) ≡ length xs
  unfolding sorted
  length-sorted [] = refl
  length-sorted (x ∷ xs) = length-insert_sorted x (sorted xs) ∙ ap suc (length-sorted xs)

  length-filter-insert_sorted :
      (p : A → Bool) (x : A) (ys : List A)
      → length (filter p (insert_sorted x ys)) ≡ length (filter p (x ∷ ys))
  unfolding insert_sorted
  length-filter-insert_sorted p x [] = refl
  length-filter-insert_sorted p x (y ∷ ys) = elim (Bool-cases (le x y)) [
    | inl e ↦ rw e refl
    | inr e ↦
        let more = length-filter-insert_sorted p x ys in
        elim (Bool-cases (p x)) [
          | inl a ↦ elim (Bool-cases (p y)) [
            | inl b ↦ rw (e, a, b) (ap suc (rw a at more))
            | inr b ↦ rw (e, a, b) (rw a at more)
          ]
          | inr a ↦ elim (Bool-cases (p y)) [
            | inl b ↦ rw (e, a, b) (ap suc (rw a at more))
            | inr b ↦ rw (e, a, b) (rw a at more)
          ]
        ]
  ]

  -- Sorting keeps the number of items that pass a test.
  pub length-filter-sorted :
      (p : A → Bool) (xs : List A) → length (filter p (sorted xs)) ≡ length (filter p xs)
  unfolding sorted
  length-filter-sorted p [] = refl
  length-filter-sorted p (x ∷ xs) =
      length-filter-insert_sorted p x (sorted xs) ∙ (elim (Bool-cases (p x)) [
        | inl e ↦ rw e (ap suc (length-filter-sorted p xs))
        | inr e ↦ rw e (length-filter-sorted p xs)
      ])
