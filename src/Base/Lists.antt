-- ===== src/Base/Lists.antt =====
-- Lists over the native numbers, and the predicates that the statements use.
use Prim.Native.Nat.{ℕ, zero, suc, ◌+◌, ◌≤◌}
use native.Mathlib.Nat.{zero-add, suc-add}
use auditcore.Base.Tests.{Bool-cases, ◌==◌, if◌then◌else◌}
use mathlib.Core.Path.{◌≡◌, refl, ap, sym, ◌∙◌}
use mathlib.Core.Logic.{◌⊎◌, inl, inr}
use mathlib.Core.Logic.Or
use mathlib.Core.Bool.{Bool, true, Bool-set, false, ◌||◌}
use mathlib.Core.List.{List, [], ◌∷◌, ◌++◌, map, reverse, reverse-cons, Mem, mem-cons, not-mem-nil}
use native.Mathlib.Omega.{arith}

module _ {ℓ} {A : Type ℓ} where
  abbrev pub length : List A → ℕ
  length [] = 0
  length (x ∷ xs) = suc (length xs)

  pub length-append : (xs ys : List A) → length (xs ++ ys) ≡ length xs + length ys
  length-append [] ys = omega arith
  length-append (x ∷ xs) ys = omega (arith, length-append xs ys)

  abbrev pub All {κ} : (A → Type κ) → List A → Type κ
  All P [] = Unit
  All P (x ∷ xs) = P x × All P xs

  pub All-append {κ} : (P : A → Type κ) (xs ys : List A) → All P xs → All P ys → All P (xs ++ ys)
  All-append P [] ys h k = k
  All-append P (x ∷ xs) ys (px, h) k = (px, All-append P xs ys h k)

  pub All-imp {κ λ'} :
      (P : A → Type κ) (Q : A → Type λ') (xs : List A) → ((x : A) → P x → Q x) → All P xs → All Q xs
  All-imp P Q [] f h = tt
  All-imp P Q (x ∷ xs) f (px, h) = (f x px, All-imp P Q xs f h)

  abbrev pub filter : (A → Bool) → List A → List A
  filter p [] = []
  filter p (x ∷ xs) = let rest = filter p xs in if p x then x ∷ rest else rest

-- `x in s` for a set or a list of numbers.
unfoldable pub contains : List ℕ → ℕ → Bool
contains [] a = false
contains (x ∷ xs) a = x == a || contains xs a

module _ {ℓ} {A : Type ℓ} where
  abbrev pub take : ℕ → List A → List A
  take zero xs = []
  take (suc n) [] = []
  take (suc n) (x ∷ xs) = x ∷ take n xs

  abbrev pub drop : ℕ → List A → List A
  drop zero xs = xs
  drop (suc n) [] = []
  drop (suc n) (x ∷ xs) = drop n xs

  pub take-append-drop : (n : ℕ) (xs : List A) → take n xs ++ drop n xs ≡ xs
  take-append-drop zero xs = refl
  take-append-drop (suc n) [] = refl
  take-append-drop (suc n) (x ∷ xs) = ap (λ (t : List A). x ∷ t) (take-append-drop n xs)

  drop-nil : (n : ℕ) → drop n [] ≡ []
  drop-nil zero = refl
  drop-nil (suc n) = refl

  pub drop-drop : (n m : ℕ) (xs : List A) → drop m (drop n xs) ≡ drop (n + m) xs
  drop-drop zero m xs = rw zero-add
  drop-drop (suc n) m [] = drop-nil m ∙ sym (drop-nil (suc n + m))
  drop-drop (suc n) m (x ∷ xs) = rw suc-add (drop-drop n m xs)

  pub All-take {κ} : (P : A → Type κ) (n : ℕ) (xs : List A) → All P xs → All P (take n xs)
  All-take P zero xs h = tt
  All-take P (suc n) [] h = tt
  All-take P (suc n) (x ∷ xs) (px, h) = (px, All-take P n xs h)

  pub All-drop {κ} : (P : A → Type κ) (n : ℕ) (xs : List A) → All P xs → All P (drop n xs)
  All-drop P zero xs h = h
  All-drop P (suc n) [] h = tt
  All-drop P (suc n) (x ∷ xs) (px, h) = All-drop P n xs h

  pub filter-append :
      (p : A → Bool) (xs ys : List A) → filter p (xs ++ ys) ≡ filter p xs ++ filter p ys
  filter-append p [] ys = refl
  filter-append p (x ∷ xs) ys = ground (arith, filter-append p xs ys)

  pub All-reverse {κ} : (P : A → Type κ) (xs : List A) → All P xs → All P (reverse xs)
  All-reverse P [] h = tt
  All-reverse P (x ∷ xs) (px, h) =
      rw reverse-cons (All-append P (reverse xs) (x ∷ []) (All-reverse P xs h) (px, tt))

contains-cons :
    (x a : ℕ) (xs : List ℕ) → contains (x ∷ xs) a ≡ true → (a ≡ x) ⊎ (contains xs a ≡ true)
unfolding contains
contains-cons x a xs h = ground arith

contains-cons_old : (x a : ℕ) (xs : List ℕ) → contains xs a ≡ true → contains (x ∷ xs) a ≡ true
unfolding contains
contains-cons_old x a xs h = ground arith

contains-cons_self : (x a : ℕ) (xs : List ℕ) → a ≡ x → contains (x ∷ xs) a ≡ true
unfolding contains
contains-cons_self x a xs h = ground arith

-- The Boolean test is membership.
pub contains→Mem : (xs : List ℕ) (a : ℕ) → contains xs a ≡ true → Mem a xs
unfolding contains
contains→Mem [] a h = cc
contains→Mem (x ∷ xs) a h = elim (contains-cons x a xs h) [
  | inl e ↦ mem-cons.1 (Or.inl e)
  | inr m ↦ mem-cons.1 (Or.inr (contains→Mem xs a m))
]

pub Mem→contains : (xs : List ℕ) (a : ℕ) → Mem a xs → contains xs a ≡ true
Mem→contains [] a m = absurd (not-mem-nil m)
Mem→contains (x ∷ xs) a m =
    Or.elim (Bool-set _ _) (mem-cons.0 m) (contains-cons_self x a xs)
      (λ m'. contains-cons_old x a xs (Mem→contains xs a m'))

module _ {ℓ κ} {A : Type ℓ} {B : Type κ} where
  pub length-map : (f : A → B) (xs : List A) → length (map f xs) ≡ length xs
  length-map f [] = refl
  length-map f (x ∷ xs) = ap suc (length-map f xs)

  pub length-filter-map :
      (p : B → Bool) (f : A → B) (xs : List A)
      → length (filter p (map f xs)) ≡ length (filter (λ x. p (f x)) xs)
  length-filter-map p f [] = refl
  length-filter-map p f (x ∷ xs) = elim (Bool-cases (p (f x))) [
    | inl e ↦ rw e (ap suc (length-filter-map p f xs))
    | inr e ↦ rw e (length-filter-map p f xs)
  ]

module _ {ℓ} {A : Type ℓ} where
  -- A stronger test passes at most as many.
  pub length-filter_imp :
      (p q : A → Bool) (xs : List A)
      → ((x : A) → p x ≡ true → q x ≡ true)
      → length (filter p xs) ≤ length (filter q xs)
  length-filter_imp p q [] imp = omega arith
  length-filter_imp p q (x ∷ xs) imp = elim (Bool-cases (p x)) [
    | inl e ↦ rw (e, imp x e) (omega (arith, length-filter_imp p q xs imp))
    | inr e ↦ elim (Bool-cases (q x)) [
      | inl f ↦ rw (e, f) (omega (arith, length-filter_imp p q xs imp))
      | inr f ↦ rw (e, f) (length-filter_imp p q xs imp)
    ]
  ]

module _ {ℓ κ μ} {A : Type ℓ} {B : Type κ} where
  pub All-map :
      (P : B → Type μ) (f : A → B) (xs : List A) → All (λ x. P (f x)) xs → All P (map f xs)
  All-map P f [] h = tt
  All-map P f (x ∷ xs) (px, h) = (px, All-map P f xs h)

module _ {ℓ κ} {A : Type ℓ} {B : Type κ} (key : A → B) (p q : A → Bool)
    (imp : (x : A) → p x ≡ true → q x ≡ true) where
  -- What passes the stronger test is among what passes the weaker one.
  pub filter-Mem_imp : (xs : List A) → All (λ x. Mem (key x) (map key (filter q xs))) (filter p xs)
  filter-Mem_imp [] = tt
  filter-Mem_imp (x ∷ xs) = elim (Bool-cases (p x)) [
    | inl e ↦ rw e (here (imp x e), All-imp _ _ (filter p xs) later (filter-Mem_imp xs))
    | inr e ↦ rw e (All-imp _ _ (filter p xs) later (filter-Mem_imp xs))
  ]
    where
      here : q x ≡ true → Mem (key x) (map key (filter q (x ∷ xs)))
      here e = rw e (mem-cons.1 (Or.inl refl))

      later :
          (y : A) → Mem (key y) (map key (filter q xs)) → Mem (key y) (map key (filter q (x ∷ xs)))
      later y m = elim (Bool-cases (q x)) [ inl e ↦ rw e (mem-cons.1 (Or.inr m)) | inr e ↦ rw e m ]
