-- ===== src/Base/Exec/Returns.antt =====
-- Runs that return: what each action of a block returned, and the states between them.
use mathlib.Core.Path.{◌≡◌, refl, ap, ◌∙◌}
use auditcore.Base.Error.{Result, ok, raised, ok-injective}
use auditcore.Base.Exec.{Exec, lift, continue, ◌>>=◌}

module _ {ℓ κ} {S : Type ℓ} {A : Type κ} where
  -- From `s` the action returns `a`, and leaves `s'`.
  abbrev pub Returns : Exec S A → S → A → S → Type (ℓ ⊔ κ)
  Returns m s a s' = m s ≡ (ok a, s')

  pub value_of : {a b : A} {s t : S} → Path (Result A × S) (ok a, s) (ok b, t) → a ≡ b
  value_of e = ok-injective (ap (λ (p : Result A × S). p.0) e)

  pub state_of : {r q : Result A} {s t : S} → Path (Result A × S) (r, s) (q, t) → s ≡ t
  state_of e = ap (λ (p : Result A × S). p.1) e

  pub outcome_of : {r q : Result A} {s t : S} → Path (Result A × S) (r, s) (q, t) → r ≡ q
  outcome_of e = ap (λ (p : Result A × S). p.0) e

  pub lift-Returns :
      (r : Result A) {s t : S} {a : A} → Returns (lift r) s a t → (r ≡ ok a) × (s ≡ t)
  lift-Returns r h = (outcome_of h, state_of h)

module _ {ℓ κ λ'} {S : Type ℓ} {A : Type κ} {B : Type λ'} where
  continue-parts :
      (f : A → Exec S B) (p : Result A × S) {b : B} {t : S}
      → continue p.0 f p.1 ≡ (ok b, t)
      → (a : A) × (u : S) × (p ≡ (ok a, u)) × (f a u ≡ (ok b, t))
  continue-parts f (ok a, u) h = (a, u, refl, h)
  continue-parts f (raised e, u) h = let wrong = outcome_of h in cc

  -- A block that returned: its first action returned, and what follows it did from there.
  pub Returns-parts :
      (m : Exec S A) (f : A → Exec S B) {s t : S} {b : B}
      → Returns (m >>= f) s b t
      → (a : A) × (u : S) × Returns m s a u × Returns (f a) u b t
  unfolding ◌>>=◌
  Returns-parts m f {s} h = continue-parts f (m s) h

  -- The same, as a rule for a goal.
  pub Returns-elim {μ} :
      {G : Type μ} (m : Exec S A) (f : A → Exec S B) (s t : S) {b : B}
      → Returns (m >>= f) s b t
      → ((a : A) (u : S) → Returns m s a u → Returns (f a) u b t → G)
      → G
  Returns-elim m f s t h goal =
      let (a, u, first, next) = Returns-parts m f {s = s} {t = t} h in goal a u first next

  -- Two actions that return make a block that does.
  pub Returns-then :
      (m : Exec S A) (f : A → Exec S B) {s u t : S} {a : A} {b : B}
      → Returns m s a u
      → Returns (f a) u b t
      → Returns (m >>= f) s b t
  unfolding ◌>>=◌
  Returns-then m f first next = ap (λ (p : Result A × S). continue p.0 f p.1) first ∙ next
