-- ===== src/Base/Exec/Ensures.antt =====
-- Invariants and results of actions, one rule for each way to build an action.
use mathlib.Core.Path.{◌≡◌, refl}
use mathlib.Core.Bool.{Bool, true, false}
use auditcore.Base.Tests.{if◌then◌else◌}
use auditcore.Base.Error.{PyError, Result, ok, raised, OnOk, OnOk-ok, OnOk-raised}
use auditcore.Base.Exec.{Exec, pure, raise, lift, ◌>>=◌}

-- From a state with `P`, `m` ends in one with `P`, whether it returns or raises, and what it
-- returns has `Q`.
pub record Ensures {ℓ κ λ' μ} {S : Type ℓ} {A : Type κ} (P : S → Type λ') (m : Exec S A)
    (Q : A → Type μ) : Type (ℓ ⊔ κ ⊔ λ' ⊔ μ) where
  pub keeps : (s : S) → P s → P (m s).1
  pub gives : (s : S) → P s → OnOk Q (m s).0

module _ {ℓ κ λ'} {S : Type ℓ} {A : Type κ} {P : S → Type λ'} where
  pub Ensures-pure {μ} : {Q : A → Type μ} (a : A) → Q a → Ensures P (pure a) Q
  Ensures-pure a q = record { keeps = λ s h. h; gives = λ s h. OnOk-ok a q }

  pub Ensures-raise {μ} : {Q : A → Type μ} (e : PyError) → Ensures P (raise e) Q
  Ensures-raise e = record { keeps = λ s h. h; gives = λ s h. OnOk-raised e }

  pub Ensures-lift {μ} : {Q : A → Type μ} (r : Result A) → OnOk Q r → Ensures P (lift r) Q
  Ensures-lift r q = record { keeps = λ s h. h; gives = λ s h. q }

  pub Ensures-if {μ} :
      {Q : A → Type μ} (b : Bool) (m n : Exec S A)
      → (b ≡ true → Ensures P m Q)
      → (b ≡ false → Ensures P n Q)
      → Ensures P (if b then m else n) Q
  Ensures-if true m n hm hn = hm refl
  Ensures-if false m n hm hn = hn refl

-- The rule for a block: what the first action returns is handed on with its fact.
module _ {ℓ κ λ' μ ν ξ} {S : Type ℓ} {A : Type κ} {B : Type λ'} {P : S → Type μ} where
  pub Ensures-bind :
      {Q : A → Type ν} {R : B → Type ξ} (m : Exec S A) (f : A → Exec S B)
      → Ensures P m Q
      → ((a : A) → Q a → Ensures P (f a) R)
      → Ensures P (m >>= f) R
  unfolding ◌>>=◌
  Ensures-bind {Q} {R} m f hm hf = record {
    keeps = λ s h. let (r, s') = m s in after_keeps r s' (hm.keeps s h) (hm.gives s h);
    gives = λ s h. let (r, s') = m s in after_gives r s' (hm.keeps s h) (hm.gives s h);
  }
    where
      after_keeps : (r : Result A) (t : S) → P t → OnOk Q r → P ((lift r >>= f) t).1
      after_keeps (ok a) t p q = (hf a (q.at a refl)).keeps t p
      after_keeps (raised e) t p q = p

      after_gives : (r : Result A) (t : S) → P t → OnOk Q r → OnOk R ((lift r >>= f) t).0
      after_gives (ok a) t p q = (hf a (q.at a refl)).gives t p
      after_gives (raised e) t p q = OnOk-raised e
