-- ===== src/Base/Error.antt =====
-- Python's exceptions as values. The messages of the built-in ones are not modelled.
use auditcore.Base.Text.{Text}
use Prim.Native.Nat.{ℕ}
use mathlib.Core.Path.{◌≡◌, refl, ap, subst}

pub data PyError : Type 0 where
  key_error attribute_error type_error value_error overflow_error : PyError
  -- raised by the code under src/, with its message
  agent_spec_error routing_error bundle_error runtime_error lookup_error : Text → PyError
  -- HTTPException: a status and what it says
  http_error : ℕ → Text → PyError
  -- raised by a service or a package
  foreign : ℕ → PyError

pub data Result {ℓ} (A : Type ℓ) : Type ℓ where
  ok : A → Result A
  raised : PyError → Result A

infixl 5 ◌>>=◌ ◌>>◌
abbrev pub ◌>>=◌ {ℓ κ} : {A : Type ℓ} {B : Type κ} → Result A → (A → Result B) → Result B
ok a >>= f = f a
raised e >>= f = raised e

-- Only the exception of the first action matters to the second.
abbrev pub ◌>>◌ {ℓ κ} : {A : Type ℓ} {B : Type κ} → Result A → Result B → Result B
first >> second = first >>= λ _. second

-- What holds of the value, if one is returned.
pub record OnOk {ℓ κ} {A : Type ℓ} (Q : A → Type κ) (r : Result A) : Type (ℓ ⊔ κ) where
  pub at : (a : A) → r ≡ ok a → Q a

pub ok-injective {ℓ} : {A : Type ℓ} {a b : A} → ok a ≡ ok b → a ≡ b
ok-injective {A} {a} e = ap (λ (r : Result A). elim r [ ok x ↦ x | raised x ↦ a ]) e

module _ {ℓ κ} {A : Type ℓ} {Q : A → Type κ} where
  pub OnOk-ok : (a : A) → Q a → OnOk Q (ok a)
  OnOk-ok a q = record { at = λ b e. subst Q (ok-injective e) q }

  pub OnOk-raised : (e : PyError) → OnOk Q (raised e)
  OnOk-raised e = record { at = λ b p. cc }

module _ {ℓ κ μ} {A : Type ℓ} {B : Type κ} {Q : B → Type μ} where
  pub OnOk-bind :
      (m : Result A) (f : A → Result B) → ((a : A) → m ≡ ok a → OnOk Q (f a)) → OnOk Q (m >>= f)
  OnOk-bind (ok a) f h = h a refl
  OnOk-bind (raised e) f h = OnOk-raised e

-- A block that returned: its first action returned too, and so did what follows it.
pub >>=-ok_parts {ℓ κ} :
    {B : Type κ} {A : Type ℓ} (next : A → Result B) (first : Result A) {b : B}
    → (first >>= next) ≡ ok b
    → (x : A) × (first ≡ ok x) × (next x ≡ ok b)
>>=-ok_parts next (raised e) returned = cc
>>=-ok_parts next (ok x) returned = (x, refl, returned)
