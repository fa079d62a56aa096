-- ===== src/Base/Exec.antt =====
-- Methods that change a state and may raise. What was done before a raise stays done, so the
-- state comes back beside the error too.
pub mod Ensures
pub mod Returns
use auditcore.Base.Error.{PyError, Result, ok, raised}

abbrev pub Exec {ℓ κ} : Type ℓ → Type κ → Type (ℓ ⊔ κ)
Exec S A = S → Result A × S

abbrev pub pure {ℓ κ} : {S : Type ℓ} {A : Type κ} → A → Exec S A
pure a s = (ok a, s)

abbrev pub raise {ℓ κ} : {S : Type ℓ} {A : Type κ} → PyError → Exec S A
raise e s = (raised e, s)

-- A pure computation that may raise.
abbrev pub lift {ℓ κ} : {S : Type ℓ} {A : Type κ} → Result A → Exec S A
lift r s = (r, s)

abbrev pub continue {ℓ κ λ'} :
    {S : Type ℓ} {A : Type κ} {B : Type λ'} → Result A → (A → Exec S B) → Exec S B
continue (ok a) f s = f a s
continue (raised e) f s = (raised e, s)

infixl 10 ◌>>=◌ ◌>>◌
unfoldable pub ◌>>=◌ {ℓ κ λ'} :
    {S : Type ℓ} {A : Type κ} {B : Type λ'} → Exec S A → (A → Exec S B) → Exec S B
◌>>=◌ m f s = let (r, s') = m s in continue r f s'

abbrev pub ◌>>◌ {ℓ κ λ'} : {S : Type ℓ} {A : Type κ} {B : Type λ'} → Exec S A → Exec S B → Exec S B
m >> n = m >>= λ _. n
