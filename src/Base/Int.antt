-- ===== src/Base/Int.antt =====
-- `int(v)` of a value.
use Prim.Native.Nat.{ℕ, zero, suc, ◌+◌, ◌-◌, ◌*◌, ◌/◌, ◌^◌}
use mathlib.Core.Path.{◌≡◌, refl}
use mathlib.Core.Bool.{Bool, true, false, ◌&&◌, not}
use mathlib.Core.Option.{Option, none, some}
use mathlib.Core.List.{[], ◌∷◌}
use auditcore.Base.Tests.{leb, ◌==◌, if◌then◌else◌}
use auditcore.Base.Text.{Text, codes}
use auditcore.Base.Error.{Result, ok, raised, type_error, value_error, overflow_error}
use auditcore.Base.Uuid.{strip, is_space}
use auditcore.Base.Json.{Value, bool, int, float, str, ℤ, pos, negsuc, finite, infinite, nan}

-- -n, and n itself
signed : Bool → ℕ → ℤ
signed false n = pos n
signed true zero = pos 0
signed true (suc n) = negsuc n

-- Decimal digits, with single underscores between them. `pending` is true where one has to follow.
digits_from : ℕ → Bool → Text → Option ℕ
digits_from acc true [] = none
digits_from acc false [] = some acc
digits_from acc pending (c ∷ s) =
    let next = digits_from (acc * 10 + (c - 48)) false s in
    let gap = digits_from acc true s in
    if leb 48 c && leb c 57 then next else if c == b'_' && not pending then gap else none

with_sign : Bool → Option ℕ → Result ℤ
unfolding signed
with_sign minus none = raised value_error
with_sign minus (some n) = ok (signed minus n)

int_text : Text → Result ℤ
unfolding with_sign digits_from
int_text [] = raised value_error
int_text (c ∷ s) =
    if c == b'+'
    then with_sign false (digits_from 0 true s)
    else if c == b'-'
    then with_sign true (digits_from 0 true s)
    else with_sign false (digits_from 0 true (c ∷ s))

unfoldable pub int_of : Value → Result ℤ
unfolding int_text signed strip is_space
int_of (int z) = ok z
int_of (bool true) = ok (pos 1)
int_of (bool false) = ok (pos 0)
int_of (float (finite m e s)) = ok (signed s (m * 2 ^ e / 2 ^ 1074))
int_of (float (infinite s)) = raised overflow_error
int_of (float nan) = raised value_error
int_of (str s) = int_text (strip is_space s)
int_of _ = raised type_error

int_of_test : int_of (str (codes " -1_0 ")) ≡ ok (negsuc 9)
unfolding int_of codes
int_of_test = refl
