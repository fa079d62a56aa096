-- ===== src/Base/Chars.antt =====
-- A text as the native string that it is, if it has one: UTF-8 has no lone surrogates.
use Prim.Native.Nat.{ℕ, compare, Ordering}
use Prim.Native.Char.{Char, char, IsScalar}
use Prim.Native.String.{String}
use mathlib.Core.Path.{◌≡◌, refl}
use mathlib.Core.Option.{Option, none, some}
use mathlib.Core.List.{[], ◌∷◌}
use auditcore.Base.Text.{Text, codes}

low-IsScalar : (n : ℕ) → compare n 55296 ≡ Ordering.lt → IsScalar n
low-IsScalar n e = rw e tt

high-IsScalar :
    (n : ℕ) (o : Ordering)
    → compare n 55296 ≡ o
    → compare 57343 n ≡ Ordering.lt
    → compare n 1114112 ≡ Ordering.lt
    → IsScalar n
high-IsScalar n Ordering.lt e p q = rw e tt
high-IsScalar n Ordering.eq e p q = rw (e, p, q) tt
high-IsScalar n Ordering.gt e p q = rw (e, p, q) tt

char_by :
    (n : ℕ) (a b c : Ordering)
    → compare n 55296 ≡ a
    → compare 57343 n ≡ b
    → compare n 1114112 ≡ c
    → Option Char
char_by n Ordering.lt b c p q r = some (char n (low-IsScalar n p))
char_by n Ordering.eq Ordering.lt Ordering.lt p q r = some (char n (high-IsScalar n _ p q r))
char_by n Ordering.gt Ordering.lt Ordering.lt p q r = some (char n (high-IsScalar n _ p q r))
char_by n _ _ _ p q r = none

-- `chr(n)`, unless it is a surrogate
char_of : ℕ → Option Char
unfolding char_by
char_of n = char_by n (compare n 55296) (compare 57343 n) (compare n 1114112) refl refl refl

cons_char : Option Char → Option String → Option String
cons_char (some c) (some s) = some (String.◌∷◌ c s)
cons_char _ _ = none

unfoldable pub to_string : Text → Option String
unfolding char_of cons_char low-IsScalar high-IsScalar
to_string [] = some String.[]
to_string (c ∷ s) = cons_char (char_of c) (to_string s)

to_string_test : to_string (codes "lshw é") ≡ some "lshw é"
unfolding to_string codes
to_string_test = refl

surrogate_test : to_string (55296 ∷ []) ≡ none
unfolding to_string
surrogate_test = refl
