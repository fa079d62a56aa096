-- ===== src/Base/Uuid.antt =====
-- `UUID(text)` and `str(uuid)` of Python's module uuid, over ASCII digits. A UUID is its 128-bit number.
pub mod RoundTrip
use Prim.Native.Nat.{ℕ, zero, suc, ◌+◌, ◌-◌, ◌*◌, ◌/◌, ◌%◌, ◌^◌}
use mathlib.Core.Path.{◌≡◌, refl}
use mathlib.Core.Bool.{Bool, true, false, ◌&&◌, ◌||◌, not}
use mathlib.Core.Option.{Option, none, some}
use mathlib.Core.List.{List, [], ◌∷◌, ◌++◌, reverse}
use auditcore.Base.Tests.{ltb, leb, ◌==◌, if◌then◌else◌}
use auditcore.Base.Lists.{length, filter, take, drop}
use auditcore.Base.Text.{Text, codes, starts_with}

abbrev pub Uuid : Type 0
Uuid = ℕ

-- `s.replace(p, "")`, from left to right. `skip` counts what is left of a match.
remove_from : Text → ℕ → Text → Text
remove_from p skip [] = []
remove_from p (suc skip) (c ∷ s) = remove_from p skip s
remove_from p zero (c ∷ s) =
    let hit = starts_with (c ∷ s) p in
    let rest = remove_from p (if hit then length p - 1 else 0) s in if hit then rest else c ∷ rest

remove : Text → Text → Text
unfolding remove_from
remove p s = remove_from p 0 s

-- `s.strip(…)` for a set of characters
unfoldable pub lstrip : (ℕ → Bool) → Text → Text
lstrip p [] = []
lstrip p (c ∷ s) = let rest = lstrip p s in if p c then rest else c ∷ s

unfoldable pub strip : (ℕ → Bool) → Text → Text
unfolding lstrip
strip p s = reverse (lstrip p (reverse (lstrip p s)))

is_brace : ℕ → Bool
is_brace c = c == b'{' || c == b'}'

-- The characters above ASCII that are space.
is_wide_space : ℕ → Bool
is_wide_space c =
    c == 133
    || c == 160
    || c == 5760
    || (leb 8192 c && leb c 8202)
    || c == 8232
    || c == 8233
    || c == 8239
    || c == 8287
    || c == 12288

-- The characters that `str.strip()`, `int()` and `\s` take for space.
unfoldable pub is_space : ℕ → Bool
unfolding is_wide_space
is_space c = (leb 9 c && leb c 13) || (leb 28 c && leb c 32) || is_wide_space c

hex_value : ℕ → Option ℕ
hex_value c =
    if leb 48 c && leb c 57
    then some (c - 48)
    else if leb 97 c && leb c 102
    then some (c - 87)
    else if leb 65 c && leb c 70
    then some (c - 55)
    else none

-- The digits of `int(s, 16)`, with single underscores between them. `open` is true where a digit
-- has to follow.
int_digits : ℕ → Bool → Text → Option ℕ
int_digits acc true [] = none
int_digits acc false [] = some acc
int_digits acc pending (c ∷ s) = elim (hex_value c) [
  | some d ↦ int_digits (acc * 16 + d) false s
  | none ↦ if c == b'_' && not pending then int_digits acc true s else none
]

-- `0x`, and the one underscore that may follow it
after_prefix : Text → Text
after_prefix (c ∷ d ∷ s) =
    if c == b'0' && (d == b'x' || d == b'X')
    then (elim s [ [] ↦ [] | e ∷ r ↦ if e == b'_' then r else e ∷ r ])
    else c ∷ d ∷ s
after_prefix s = s

unsigned : Text → Option ℕ
unfolding int_digits hex_value after_prefix
unsigned s = int_digits 0 true (after_prefix s)

-- A number below zero is out of the range of a UUID; `-0` is not.
signed : Text → Option ℕ
unfolding unsigned
signed [] = none
signed (c ∷ s) =
    if c == b'+'
    then unsigned s
    else if c == b'-'
    then (elim (unsigned s) [ some zero ↦ some 0 | _ ↦ none ])
    else unsigned (c ∷ s)

hex_part : Text → Text
unfolding remove strip is_brace codes starts_with
hex_part s =
    filter (λ c. not (c == b'-'))
      (strip is_brace (remove (codes "uuid:") (remove (codes "urn:") s)))

-- `UUID(s)`; `none` is a ValueError.
unfoldable pub parse_uuid : Text → Option Uuid
unfolding hex_part strip is_space signed
parse_uuid s =
    let hex = hex_part s in if length hex == 32 then signed (strip is_space hex) else none

-- `"%032x" % u`
nibble : ℕ → ℕ
nibble d = if ltb d 10 then 48 + d else 87 + d

hex_digits : ℕ → ℕ → Text
unfolding nibble
hex_digits zero u = []
hex_digits (suc k) u = hex_digits k (u / 16) ++ nibble (u % 16) ∷ []

-- `hex[:8]-hex[8:12]-hex[12:16]-hex[16:20]-hex[20:]`
dashed : Text → Text
dashed h =
    take 8 h
    ++ (b'-'
        ∷ (take 4 (drop 8 h)
            ++ (b'-'
                ∷ (take 4 (drop 12 h) ++ (b'-' ∷ (take 4 (drop 16 h) ++ (b'-' ∷ drop 20 h)))))))

-- `str(u)`
unfoldable pub print_uuid : Uuid → Text
unfolding hex_digits dashed
print_uuid u = dashed (hex_digits 32 u)

canonical : print_uuid 1 ≡ codes "00000000-0000-0000-0000-000000000001"
unfolding print_uuid codes
canonical = refl

parse_forms :
    (parse_uuid (codes "{00000000-0000-0000-0000-00000000001A}") ≡ some 26)
    × (parse_uuid (codes "urn:uuid:0000000000000000000000000000001a") ≡ some 26)
    × (parse_uuid (codes "0x0000000000000000000000000000_1a") ≡ none)
    × (parse_uuid (codes "0x000000000000000000000000000_1a") ≡ some 26)
    × (parse_uuid (codes "------------------------------------") ≡ none)
unfolding parse_uuid codes
parse_forms = (refl, refl, refl, refl, refl)
