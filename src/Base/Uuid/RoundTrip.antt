-- ===== src/Base/Uuid/RoundTrip.antt =====
-- `UUID(str(u))`.
use Prim.Native.Nat.{ℕ, zero, suc, ◌+◌, ◌*◌, ◌/◌, ◌%◌, ◌^◌, ◌<◌, ◌≤◌}
use mathlib.Core.Path.{◌≡◌, refl, ap, sym, ◌∙◌}
use mathlib.Core.Logic.{◌≢◌, ◌⊎◌, inl, inr}
use native.Mathlib.Nat.{pow-suc}
use mathlib.Core.Bool.{Bool, true, false, not}
use mathlib.Core.Option.{some}
use mathlib.Core.List.{[], ◌∷◌, ◌++◌, reverse, reverse-reverse, append-nil, append_assoc}
use native.Mathlib.Omega.{arith}
use auditcore.Base.Tests.{◌==◌}
use auditcore.Base.Lists.{
  length, length-append, filter, take, drop, drop-drop, take-append-drop, filter-append, All,
  All-take, All-drop, All-reverse, All-imp, All-append,
}
use auditcore.Base.Text.{Text, codes, starts_with}
use auditcore.Base.Uuid.{
  Uuid, remove, remove_from, lstrip, strip, is_brace, is_space, hex_value, int_digits, after_prefix,
  signed, hex_part, parse_uuid, nibble, hex_digits, dashed, print_uuid,
}

-- A lower-case hexadecimal digit, or a dash.
abbrev IsHex : ℕ → Type 0
IsHex c = ((48 ≤ c) × (c ≤ 57)) ⊎ ((97 ≤ c) × (c ≤ 102))

abbrev IsDashedHex : ℕ → Type 0
IsDashedHex c = IsHex c ⊎ (c ≡ 45)

nibble-IsHex : (d : ℕ) → d < 16 → IsHex (nibble d)
unfolding nibble
nibble-IsHex d h = ground arith

hex_value-nibble : (d : ℕ) → d < 16 → hex_value (nibble d) ≡ some d
unfolding nibble hex_value
hex_value-nibble d h = ground arith

hex_digits-IsHex : (k u : ℕ) → All IsHex (hex_digits k u)
unfolding hex_digits
hex_digits-IsHex zero u = tt
hex_digits-IsHex (suc k) u =
    All-append IsHex (hex_digits k (u / 16)) _ (hex_digits-IsHex k (u / 16))
      (nibble-IsHex (u % 16) (omega arith), tt)

length-hex_digits : (k u : ℕ) → length (hex_digits k u) ≡ k
unfolding hex_digits
length-hex_digits zero u = refl
length-hex_digits (suc k) u = omega (
  arith,
  length-append (hex_digits k (u / 16)) (nibble (u % 16) ∷ []),
  length-hex_digits k (u / 16),
)

int_digits-nibble :
    (acc d : ℕ) (b : Bool) (t : Text)
    → d < 16
    → int_digits acc b (nibble d ∷ t) ≡ int_digits (acc * 16 + d) false t
unfolding int_digits
int_digits-nibble acc d b t h = rw (hex_value-nibble d h, int_digits)

-- The digits of a number below 16 ^ (k + 1) are read back as the number.
int_digits-hex_digits :
    (k acc u : ℕ) (b : Bool) (t : Text)
    → u < 16 ^ suc k
    → int_digits acc b (hex_digits (suc k) u ++ t) ≡ int_digits (acc * 16 ^ suc k + u) false t
unfolding hex_digits
int_digits-hex_digits zero acc u b t h =
    int_digits-nibble acc (u % 16) b t (omega arith)
    ∙ ap (λ (n : ℕ). int_digits n false t) (omega arith)
int_digits-hex_digits (suc k) acc u b t h =
    ap (int_digits acc b) (append_assoc (hex_digits (suc k) (u / 16)) (nibble (u % 16) ∷ []) t)
    ∙ int_digits-hex_digits k acc (u / 16) b (nibble (u % 16) ∷ t)
        (omega (arith, pow-suc 16 (suc k)))
    ∙ int_digits-nibble (acc * 16 ^ suc k + u / 16) (u % 16) false t (omega arith)
    ∙ ap (λ (n : ℕ). int_digits n false t)
        (omega (arith, ap (λ (p : ℕ). acc * p) (pow-suc 16 (suc k))))

remove_from_id : (d : ℕ) (p s : Text) → All (λ c. c ≢ d) s → remove_from (d ∷ p) 0 s ≡ s
unfolding remove_from starts_with
remove_from_id d p [] h = refl
remove_from_id d p (c ∷ s) (hc, h) = ground (arith, remove_from_id d p s h)

lstrip_id : (p : ℕ → Bool) (s : Text) → All (λ c. p c ≡ false) s → lstrip p s ≡ s
unfolding lstrip
lstrip_id p [] h = refl
lstrip_id p (c ∷ s) (hc, h) = rw hc

strip_id : (p : ℕ → Bool) (s : Text) → All (λ c. p c ≡ false) s → strip p s ≡ s
unfolding strip
strip_id p s h =
    rw (lstrip_id p s h, lstrip_id p (reverse s) (All-reverse _ s h)) (reverse-reverse s)

not_dash : ℕ → Bool
not_dash c = not (c == 45)

filter-not_dash : (s : Text) → All IsHex s → filter not_dash s ≡ s
unfolding not_dash
filter-not_dash [] h = refl
filter-not_dash (c ∷ s) (hc, h) = ground (arith, filter-not_dash s h)

filter-dash :
    (a b c : Text) → All IsHex a → filter not_dash b ≡ c → filter not_dash (a ++ 45 ∷ b) ≡ a ++ c
unfolding not_dash
filter-dash a b c h e = rw (filter-append, filter-not_dash a h, e)

-- Two groups side by side are one longer group.
group : (n : ℕ) (h : Text) → take 4 (drop n h) ++ drop (n + 4) h ≡ drop n h
group n h = rw (← drop-drop n 4 h) (take-append-drop 4 (drop n h))

filter-dashed : (h : Text) → All IsHex h → filter not_dash (dashed h) ≡ h
unfolding dashed
filter-dashed h a =
    filter-dash (take 8 h) _ _ (All-take IsHex 8 h a) (
      filter-dash (take 4 (drop 8 h)) _ _ (part 8) (
        filter-dash (take 4 (drop 12 h)) _ _ (part 12) (
          filter-dash (take 4 (drop 16 h)) _ _ (part 16)
            (filter-not_dash (drop 20 h) (All-drop IsHex 20 h a)))))
    ∙ rw (group 16 h, group 12 h, group 8 h) (take-append-drop 8 h)
  where
    part : (n : ℕ) → All IsHex (take 4 (drop n h))
    part n = All-take IsHex 4 (drop n h) (All-drop IsHex n h a)

All-dash : (a b : Text) → All IsHex a → All IsDashedHex b → All IsDashedHex (a ++ 45 ∷ b)
All-dash a b h k =
    All-append IsDashedHex a (45 ∷ b) (All-imp IsHex IsDashedHex a (λ c x. inl x) h) (inr refl, k)

dashed-IsDashedHex : (h : Text) → All IsHex h → All IsDashedHex (dashed h)
unfolding dashed
dashed-IsDashedHex h a = All-dash (take 8 h) _ (All-take IsHex 8 h a) (
    All-dash (take 4 (drop 8 h)) _ (part 8) (
      All-dash (take 4 (drop 12 h)) _ (part 12) (
        All-dash (take 4 (drop 16 h)) _ (part 16)
          (All-imp IsHex IsDashedHex (drop 20 h) (λ c x. inl x) (All-drop IsHex 20 h a)))))
  where
    part : (n : ℕ) → All IsHex (take 4 (drop n h))
    part n = All-take IsHex 4 (drop n h) (All-drop IsHex n h a)

no_u : (c : ℕ) → IsDashedHex c → c ≢ 117
no_u c h = ground arith

no_brace : (c : ℕ) → IsDashedHex c → is_brace c ≡ false
unfolding is_brace
no_brace c h = ground arith

no_space : (c : ℕ) → IsHex c → is_space c ≡ false
unfolding is_space
no_space c h = ground arith

hex_part-dashed : (h : Text) → All IsHex h → hex_part (dashed h) ≡ h
unfolding hex_part not_dash
hex_part-dashed h a =
    ap (λ (t : Text). filter not_dash (strip is_brace (remove (codes "uuid:") t)))
      (remove_from_id 117 (codes "rn:") (dashed h) (All-imp IsDashedHex _ (dashed h) no_u dh))
    ∙ ap (λ (t : Text). filter not_dash (strip is_brace t))
        (remove_from_id 117 (codes "uid:") (dashed h) (All-imp IsDashedHex _ (dashed h) no_u dh))
    ∙ ap (filter not_dash)
        (strip_id is_brace (dashed h) (All-imp IsDashedHex _ (dashed h) no_brace dh))
    ∙ filter-dashed h a
  where
    dh : All IsDashedHex (dashed h)
    dh = dashed-IsDashedHex h a

-- Text of digits alone has no sign and no prefix.
signed_hex : (s : Text) → All IsHex s → signed s ≡ int_digits 0 true s
unfolding signed after_prefix
signed_hex [] h = refl
signed_hex (c ∷ []) h = ground arith
signed_hex (c ∷ d ∷ s) (hc, (hd, h)) = ground arith

parse_digits :
    (s : Text) → length s ≡ 32 → All IsHex s → parse_uuid (dashed s) ≡ int_digits 0 true s
unfolding parse_uuid
parse_digits s n a =
    rw (hex_part-dashed s a, n)
      (ap signed (strip_id is_space s (All-imp IsHex _ s no_space a)) ∙ signed_hex s a)

int_digits-end : (n : ℕ) → int_digits n false [] ≡ some n
unfolding int_digits
int_digits-end n = refl

all_digits : (u : Uuid) → u < 16 ^ 32 → int_digits 0 true (hex_digits 32 u) ≡ some u
all_digits u h =
    ap (int_digits 0 true) (sym (append-nil (hex_digits 32 u)))
    ∙ int_digits-hex_digits 31 0 u true [] h
    ∙ ap (λ (n : ℕ). int_digits n false []) (omega arith)
    ∙ int_digits-end u

-- Every UUID is read back from the text that it prints as.
pub parse_uuid-print_uuid : (u : Uuid) → u < 2 ^ 128 → parse_uuid (print_uuid u) ≡ some u
parse_uuid-print_uuid u h =
    ap parse_uuid (print_uuid-dashed u)
    ∙ parse_digits (hex_digits 32 u) (length-hex_digits 32 u) (hex_digits-IsHex 32 u)
    ∙ all_digits u h
  where
    print_uuid-dashed : (v : Uuid) → print_uuid v ≡ dashed (hex_digits 32 v)
    print_uuid-dashed v = unfold print_uuid in refl
