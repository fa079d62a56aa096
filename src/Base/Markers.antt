-- ===== src/Base/Markers.antt =====
-- The regular expression `\[\[observation:([0-9a-fA-F-]{36})\]\]` of report.py and sections.py:
-- `findall` and `sub` over a text.
use auditcore.Base.Tests.{leb, ◌==◌, Option-cases, if◌then◌else◌}
use auditcore.Base.Lists.{length, take, drop, All}
use auditcore.Base.Text.{Text, codes, starts_with}
use Prim.Native.Nat.{ℕ, zero, suc}
use mathlib.Core.Path.{◌≡◌, refl, ap}
use mathlib.Core.Bool.{Bool, true, ◌&&◌, ◌||◌}
use mathlib.Core.Option.{Option, none, some}
use mathlib.Core.Logic.{inl, inr}
use mathlib.Core.List.{List, [], ◌∷◌, ◌++◌}

is_id_char : ℕ → Bool
is_id_char c =
    (leb b'0' c && leb c b'9')
    || (leb b'a' c && leb c b'f')
    || (leb b'A' c && leb c b'F')
    || c == b'-'

all_id_chars : Text → Bool
all_id_chars [] = true
all_id_chars (c ∷ s) = is_id_char c && all_id_chars s

-- `[[observation:` has 14 characters, the id 36.
is_marker : Text → Bool
unfolding is_id_char all_id_chars starts_with codes
is_marker s =
    starts_with s (codes "[[observation:")
    && (length (take 36 (drop 14 s)) == 36
        && (all_id_chars (take 36 (drop 14 s)) && starts_with (drop 50 s) (codes "]]")))

-- The id of the marker at the start of a text, if one stands there.
unfoldable pub marker_at : Text → Option Text
unfolding is_marker
marker_at s = if is_marker s then some (take 36 (drop 14 s)) else none

-- `findall`: `skip` counts what is left of a match.
find_from : ℕ → Text → List Text
find_from skip [] = []
find_from (suc skip) (c ∷ s) = find_from skip s
find_from zero (c ∷ s) = elim (marker_at (c ∷ s)) [
  | none ↦ find_from 0 s
  | some id ↦ id ∷ find_from 51 s
]

unfoldable pub findall : Text → List Text
unfolding find_from marker_at
findall s = find_from 0 s

-- `sub`, with a function of the id
unfoldable pub sub_from : (Text → Text) → ℕ → Text → Text
sub_from repl skip [] = []
sub_from repl (suc skip) (c ∷ s) = sub_from repl skip s
sub_from repl zero (c ∷ s) = elim (marker_at (c ∷ s)) [
  | none ↦ c ∷ sub_from repl 0 s
  | some id ↦ repl id ++ sub_from repl 51 s
]

unfoldable pub sub : (Text → Text) → Text → Text
unfolding sub_from marker_at
sub repl s = sub_from repl 0 s

sub_from-agree :
    (f g : Text → Text) (skip : ℕ) (s : Text)
    → All (λ id. f id ≡ g id) (find_from skip s)
    → sub_from f skip s ≡ sub_from g skip s
unfolding find_from sub_from
sub_from-agree f g skip [] h = refl
sub_from-agree f g (suc skip) (c ∷ s) h = sub_from-agree f g skip s h
sub_from-agree f g zero (c ∷ s) h = elim (Option-cases (marker_at (c ∷ s))) [
  | inl e ↦
      rw (e, sub_from) (ap (λ (t : Text). c ∷ t) (sub_from-agree f g 0 s (rw (e, find_from) at h)))
  | inr (id, e) ↦
      let h' : All (λ id. f id ≡ g id) (id ∷ find_from 51 s) = (rw (e, find_from) at h) in
      rw (e, sub_from) (λ i. h'.0 i ++ sub_from-agree f g 51 s h'.1 i)
]

-- The result depends on the replacements of the ids that are found.
pub sub-agree :
    (f g : Text → Text) (s : Text) → All (λ id. f id ≡ g id) (findall s) → sub f s ≡ sub g s
unfolding findall sub
sub-agree f g s h = sub_from-agree f g 0 s h

findall_test :
    findall (codes "x [[observation:00000000-0000-0000-0000-00000000000A]][[observation:1]] y")
    ≡ codes "00000000-0000-0000-0000-00000000000A" ∷ []
unfolding findall codes
findall_test = refl

sub_test :
    sub (λ id. codes "*") (codes "a[[observation:00000000-0000-0000-0000-00000000000a]]b")
    ≡ codes "a*b"
unfolding sub codes
sub_test = refl
