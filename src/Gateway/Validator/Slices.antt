-- ===== src/Gateway/Validator/Slices.antt =====
-- validator.py: the parts of a text that are tried as JSON.
use auditcore.Base.{
  ℕ, ◌+◌, ◌-◌, ◌≡◌, refl, sym, ap, ◌∙◌, inl, inr, Bool-cases, Option-cases, Option, none, some, [],
  ◌∷◌, ◌++◌, Bool, ◌&&◌, drop, take, take-append-drop, ◌==◌,
}
use mathlib.Core.List.{append_assoc, append-nil, reverse, reverse-append, reverse-reverse}
use mathlib.Core.Option.{some-injective}
use mathlib.Core.Path.{subst}
use auditcore.Base.Text.{Text, codes, starts_with}
use auditcore.Base.Uuid.{strip, lstrip, is_space}
use auditcore.Gateway.Validator.{
  prepend, until_fence, fenced, fence_at, search_fence, from_opener, balanced,
}

-- `t` stands in `text`, without a gap.
pub record IsSlice (t text : Text) : Type 0 where
  pub before : Text
  pub after : Text
  pub there : text ≡ before ++ (t ++ after)

pub IsSlice-self : (t : Text) → IsSlice t t
IsSlice-self t = record { before = []; after = []; there = sym (append-nil t) }

IsSlice-behind : (pre t text : Text) → IsSlice t text → IsSlice t (pre ++ text)
IsSlice-behind pre t text h = record {
  before = pre ++ h.before;
  after = h.after;
  there = ap (λ (x : Text). pre ++ x) h.there ∙ sym (append_assoc pre h.before (t ++ h.after));
}

pub IsSlice-trans : (t u text : Text) → IsSlice t u → IsSlice u text → IsSlice t text
IsSlice-trans t u text h k = subst (IsSlice t) (sym k.there) (
    IsSlice-behind k.before t (u ++ k.after) (record {
      before = h.before;
      after = h.after ++ k.after;
      there =
          ap (λ (x : Text). x ++ k.after) h.there
          ∙ (append_assoc h.before (t ++ h.after) k.after
              ∙ ap (λ (x : Text). h.before ++ x) (append_assoc t h.after k.after));
    }))

-- `t` is what `s` starts with.
pub record IsStart (s t : Text) : Type 0 where
  rest : Text
  split : s ≡ t ++ rest

prepend-IsStart :
    (c : ℕ) (s : Text) (o : Option Text) {t : Text}
    → ((u : Text) → o ≡ some u → IsStart s u)
    → prepend c o ≡ some t
    → IsStart (c ∷ s) t
prepend-IsStart c s none h e = cc
prepend-IsStart c s (some u) {t} h e =
    let found = h u refl in
    subst (IsStart (c ∷ s)) (some-injective (c ∷ u) t e)
      (record { rest = found.rest; split = ap (λ (x : Text). c ∷ x) found.split })

one-IsStart : (c : ℕ) (s : Text) {t : Text} → some (c ∷ []) ≡ some t → IsStart (c ∷ s) t
one-IsStart c s {t} e =
    subst (IsStart (c ∷ s)) (some-injective (c ∷ []) t e) (record { rest = s; split = refl })

until_fence-IsStart :
    (closer : ℕ) (s : Text) (t : Text) → until_fence closer s ≡ some t → IsStart s t
unfolding until_fence
until_fence-IsStart closer [] t e = cc
until_fence-IsStart closer (c ∷ s) t e =
    elim (Bool-cases (c == closer && starts_with (lstrip is_space s) (codes "```"))) [
      | inl h ↦ one-IsStart c s (rw h at e)
      | inr h ↦
          prepend-IsStart c s (until_fence closer s) (until_fence-IsStart closer s) (rw h at e)
    ]

pub balanced-IsStart :
    (opener closer depth : ℕ) (s : Text) (t : Text)
    → balanced opener closer depth s ≡ some t
    → IsStart s t
unfolding balanced
balanced-IsStart opener closer depth [] t e = cc
balanced-IsStart opener closer depth (c ∷ s) t e = elim (Bool-cases (c == opener)) [
  | inl o ↦ prepend-IsStart c s _ (balanced-IsStart opener closer (depth + 1) s) (rw o at e)
  | inr o ↦ elim (Bool-cases (c == closer)) [
    | inr k ↦ prepend-IsStart c s _ (balanced-IsStart opener closer depth s) (rw (o, k) at e)
    | inl k ↦ elim (Bool-cases (depth == 1)) [
      | inl d ↦ one-IsStart c s (rw (o, k, d) at e)
      | inr d ↦
          prepend-IsStart c s _ (balanced-IsStart opener closer (depth - 1) s) (rw (o, k, d) at e)
    ]
  ]
]

pub IsStart-IsSlice : (s t : Text) → IsStart s t → IsSlice t s
IsStart-IsSlice s t h = record { before = []; after = h.rest; there = h.split }

fenced-IsSlice : (s t : Text) → fenced s ≡ some t → IsSlice t s
unfolding fenced
fenced-IsSlice [] t e = cc
fenced-IsSlice (c ∷ s) t e = elim (Bool-cases (c == b'{')) [
  | inl o ↦
      IsStart-IsSlice (c ∷ s) t (prepend-IsStart c s _ (until_fence-IsStart b'}' s) (rw o at e))
  | inr o ↦ elim (Bool-cases (c == b'[')) [
    | inl k ↦
        IsStart-IsSlice (c ∷ s) t
          (prepend-IsStart c s _ (until_fence-IsStart b']' s) (rw (o, k) at e))
    | inr k ↦ let e' = (rw (o, k) at e) in cc
  ]
]

IsSlice-next : (c : ℕ) (t s : Text) → IsSlice t s → IsSlice t (c ∷ s)
IsSlice-next c t s h = IsSlice-behind (c ∷ []) t s h

lstrip-IsSlice : (p : ℕ → Bool) (s : Text) → IsSlice (lstrip p s) s
unfolding lstrip
lstrip-IsSlice p [] = IsSlice-self []
lstrip-IsSlice p (c ∷ s) = elim (Bool-cases (p c)) [
  | inl e ↦ rw e (IsSlice-next c (lstrip p s) s (lstrip-IsSlice p s))
  | inr e ↦ rw e (IsSlice-self (c ∷ s))
]

drop-IsSlice : (n : ℕ) (s : Text) → IsSlice (drop n s) s
drop-IsSlice n s =
    subst (IsSlice (drop n s)) (take-append-drop n s)
      (IsSlice-behind (take n s) (drop n s) (drop n s) (IsSlice-self (drop n s)))

reverse-IsSlice : (t s : Text) → IsSlice t (reverse s) → IsSlice (reverse t) s
reverse-IsSlice t s h = record {
  before = reverse h.after;
  after = reverse h.before;
  there =
      sym (reverse-reverse s)
      ∙ (ap reverse h.there
          ∙ (reverse-append h.before (t ++ h.after)
              ∙ (ap (λ (x : Text). x ++ reverse h.before) (reverse-append t h.after)
                  ∙ append_assoc (reverse h.after) (reverse t) (reverse h.before))));
}

pub strip-IsSlice : (p : ℕ → Bool) (s : Text) → IsSlice (strip p s) s
unfolding strip
strip-IsSlice p s =
    IsSlice-trans (strip p s) (lstrip p s) s
      (reverse-IsSlice (lstrip p (reverse (lstrip p s))) (lstrip p s)
        (lstrip-IsSlice p (reverse (lstrip p s))))
      (lstrip-IsSlice p s)

fenced_after : (n : ℕ) (s t : Text) → fenced (lstrip is_space (drop n s)) ≡ some t → IsSlice t s
fenced_after n s t e =
    IsSlice-trans t (drop n s) s
      (IsSlice-trans t (lstrip is_space (drop n s)) (drop n s)
        (fenced-IsSlice (lstrip is_space (drop n s)) t e) (lstrip-IsSlice is_space (drop n s)))
      (drop-IsSlice n s)

fence_at-IsSlice : (s t : Text) → fence_at s ≡ some t → IsSlice t s
unfolding fence_at
fence_at-IsSlice s t e = elim (Bool-cases (starts_with s (codes "```"))) [
  | inr missed ↦ let e' = (rw missed at e) in cc
  | inl opens ↦ elim (Bool-cases (starts_with (drop 3 s) (codes "json"))) [
    | inl j ↦
        IsSlice-trans t (drop 3 s) s (fenced_after 4 (drop 3 s) t (rw (opens, j) at e))
          (drop-IsSlice 3 s)
    | inr j ↦ fenced_after 3 s t (rw (opens, j) at e)
  ]
]

pub search_fence-IsSlice : (s t : Text) → search_fence s ≡ some t → IsSlice t s
unfolding search_fence
search_fence-IsSlice [] t e = cc
search_fence-IsSlice (c ∷ s) t e = elim (Option-cases (fence_at (c ∷ s))) [
  | inl missed ↦ IsSlice-next c t s (search_fence-IsSlice s t (rw (missed, search_fence) at e))
  | inr (u, found) ↦ fence_at-IsSlice (c ∷ s) t (found ∙ (rw (found, search_fence) at e))
]

pub from_opener-IsSlice : (opener : ℕ) (s : Text) → IsSlice (from_opener opener s) s
unfolding from_opener
from_opener-IsSlice opener [] = IsSlice-self []
from_opener-IsSlice opener (c ∷ s) = elim (Bool-cases (c == opener)) [
  | inl e ↦ rw e (IsSlice-self (c ∷ s))
  | inr e ↦ rw e (IsSlice-next c (from_opener opener s) s (from_opener-IsSlice opener s))
]
