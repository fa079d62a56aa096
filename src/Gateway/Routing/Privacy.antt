-- ===== src/Gateway/Routing/Privacy.antt =====
-- routing.py: the sensitive tier against the standard one.
use auditcore.Base.{
  ◌≡◌, refl, Option, none, some, List, [], ◌∷◌, ◌++◌, Bool, false, ◌||◌, not, filter, arith,
}
use auditcore.Base.Text.{Text, codes, text_eq}
use auditcore.Base.Json.{Value, str, null, bool, int, float, arr, obj}
use auditcore.Base.Error.{Result, ok, raised, routing_error}
use auditcore.Gateway.Types.{Target, RouteDecision}
use auditcore.Gateway.Routing.{target, denies, Entry}

-- The targets of a decision, in the order in which they are tried.
abbrev pub optional : Option Target → List Target
optional none = []
optional (some t) = t ∷ []

abbrev pub targets : RouteDecision → List Target
targets r = r.primary ∷ (optional r.secondary ++ optional r.tertiary)

-- The provider is in the set of texts.
abbrev pub is_denied : List Value → Text → Bool
is_denied [] p = false
is_denied (str d ∷ ds) p = text_eq d p || is_denied ds p
is_denied (d ∷ ds) p = is_denied ds p

pub denies-str : (ds : List Value) (p : Text) → denies ds (str p) ≡ ok (is_denied ds p)
unfolding denies
denies-str [] p = refl
denies-str (str d ∷ ds) p = ground (arith, denies-str ds p)
denies-str (null ∷ ds) p = denies-str ds p
denies-str (bool b ∷ ds) p = denies-str ds p
denies-str (int n ∷ ds) p = denies-str ds p
denies-str (float f ∷ ds) p = denies-str ds p
denies-str (arr vs ∷ ds) p = denies-str ds p
denies-str (obj fs ∷ ds) p = denies-str ds p

-- A target as the table holds it.
abbrev pub quoted : Target → Value × Value
quoted (p, m) = (str p, str m)

pub target-quoted : (v : Value × Value) {t : Target} → target v ≡ ok t → v ≡ quoted t
unfolding target
target-quoted (str p, str m) h = ground arith
target-quoted (str p, null) h = cc
target-quoted (str p, bool b) h = cc
target-quoted (str p, int n) h = cc
target-quoted (str p, float f) h = cc
target-quoted (str p, arr vs) h = cc
target-quoted (str p, obj fs) h = cc
target-quoted (null, m) h = cc
target-quoted (bool b, m) h = cc
target-quoted (int n, m) h = cc
target-quoted (float f, m) h = cc
target-quoted (arr vs, m) h = cc
target-quoted (obj fs, m) h = cc

abbrev wrapped : Option Target → Option (Value × Value)
wrapped none = none
wrapped (some t) = some (quoted t)

abbrev flat : List (Option Target) → List Target
flat [] = []
flat (o ∷ os) = optional o ++ flat os

-- What a set of denied providers leaves of a list of targets.
abbrev pub remaining : List Value → List Target → List Target
remaining ds = filter (λ t. not (is_denied ds t.0))

-- The decision that a list of targets stands for: the first three of it.
abbrev pub first? : List Target → Option Target
first? [] = none
first? (t ∷ ts) = some t

abbrev pub rest : List Target → List Target
rest [] = []
rest (t ∷ ts) = ts

abbrev pub from_chain : List Target → Bool → Result RouteDecision
from_chain [] critic =
    raised (routing_error (codes "privacy=sensitive removed every routed provider for this slot"))
from_chain (t ∷ ts) critic = ok (record {
  primary = t;
  secondary = first? ts;
  tertiary = first? (rest ts);
  critic_loop = critic;
})

-- The entry that a decision was made from.
abbrev entry_of : RouteDecision → Entry
entry_of r = record {
  primary = quoted r.primary;
  secondary = wrapped r.secondary;
  tertiary = wrapped r.tertiary;
  critic = r.critic_loop;
}
