-- ===== src/Gateway/Routing.antt =====
-- routing.py: a task, a budget and a privacy tier to providers and models.
pub mod Privacy
pub mod Denied
use auditcore.Base.{
  ℕ, String, Option, none, some, List, [], ◌∷◌, ◌++◌, Bool, true, false, ◌||◌, ◌&&◌, ◌==◌, ◌*◌, ◌^◌,
  ◌+◌, not, filter, str_eq, if◌then◌else◌,
}
use auditcore.Base.Text.{Text, codes, text_eq}
use auditcore.Base.Json.{
  Value, null, bool, int, pos, negsuc, float, finite, infinite, str, arr, nil, obj, end, Fields,
  lookup, get_or, index, iterate, truthy,
}
use auditcore.Base.Error.{Result, ok, raised, type_error, value_error, routing_error, ◌>>=◌}
use auditcore.Gateway.Types.{TaskKind, kind_value, Target, RouteDecision}

-- `_slot`
unfoldable pub slot : Value → Result (Value × Value)
slot v = do provider ← index v "provider"; model ← index v "model"; ok (provider, model)

-- A RouteDecision holds texts; its model validation refuses anything else.
unfoldable pub target : Value × Value → Result Target
target (str p, str m) = ok (p, m)
target _ = raised value_error

abbrev target? : Option (Value × Value) → Result (Option Target)
target? none = ok none
target? (some s) = do t ← target s; ok (some t)

unfoldable pub decision :
    Value × Value → Option (Value × Value) → Option (Value × Value) → Bool → Result RouteDecision
unfolding target
decision primary secondary tertiary critic = do
  p ← target primary
  s ← target? secondary
  t ← target? tertiary
  ok (record { primary = p; secondary = s; tertiary = t; critic_loop = critic })

-- `self._slot(slot[k]) if k in slot else None`; `slot` is a dict here.
slot? : Option Value → Result (Option (Value × Value))
slot? none = ok none
slot? (some v) = do s ← slot v; ok (some s)

fields : Value → Result Fields
fields (obj fs) = ok fs
fields _ = raised type_error

-- A number in units of 2 ^ -1074, and whether it is below zero.
magnitude : Value → Option (ℕ × Bool)
magnitude (bool b) = some (if b then 2 ^ 1074 else 0, false)
magnitude (int (pos n)) = some (n * 2 ^ 1074, false)
magnitude (int (negsuc n)) = some ((n + 1) * 2 ^ 1074, true)
magnitude (float (finite m e s)) = some (m * 2 ^ e, s)
magnitude _ = none

same_number : Option (ℕ × Bool) → Option (ℕ × Bool) → Bool
same_number (some (m, s)) (some (n, t)) = m == n && (m == 0 || (if s then t else not t))
same_number _ _ = false

-- `a == b`, for values that are not both texts, lists or dicts; nan is not itself.
same_scalar : Value → Value → Bool
unfolding magnitude same_number
same_scalar null null = true
same_scalar (float (infinite s)) (float (infinite t)) = if s then t else not t
same_scalar a b = same_number (magnitude a) (magnitude b)

-- `p in denied`. A list or a dict cannot be hashed.
unfoldable pub denies : List Value → Value → Result Bool
unfolding same_scalar
denies [] (arr vs) = raised type_error
denies [] (obj fs) = raised type_error
denies [] p = ok false
denies (str d ∷ ds) (str p) = if text_eq d p then ok true else denies ds (str p)
denies (d ∷ ds) (str p) = denies ds (str p)
denies (d ∷ ds) p = let rest = denies ds p in if same_scalar d p then ok true else rest

-- `set(vs)`: a list or a dict cannot be hashed.
unfoldable pub hashable : List Value → Result (Unit {0})
hashable [] = ok tt
hashable (arr vs ∷ ds) = raised type_error
hashable (obj fs ∷ ds) = raised type_error
hashable (d ∷ ds) = hashable ds

-- The chain of `_drop_denied`.
unfoldable pub allowed_slots :
    List Value → List (Option (Value × Value)) → Result (List (Value × Value))
allowed_slots denied [] = ok []
allowed_slots denied (none ∷ rest) = allowed_slots denied rest
allowed_slots denied (some s ∷ rest) = do
  out ← denies denied s.0
  more ← allowed_slots denied rest
  ok (if out then more else s ∷ more)

-- `chain[0]`, and the next two if there are any
spread : List (Value × Value) → Bool → Result RouteDecision
spread [] critic =
    raised (routing_error (codes "privacy=sensitive removed every routed provider for this slot"))
spread (a ∷ []) critic = decision a none none critic
spread (a ∷ b ∷ []) critic = decision a (some b) none critic
spread (a ∷ b ∷ c ∷ rest) critic = decision a (some b) (some c) critic

record Entry : Type 0 where
  primary : Value × Value
  secondary : Option (Value × Value)
  tertiary : Option (Value × Value)
  critic : Bool

module _ (table : Value) where
  -- The override for a privacy tier.
  unfoldable pub override : String → Result Value
  override tier = do
    overrides ← get_or table "privacy_overrides" (obj end)
    get_or overrides tier (obj end)

  air_gapped : TaskKind → Result RouteDecision
  unfolding override
  air_gapped kind = do
    over ← override "air_gapped"
    routes ← get_or over "routes" (obj end)
    route ← get_or routes (kind_value kind) null
    if truthy route
        then (do v ← index route "primary"; s ← slot v; decision s none none false)
        else raised (
            routing_error (
              codes "no air_gapped route defined for task_kind=TaskKind."
              ++ codes (kind_value kind)))

  -- The set `denied`
  unfoldable pub denied : Result (List Value)
  unfolding override
  denied = do
    over ← override "sensitive"
    listed ← get_or over "deny_providers" (arr nil)
    names ← iterate listed
    set ← hashable names
    ok names

  sensitive : List (Option (Value × Value)) → Bool → Result RouteDecision
  unfolding spread
  sensitive chain critic = do names ← denied; kept ← allowed_slots names chain; spread kept critic

  -- The entry of the defaults.
  entry : TaskKind → String → Result Entry
  unfolding slot? fields
  entry kind budget = do
    defaults ← index table "defaults"
    budgets ← index defaults (kind_value kind)
    found ← index budgets budget
    first ← index found "primary"
    primary ← slot first
    fs ← fields found
    secondary ← slot? (lookup "secondary" fs)
    tertiary ← slot? (lookup "tertiary" fs)
    critic ← get_or first "critic_loop" (bool false)
    ok (record {
      primary = primary;
      secondary = secondary;
      tertiary = tertiary;
      critic = truthy critic;
    })

  finish : String → Entry → Result RouteDecision
  unfolding sensitive
  finish privacy e =
      if str_eq privacy "sensitive"
      then sensitive (some e.primary ∷ e.secondary ∷ e.tertiary ∷ []) e.critic
      else decision e.primary e.secondary e.tertiary e.critic

  routed : TaskKind → String → String → Result RouteDecision
  unfolding entry finish
  routed kind budget privacy = do e ← entry kind budget; finish privacy e

  -- Router.resolve
  unfoldable pub resolve : TaskKind → String → String → Result RouteDecision
  unfolding air_gapped routed
  resolve kind budget privacy =
      if str_eq privacy "air_gapped" then air_gapped kind else routed kind budget privacy

  unfoldable pub fallback_settings : Result Value
  fallback_settings = get_or table "fallback" (obj end)

  unfoldable pub cost_caps : Result Value
  cost_caps = get_or table "cost_caps" (obj end)
