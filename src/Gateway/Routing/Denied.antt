-- ===== src/Gateway/Routing/Denied.antt =====
-- routing.py: the providers of a sensitive route.
use auditcore.Base.{
  ◌≡◌, refl, sym, ap, ◌∙◌, String, Option, none, some, List, [], ◌∷◌, Bool, true, false, All,
  All-append, if◌then◌else◌,
}
use mathlib.Core.Path.{subst}
use mathlib.Core.Option.{some-injective}
use auditcore.Base.Json.{Value}
use auditcore.Base.Error.{Result, ok, raised, OnOk, OnOk-ok, OnOk-raised, OnOk-bind}
use auditcore.Gateway.Types.{TaskKind, Target}
use auditcore.Gateway.Routing.{
  target, target?, decision, denies, allowed_slots, spread, denied, sensitive, Entry, entry, finish,
  routed, resolve,
}
use auditcore.Gateway.Routing.Privacy.{optional, targets, is_denied, target-quoted, denies-str}

module _ (ds : List Value) where
  abbrev Passes : Value × Value → Type 0
  Passes s = denies ds s.0 ≡ ok false

  abbrev pub IsAllowed : Target → Type 0
  IsAllowed t = is_denied ds t.0 ≡ false

  ok_injective : {a b : Bool} → ◌≡◌ {A = Result Bool} (ok a) (ok b) → a ≡ b
  ok_injective e = ap value e
    where
      value : Result Bool → Bool
      value (ok b) = b
      value (raised e) = false

  allowed_slots-Passes :
      (chain : List (Option (Value × Value))) → OnOk (All Passes) (allowed_slots ds chain)
  unfolding allowed_slots
  allowed_slots-Passes [] = OnOk-ok [] tt
  allowed_slots-Passes (none ∷ rest) = allowed_slots-Passes rest
  allowed_slots-Passes (some s ∷ rest) = OnOk-bind (denies ds s.0) _ λ out e.
      OnOk-bind (allowed_slots ds rest) _
        λ more h. OnOk-ok _ (pick out e more ((allowed_slots-Passes rest).at more h))
    where
      pick :
          (out : Bool)
          → denies ds s.0 ≡ ok out
          → (more : List (Value × Value)) → All Passes more
          → All Passes (if out then more else s ∷ more)
      pick true e more h = h
      pick false e more h = (e, h)

  target-IsAllowed : (v : Value × Value) {t : Target} → Passes v → target v ≡ ok t → IsAllowed t
  target-IsAllowed v {t} p h = ok_injective (
      sym (denies-str ds t.0)
      ∙ sym (ap (λ (u : Value × Value). denies ds u.0) (target-quoted v h))
      ∙ p)

  target?-IsAllowed :
      (o : Option (Value × Value))
      → ((v : Value × Value) → o ≡ some v → Passes v)
      → OnOk (λ t. All IsAllowed (optional t)) (target? o)
  target?-IsAllowed none p = OnOk-ok none tt
  target?-IsAllowed (some v) p =
      OnOk-bind (target v) _ λ t e. OnOk-ok (some t) (target-IsAllowed v (p v refl) e, tt)

  decision-IsAllowed :
      (a : Value × Value) (b c : Option (Value × Value)) (critic : Bool)
      → Passes a
      → ((v : Value × Value) → b ≡ some v → Passes v)
      → ((v : Value × Value) → c ≡ some v → Passes v)
      → OnOk (λ r. All IsAllowed (targets r)) (decision a b c critic)
  unfolding decision
  decision-IsAllowed a b c critic pa pb pc = OnOk-bind (target a) _ λ p hp.
      OnOk-bind (target? b) _ λ s hs. OnOk-bind (target? c) _ λ t ht. OnOk-ok _ (
        target-IsAllowed a pa hp,
        All-append IsAllowed (optional s) (optional t) ((target?-IsAllowed b pb).at s hs)
            ((target?-IsAllowed c pc).at t ht),
      )

  is_some : {v w : Value × Value} → Passes v → some v ≡ some w → Passes w
  is_some {v} {w} p e = subst Passes (some-injective v w e) p

  spread-IsAllowed :
      (kept : List (Value × Value)) (critic : Bool)
      → All Passes kept
      → OnOk (λ r. All IsAllowed (targets r)) (spread kept critic)
  unfolding spread
  spread-IsAllowed [] critic h = OnOk-raised _
  spread-IsAllowed (a ∷ []) critic (pa, h) =
      decision-IsAllowed a none none critic pa (λ v e. cc) (λ v e. cc)
  spread-IsAllowed (a ∷ b ∷ []) critic (pa, (pb, h)) =
      decision-IsAllowed a (some b) none critic pa (λ v e. is_some pb e) (λ v e. cc)
  spread-IsAllowed (a ∷ b ∷ c ∷ rest) critic (pa, (pb, (pc, h))) =
      decision-IsAllowed a (some b) (some c) critic pa (λ v e. is_some pb e) (λ v e. is_some pc e)

module _ (table : Value) (ds : List Value) (d : denied table ≡ ok ds) where
  finish-IsAllowed :
      (e : Entry) → OnOk (λ r. All (IsAllowed ds) (targets r)) (finish table "sensitive" e)
  unfolding finish sensitive
  finish-IsAllowed e = rw d (
      OnOk-bind (allowed_slots ds (some e.primary ∷ e.secondary ∷ e.tertiary ∷ [])) _ λ kept h.
        spread-IsAllowed ds kept e.critic
          ((allowed_slots-Passes ds (some e.primary ∷ e.secondary ∷ e.tertiary ∷ [])).at kept h))

  pub resolve-IsAllowed :
      (kind : TaskKind) (budget : String)
      → OnOk (λ r. All (IsAllowed ds) (targets r)) (resolve table kind budget "sensitive")
  unfolding resolve routed
  resolve-IsAllowed kind budget = OnOk-bind (entry table kind budget) _ λ e h. finish-IsAllowed e
