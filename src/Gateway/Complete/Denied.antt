-- ===== src/Gateway/Complete/Denied.antt =====
-- gateway.py: the providers that a sensitive request reaches.
use auditcore.Base.{
  ℕ, ◌≡◌, Option, none, some, List, [], ◌∷◌, ◌++◌, Bool, true, false, All, if◌then◌else◌,
}
use auditcore.Base.Text.{Text}
use auditcore.Base.Json.{Value, truthy}
use auditcore.Base.Error.{PyError, key_error, Result, ok, raised, OnOk}
use auditcore.Base.Exec.{Exec, pure, raise, ◌>>◌}
use auditcore.Base.Exec.Ensures.{Ensures, Ensures-pure, Ensures-raise, Ensures-lift, Ensures-bind}
use auditcore.Gateway.Types.{Message, Tier, Target, RouteDecision, CompleteRequest, ModelResponse}
use auditcore.Gateway.Routing.{resolve, denied}
use auditcore.Gateway.Routing.Privacy.{optional, targets, is_denied}
use auditcore.Gateway.Routing.Denied.{IsAllowed, resolve-IsAllowed}
use auditcore.Gateway.Cost.{FloatOps, TextLookup}
use auditcore.Gateway.Complete.{
  Node, Outside, outside, register, is_in, known_providers, get_provider, call, attempt, next,
  run_attempts, complete, attempts, tier_of,
}

-- `P` holds until a provider of the list is constructed or asked: the clock and all other
-- providers keep it.
pub record LeavesAlone {W F : Type 0} (api : Outside W F) (ds : List Value) (P : W → Type 0)
    : Type 0 where
  pub constructs :
      (name : Text) → is_denied ds name ≡ false → (w : W) → P w → P (api.construct name w).1
  pub asks :
      (name : Text)
      → is_denied ds name ≡ false
      → (messages : List Message) (model : Text) (max_tokens : ℕ) (temperature : F) (w : W) → P w
      → P (api.ask name messages model max_tokens temperature w).1
  pub clock : (w : W) → P w → P (api.perf_counter w).1

module _ {W F : Type 0} (api : Outside W F) (ds : List Value) (P : W → Type 0)
    (alone : LeavesAlone api ds P) where
  abbrev OnNode : Node W → Type 0
  OnNode n = P n.outside

  keeping :
      {A : Type 0} (m : Exec (Node W) A)
      → ((n : Node W) → OnNode n → OnNode (m n).1)
      → Ensures OnNode m (λ _. Unit {0})
  keeping m k = record { keeps = k; gives = λ n h. record { at = λ a e. tt } }

  outside-Ensures :
      {A : Type 0} (m : Exec W A)
      → ((w : W) → P w → P (m w).1)
      → Ensures OnNode (outside m) (λ _. Unit {0})
  unfolding outside
  outside-Ensures m k = keeping (outside m) (λ n h. k n.outside h)

  abbrev Reaches : Text → Exec (Node W) Text → Type 0
  Reaches name m = Ensures OnNode m (λ p. is_denied ds p ≡ false)

  construct-Ensures :
      (name : Text)
      → is_denied ds name ≡ false
      → Reaches name (outside (api.construct name) >> register name >> pure name)
  unfolding register
  construct-Ensures name a =
      Ensures-bind _ _
        (Ensures-bind _ _ (outside-Ensures (api.construct name) (alone.constructs name a))
          λ _ _. keeping (register name) (λ n h. h))
        λ _ _. Ensures-pure name a

  get_provider-Ensures :
      (name : Text) → is_denied ds name ≡ false → Reaches name (get_provider api name)
  unfolding get_provider
  get_provider-Ensures name a = record {
    keeps = λ n h. (chosen (is_in name n.registered) (is_in name known_providers)).keeps n h;
    gives = λ n h. (chosen (is_in name n.registered) (is_in name known_providers)).gives n h;
  }
    where
      chosen :
          (b c : Bool)
          → Reaches name (λ n.
            if b
            then pure name n
            else (if c
                then (outside (api.construct name) >> register name >> pure name) n
                else raise key_error n))
      chosen true c = Ensures-pure name a
      chosen false true = construct-Ensures name a
      chosen false false = Ensures-raise key_error

  module _ (ops : FloatOps F) (get_text : TextLookup) (prices : Value) where
    call-Ensures :
        (req : CompleteRequest F) (t : Target)
        → IsAllowed ds t
        → Ensures OnNode (call api ops get_text prices req t) (λ _. Unit {0})
    unfolding call
    call-Ensures req (provider, model) a =
        Ensures-bind _ _ (get_provider-Ensures provider a) λ found h.
          Ensures-bind _ _ (outside-Ensures api.perf_counter alone.clock) λ started _.
            Ensures-bind _ _
              (outside-Ensures (api.ask found req.messages model req.max_tokens req.temperature)
                (alone.asks found h req.messages model req.max_tokens req.temperature))
              λ resp _. Ensures-bind _ _ (outside-Ensures api.perf_counter alone.clock) λ ended _.
                Ensures-bind {Q = λ _. Unit {0}} _ _ (Ensures-lift _ (record { at = λ c e. tt }))
                  λ cost _. Ensures-pure _ tt

    attempt-Ensures :
        (escalate : Bool) (req : CompleteRequest F) (tier : Tier) (t : Target)
        → IsAllowed ds t
        → Ensures OnNode (attempt api ops get_text prices escalate req (tier, t)) (λ _. Unit {0})
    unfolding attempt
    attempt-Ensures escalate req tier t a =
        Ensures-bind _ _ (call-Ensures req t a) λ resp _. Ensures-lift _ (record { at = λ c e. tt })

    next-keeps :
        (more : PyError → Exec (Node W) (ModelResponse F)) (n : Node W)
        → ((e : PyError) → OnNode (more e n).1)
        → (r : Result (Option (ModelResponse F))) → OnNode n
        → OnNode (next api ops get_text prices more r n).1
    unfolding next
    next-keeps more n h (ok none) p = h _
    next-keeps more n h (ok (some resp)) p = p
    next-keeps more n h (raised e) p = h e

    run_attempts-keeps :
        (escalate : Bool) (req : CompleteRequest F) (todo : List (Tier × Target))
        → All (λ a. IsAllowed ds a.1) todo
        → (last_err : PyError) (n : Node W) → OnNode n
        → OnNode (run_attempts api ops get_text prices escalate req todo last_err n).1
    unfolding run_attempts
    run_attempts-keeps escalate req [] ha last_err n p = p
    run_attempts-keeps escalate req (a ∷ rest) (h, ha) last_err n p =
        let m = (attempt api ops get_text prices escalate req a n).1 in
        let pm = (attempt-Ensures escalate req a.0 a.1 h).keeps n p in
        next-keeps (run_attempts api ops get_text prices escalate req rest) m
          (λ x. run_attempts-keeps escalate req rest ha x m pm)
          (attempt api ops get_text prices escalate req a n).0 pm

    run_attempts-Ensures :
        (escalate : Bool) (req : CompleteRequest F) (route : RouteDecision)
        → All (IsAllowed ds) (targets route)
        → Ensures OnNode
            (run_attempts api ops get_text prices escalate req (attempts route) key_error)
            (λ _. Unit {0})
    run_attempts-Ensures escalate req route (h, hs) = keeping _ (λ n p.
        run_attempts-keeps escalate req (attempts route)
          (h, second route.secondary route.tertiary hs) key_error n p)
      where
        last :
            (t : Tier) (o : Option Target)
            → All (IsAllowed ds) (optional o)
            → All (λ a. IsAllowed ds a.1) (tier_of t o)
        last t none g = tt
        last t (some x) g = g

        second :
            (s t : Option Target)
            → All (IsAllowed ds) (optional s ++ optional t)
            → All (λ a. IsAllowed ds a.1) (tier_of Tier.secondary s ++ tier_of Tier.tertiary t)
        second none t g = last Tier.tertiary t g
        second (some x) t (g, gs) = (g, last Tier.tertiary t gs)

module _ {W F : Type 0} (api : Outside W F) (ops : FloatOps F) (get_text : TextLookup)
    (prices table : Value) where
  -- If a request's privacy is `sensitive`, and `P` is a property of all that lies outside which the
  -- clock keeps, as do the construction and the use of any provider that the table does not deny
  -- to that tier, then `complete` keeps `P`, whether it returns or raises: a denied provider is
  -- never constructed or asked.
  pub complete-LeavesAlone :
      (ds : List Value) (P : W → Type 0) (req : CompleteRequest F) (n : Node W)
      → denied table ≡ ok ds
      → LeavesAlone api ds P
      → req.privacy ≡ "sensitive"
      → P n.outside
      → P (complete api ops get_text prices table req n).1.outside
  unfolding complete
  complete-LeavesAlone ds P req n d alone s p = whole.keeps n p
    where
      route_allowed :
          OnOk
            (λ r. All (IsAllowed ds) (targets r))
            (resolve table req.task_kind req.budget_hint req.privacy)
      route_allowed = rw s (resolve-IsAllowed table ds d req.task_kind req.budget_hint)

      whole :
          Ensures
            (OnNode api ds P alone)
            (complete api ops get_text prices table req)
            (λ _. Unit {0})
      whole = Ensures-bind _ _ (Ensures-lift _ route_allowed) λ route h.
          Ensures-bind {Q = λ _. Unit {0}} _ _ (Ensures-lift _ (record { at = λ c e. tt })) λ st _.
            Ensures-bind {Q = λ _. Unit {0}} _ _ (Ensures-lift _ (record { at = λ c e. tt }))
              λ flag _.
                run_attempts-Ensures api ds P alone ops get_text prices (truthy flag) req route h
