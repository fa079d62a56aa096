-- ===== src/Gateway/Complete.antt =====
-- gateway.py and providers/__init__.py: one request over the tiers of its route.
pub mod Safe
pub mod Denied
use auditcore.Base.{
  ℕ, String, Option, none, some, List, [], ◌∷◌, ◌++◌, Bool, true, false, ◌&&◌, if◌then◌else◌,
}
use auditcore.Base.Text.{Text, codes, text_eq}
use auditcore.Base.Json.{Value, null, bool, get_or, truthy}
use auditcore.Base.Error.{PyError, Result, ok, raised, key_error, runtime_error}
use auditcore.Base.Exec.{Exec, pure, raise, lift, ◌>>=◌, ◌>>◌}
use auditcore.Gateway.Types.{
  TaskKind, kind_value, Tier, primary, secondary, tertiary, Target, RouteDecision, Message,
  CompleteRequest, ModelResponse,
}
use auditcore.Gateway.Routing.{resolve, fallback_settings}
use auditcore.Gateway.Cost.{FloatOps, TextLookup, cost_usd}
use auditcore.Gateway.Validator.{extract_json}

-- The providers that are registered, and all that the providers, their SDKs and the clock keep.
pub record Node (W : Type 0) : Type 0 where
  pub registered : List Text
  pub outside : W

-- The provider classes, the clock and the packages that the gateway calls.
pub record Outside (W F : Type 0) : Type 0 where
  -- the construction of a provider of a known name
  pub construct : Text → Exec W (Unit {0})
  -- `provider.complete` of the provider of that name
  pub ask : Text → List Message → Text → ℕ → F → Exec W (ModelResponse F)
  pub perf_counter : Exec W F
  -- `int((t - t0) * 1000)`
  pub milliseconds : F → F → ℕ
  -- `json.loads`; `none` is a JSONDecodeError
  pub loads : Text → Option Value
  -- the messages of jsonschema's errors, in the order of their paths
  pub schema_errors : Value → Value → Result (List Text)
  -- `str(e)`
  pub str_error : PyError → Text

module _ {W : Type 0} where
  outside : {A : Type 0} → Exec W A → Exec (Node W) A
  outside m n = let (r, w) = m n.outside in (r, record { registered = n.registered; outside = w })

  register : Text → Exec (Node W) (Unit {0})
  register name n = (ok tt, record { registered = name ∷ n.registered; outside = n.outside })

is_in : Text → List Text → Bool
is_in t [] = false
is_in t (s ∷ ss) = if text_eq t s then true else is_in t ss

abbrev known_providers : List Text
known_providers = codes "anthropic" ∷ codes "openai" ∷ codes "google" ∷ codes "local" ∷ []

-- `resp` with what the validation found.
abbrev pub with_verdict :
    {F : Type 0} → ModelResponse F → Value → Bool → List Text → ModelResponse F
with_verdict resp parsed valid errors = record {
  content = resp.content;
  parsed = parsed;
  provider = resp.provider;
  model = resp.model;
  tier_used = resp.tier_used;
  input_tokens = resp.input_tokens;
  output_tokens = resp.output_tokens;
  cost_usd = resp.cost_usd;
  latency_ms = resp.latency_ms;
  schema_valid = some valid;
  schema_errors = errors;
}

abbrev pub with_tier : {F : Type 0} → ModelResponse F → Tier → ModelResponse F
with_tier resp tier = record {
  content = resp.content;
  parsed = resp.parsed;
  provider = resp.provider;
  model = resp.model;
  tier_used = tier;
  input_tokens = resp.input_tokens;
  output_tokens = resp.output_tokens;
  cost_usd = resp.cost_usd;
  latency_ms = resp.latency_ms;
  schema_valid = resp.schema_valid;
  schema_errors = resp.schema_errors;
}

abbrev with_cost : {F : Type 0} → ModelResponse F → ℕ → F → ModelResponse F
with_cost resp latency cost = record {
  content = resp.content;
  parsed = resp.parsed;
  provider = resp.provider;
  model = resp.model;
  tier_used = resp.tier_used;
  input_tokens = resp.input_tokens;
  output_tokens = resp.output_tokens;
  cost_usd = cost;
  latency_ms = latency;
  schema_valid = resp.schema_valid;
  schema_errors = resp.schema_errors;
}

abbrev tier_of : Tier → Option Target → List (Tier × Target)
tier_of tier none = []
tier_of tier (some t) = (tier, t) ∷ []

-- The `attempts` of `complete`.
abbrev pub attempts : RouteDecision → List (Tier × Target)
attempts r = (primary, r.primary) ∷ (tier_of secondary r.secondary ++ tier_of tertiary r.tertiary)

-- `schema_valid is False`
abbrev pub is_invalid : Option Bool → Bool
is_invalid (some false) = true
is_invalid _ = false

module _ {W F : Type 0} (api : Outside W F) where
  -- A provider is its name.
  unfoldable pub get_provider : Text → Exec (Node W) Text
  unfolding is_in outside register
  get_provider name n =
      if is_in name n.registered
      then pure name n
      else (if is_in name known_providers
          then (outside (api.construct name) >> register name >> pure name) n
          else raise key_error n)

  -- The verdict on JSON that was found.
  unfoldable pub judged : ModelResponse F → Value → Result (List Text) → Result (ModelResponse F)
  judged resp parsed (ok []) = ok (with_verdict resp parsed true [])
  judged resp parsed (ok (e ∷ es)) = ok (with_verdict resp null false (e ∷ es))
  judged resp parsed (raised e) = raised e

  -- `Gateway._attach_validation`, of what `extract_json` returned
  unfoldable pub attach : ModelResponse F → Value → Value → Result (ModelResponse F)
  unfolding judged
  attach resp schema null =
      ok (with_verdict resp resp.parsed false (codes "model output was not valid JSON" ∷ []))
  attach resp schema parsed = judged resp parsed (api.schema_errors parsed schema)

  unfoldable pub attach_validation : ModelResponse F → Value → Result (ModelResponse F)
  unfolding attach
  attach_validation resp schema = attach resp schema (extract_json api.loads resp.content)

  -- `none` is the `continue` of an escalation.
  unfoldable pub escalated : Bool → Result (ModelResponse F) → Result (Option (ModelResponse F))
  escalated escalate (ok resp) =
      ok (if is_invalid resp.schema_valid && escalate then none else some resp)
  escalated escalate (raised e) = raised e

  -- The body of the `try` after the call.
  unfoldable pub accept : Bool → Value → Tier → ModelResponse F → Result (Option (ModelResponse F))
  unfolding attach_validation escalated
  accept escalate schema tier resp =
      if truthy schema
      then escalated escalate (attach_validation (with_tier resp tier) schema)
      else ok (some (with_tier resp tier))

  module _ (ops : FloatOps F) (get_text : TextLookup) (prices : Value) where
    -- `Gateway._call`
    unfoldable pub call : CompleteRequest F → Target → Exec (Node W) (ModelResponse F)
    unfolding get_provider outside
    call req (provider_name, model) = do
      provider ← get_provider provider_name
      started ← outside api.perf_counter
      resp ← outside (api.ask provider req.messages model req.max_tokens req.temperature)
      ended ← outside api.perf_counter
      cost ←
          lift
            (cost_usd ops get_text prices provider_name model resp.input_tokens resp.output_tokens)
      pure (with_cost resp (api.milliseconds started ended) cost)

    -- One turn of the loop: all of the `try`.
    unfoldable pub attempt :
        Bool → CompleteRequest F → Tier × Target → Exec (Node W) (Option (ModelResponse F))
    unfolding call accept
    attempt escalate req (tier, target) = do
      resp ← call req target
      lift (accept escalate req.output_schema tier resp)

    exhausted : TaskKind → PyError → PyError
    exhausted kind last_err = runtime_error (
        codes "all routing tiers exhausted for task_kind=TaskKind."
        ++ codes (kind_value kind)
        ++ codes ": "
        ++ api.str_error last_err)

    -- What follows a turn of the loop.
    unfoldable pub next :
        (PyError → Exec (Node W) (ModelResponse F))
        → Result (Option (ModelResponse F))
        → Exec (Node W) (ModelResponse F)
    next more (ok (some resp)) = pure resp
    next more (ok none) = more (runtime_error (codes "schema validation failed"))
    next more (raised e) = more e

    -- The loop; it ends in the error with the last error's message.
    unfoldable pub run_attempts :
        Bool → CompleteRequest F → List (Tier × Target) → PyError → Exec (Node W) (ModelResponse F)
    unfolding attempt exhausted next
    run_attempts escalate req [] last_err n = raise (exhausted req.task_kind last_err) n
    run_attempts escalate req (a ∷ rest) last_err n =
        let more = run_attempts escalate req rest in
        let (r, m) = attempt escalate req a n in next more r m

    -- `Gateway.complete`; a route has a primary target, so `last_err` is set before it is read.
    unfoldable pub complete : Value → CompleteRequest F → Exec (Node W) (ModelResponse F)
    unfolding run_attempts
    complete table req = do
      route ← lift (resolve table req.task_kind req.budget_hint req.privacy)
      settings ← lift (fallback_settings table)
      escalate ← lift (get_or settings "escalate_on_schema_failure" (bool false))
      run_attempts (truthy escalate) req (attempts route) key_error
