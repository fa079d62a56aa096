-- ===== src/Gateway/Complete/Safe.antt =====
-- gateway.py: what a request with an output schema returns when the routing table escalates.
use mathlib.Core.Path.{subst}
use auditcore.Base.{
  ◌≡◌, refl, ap, ◌∙◌, sym, ◌≢◌, ◌⊎◌, inl, inr, ◌&&◌, Bool, true, false, Option, none, some, List,
  [], ◌∷◌, if◌then◌else◌,
}
use auditcore.Base.Text.{Text}
use auditcore.Base.Json.{Value, null, bool, int, float, str, arr, obj, get_or, truthy}
use auditcore.Base.Error.{PyError, key_error, Result, ok, raised, OnOk, OnOk-ok, OnOk-raised}
use auditcore.Base.Exec.{Exec, lift, ◌>>=◌}
use auditcore.Gateway.Types.{Tier, Target, RouteDecision, CompleteRequest, ModelResponse}
use auditcore.Gateway.Routing.{resolve, fallback_settings}
use auditcore.Gateway.Cost.{FloatOps, TextLookup}
use auditcore.Gateway.Validator.{extract_json}
use auditcore.Gateway.Complete.{
  Node, Outside, attach_validation, attach, judged, accept, escalated, attempt, next, run_attempts,
  complete, attempts, call, is_invalid, with_tier,
}

module _ {W F : Type 0} (api : Outside W F) (schema : Value) where
  -- The parsed value is the JSON in the content, and the schema has no error for it.
  pub record IsValidated (resp : ModelResponse F) : Type 0 where
    pub valid : resp.schema_valid ≡ some true
    pub from_content : extract_json api.loads resp.content ≡ resp.parsed
    pub there : resp.parsed ≢ null
    pub accepted : api.schema_errors resp.parsed schema ≡ ok []

  IsJudged : ModelResponse F → Type 0
  IsJudged resp = (resp.schema_valid ≡ some false) ⊎ IsValidated resp

  OnSome : Option (ModelResponse F) → Type 0
  OnSome none = Unit {0}
  OnSome (some resp) = IsValidated resp

  judged-IsJudged :
      (resp : ModelResponse F) (v : Value)
      → extract_json api.loads resp.content ≡ v
      → v ≢ null
      → (r : Result (List Text)) → api.schema_errors v schema ≡ r
      → OnOk IsJudged (judged api resp v r)
  unfolding judged IsJudged
  judged-IsJudged resp v h hv (ok []) e =
      OnOk-ok _ (inr (record { valid = refl; from_content = h; there = hv; accepted = e }))
  judged-IsJudged resp v h hv (ok (m ∷ ms)) e = OnOk-ok _ (inl refl)
  judged-IsJudged resp v h hv (raised x) e = OnOk-raised x

  attach-IsJudged :
      (resp : ModelResponse F) (v : Value)
      → extract_json api.loads resp.content ≡ v
      → OnOk IsJudged (attach api resp schema v)
  unfolding attach IsJudged
  attach-IsJudged resp null h = OnOk-ok _ (inl refl)
  attach-IsJudged resp (bool b) h = judged-IsJudged resp (bool b) h (λ e. cc) _ refl
  attach-IsJudged resp (int n) h = judged-IsJudged resp (int n) h (λ e. cc) _ refl
  attach-IsJudged resp (float x) h = judged-IsJudged resp (float x) h (λ e. cc) _ refl
  attach-IsJudged resp (str s) h = judged-IsJudged resp (str s) h (λ e. cc) _ refl
  attach-IsJudged resp (arr vs) h = judged-IsJudged resp (arr vs) h (λ e. cc) _ refl
  attach-IsJudged resp (obj fs) h = judged-IsJudged resp (obj fs) h (λ e. cc) _ refl

  if-OnSome :
      (b : Bool) (resp : ModelResponse F)
      → (b ≡ false → IsValidated resp)
      → OnOk OnSome (ok (if b then none else some resp))
  unfolding OnSome
  if-OnSome true resp h = OnOk-ok none tt
  if-OnSome false resp h = OnOk-ok (some resp) (h refl)

  IsJudged-IsValidated :
      (resp : ModelResponse F)
      → IsJudged resp
      → is_invalid resp.schema_valid && true ≡ false
      → IsValidated resp
  unfolding IsJudged
  IsJudged-IsValidated resp (inl invalid) h =
      let e = sym (ap (λ (o : Option Bool). is_invalid o && true) invalid) ∙ h in cc
  IsJudged-IsValidated resp (inr v) h = v

  escalated-OnSome :
      (r : Result (ModelResponse F)) → OnOk IsJudged r → OnOk OnSome (escalated api true r)
  unfolding escalated
  escalated-OnSome (raised e) q = OnOk-raised e
  escalated-OnSome (ok resp) q = if-OnSome _ resp (IsJudged-IsValidated resp (q.at resp refl))

  accept-OnSome :
      (tier : Tier) (resp : ModelResponse F)
      → truthy schema ≡ true
      → OnOk OnSome (accept api true schema tier resp)
  unfolding accept attach_validation
  accept-OnSome tier resp h =
      rw h (escalated-OnSome _ (attach-IsJudged (with_tier resp tier) _ refl))

  module _ (ops : FloatOps F) (get_text : TextLookup) (prices : Value) where
    next-IsValidated :
        (more : PyError → Exec (Node W) (ModelResponse F)) (n : Node W)
        → ((e : PyError) → OnOk IsValidated (more e n).0)
        → (r : Result (Option (ModelResponse F))) → OnOk OnSome r
        → OnOk IsValidated (next api ops get_text prices more r n).0
    unfolding next OnSome
    next-IsValidated more n h (ok none) q = h _
    next-IsValidated more n h (ok (some resp)) q = OnOk-ok resp (q.at (some resp) refl)
    next-IsValidated more n h (raised e) q = h e

    attempt-OnSome :
        (req : CompleteRequest F) (a : Tier × Target) (n : Node W)
        → req.output_schema ≡ schema
        → truthy schema ≡ true
        → OnOk OnSome (attempt api ops get_text prices true req a n).0
    unfolding attempt ◌>>=◌
    attempt-OnSome req a n e h = after (call api ops get_text prices req a.1 n)
      where
        after :
            (p : Result (ModelResponse F) × Node W)
            → OnOk OnSome
                ((lift p.0 >>= λ resp. lift (accept api true req.output_schema a.0 resp)) p.1).0
        after (ok resp, m) = rw e (accept-OnSome a.0 resp h)
        after (raised x, m) = OnOk-raised x

    run_attempts-IsValidated :
        (req : CompleteRequest F)
        → req.output_schema ≡ schema
        → truthy schema ≡ true
        → (todo : List (Tier × Target)) (last_err : PyError) (n : Node W)
        → OnOk IsValidated (run_attempts api ops get_text prices true req todo last_err n).0
    unfolding run_attempts
    run_attempts-IsValidated req e h [] last_err n = OnOk-raised _
    run_attempts-IsValidated req e h (a ∷ rest) last_err n =
        let m = (attempt api ops get_text prices true req a n).1 in
        next-IsValidated (run_attempts api ops get_text prices true req rest) m
          (λ x. run_attempts-IsValidated req e h rest x m)
          (attempt api ops get_text prices true req a n).0 (attempt-OnSome req a n e h)

module _ {W F : Type 0} (api : Outside W F) (ops : FloatOps F) (get_text : TextLookup)
    (prices table : Value) where
  run_attempts-escalating :
      (req : CompleteRequest F) (escalate : Bool)
      → escalate ≡ true
      → truthy req.output_schema ≡ true
      → (todo : List (Tier × Target)) (e : PyError) (n : Node W)
      → OnOk
          (IsValidated api req.output_schema)
          (run_attempts api ops get_text prices escalate req todo e n).0
  run_attempts-escalating req escalate h hr todo e n =
      rw h (run_attempts-IsValidated api req.output_schema ops get_text prices req refl hr todo e n)

  -- If the table's `escalate_on_schema_failure` is truthy and the request has an output schema
  -- that is not empty, then a response that `complete` returns is marked valid, its parsed value
  -- is the JSON that is extracted from its own content and is not null, and the schema has no
  -- error for that value.
  pub complete-IsValidated :
      (req : CompleteRequest F) (settings flag : Value)
      → fallback_settings table ≡ ok settings
      → get_or settings "escalate_on_schema_failure" (bool false) ≡ ok flag
      → truthy flag ≡ true
      → truthy req.output_schema ≡ true
      → (n : Node W) (resp : ModelResponse F)
      → (complete api ops get_text prices table req n).0 ≡ ok resp
      → IsValidated api req.output_schema resp
  unfolding complete ◌>>=◌
  complete-IsValidated req settings flag hs hf ht hr n resp =
      (routed (resolve table req.task_kind req.budget_hint req.privacy)).at resp
    where
      start : RouteDecision → Value → Exec (Node W) (ModelResponse F)
      start route f = run_attempts api ops get_text prices (truthy f) req (attempts route) key_error

      asked : RouteDecision → Value → Exec (Node W) (ModelResponse F)
      asked route s =
          lift (get_or s "escalate_on_schema_failure" (bool false)) >>= λ f. start route f

      routed :
          (r : Result RouteDecision)
          → OnOk
              (IsValidated api req.output_schema)
              ((lift r >>= λ route. (lift (fallback_settings table) >>= λ s. asked route s)) n).0
      routed (raised e) = OnOk-raised e
      routed (ok route) =
          subst
            (λ r. OnOk (IsValidated api req.output_schema) ((lift r >>= λ s. asked route s) n).0)
            (sym hs)
            (subst
              (λ r. OnOk (IsValidated api req.output_schema) ((lift r >>= λ f. start route f) n).0)
              (sym hf)
              (run_attempts-escalating req (truthy flag) ht hr (attempts route) key_error n))
