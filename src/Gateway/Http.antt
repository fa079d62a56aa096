-- ===== src/Gateway/Http.antt =====
-- main.py of the gateway: its two endpoints.
use auditcore.Base.{String, Option, none, some, [], ◌∷◌}
use auditcore.Base.Text.{Text}
use auditcore.Base.Json.{Value, null, bool, str, obj, fields}
use auditcore.Base.Error.{PyError, Result, ok, raised, http_error, ◌>>=◌}
use auditcore.Base.Exec.{Exec}
use auditcore.Gateway.Types.{TaskKind, Target, RouteDecision, CompleteRequest, ModelResponse}
use auditcore.Gateway.Routing.{resolve}
use auditcore.Gateway.Cost.{FloatOps, TextLookup}
use auditcore.Gateway.Complete.{Node, Outside, complete}

unfoldable pub target_json : Target → Value
unfolding fields
target_json (provider, model) =
    obj (fields (("provider", str provider) ∷ ("model", str model) ∷ []))

abbrev target_or_null : Option Target → Value
target_or_null none = null
target_or_null (some t) = target_json t

unfoldable pub route_json : RouteDecision → Value
unfolding fields
route_json d = obj (
    fields (
      ("primary", target_json d.primary)
      ∷ ("secondary", target_or_null d.secondary)
      ∷ ("tertiary", target_or_null d.tertiary)
      ∷ ("critic_loop", bool d.critic_loop)
      ∷ []))

-- POST /v1/resolve
unfoldable pub resolve_endpoint : Value → TaskKind → String → String → Result Value
unfolding resolve route_json
resolve_endpoint table kind budget privacy = do
  decision ← resolve table kind budget privacy
  ok (route_json decision)

-- Any exception becomes an answer of status 502.
unfoldable pub or_bad_gateway : {A : Type 0} → (PyError → Text) → Result A → Result A
or_bad_gateway str_error (ok a) = ok a
or_bad_gateway str_error (raised e) = raised (http_error 502 (str_error e))

module _ {W F : Type 0} (api : Outside W F) (ops : FloatOps F) (get_text : TextLookup)
    (prices : Value) where
  -- POST /v1/complete
  unfoldable pub complete_endpoint : Value → CompleteRequest F → Exec (Node W) (ModelResponse F)
  unfolding complete or_bad_gateway
  complete_endpoint table req n =
      let (r, n') = complete api ops get_text prices table req n in
      (or_bad_gateway api.str_error r, n')
