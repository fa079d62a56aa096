-- ===== src/Tests/Gateway.antt =====
-- Runs of the model gateway.
use auditcore.Base.{
  ℕ, ◌+◌, ◌*◌, ◌/◌, ◌-◌, ◌≡◌, ◌≢◌, refl, String, Option, none, some, List, [], ◌∷◌, true, false,
  if◌then◌else◌,
}
use auditcore.Base.Text.{Text, codes, text_eq, starts_with}
use auditcore.Base.Json.{
  Value, null, bool, str, arr, nil, cons, obj, end, field, get_or, truthy, lookup, index, iterate,
  items,
}
use auditcore.Base.Error.{ok}
use auditcore.Base.Uuid.{strip, is_space}
use auditcore.Base.Exec.{◌>>=◌}
use auditcore.Gateway.Validator.{extract_json, search_fence, balanced, from_opener, block}
use auditcore.Gateway.Validator.Extracted.{IsExtracted, extract_json-IsExtracted}
use auditcore.Gateway.Types.{
  reason, primary, secondary, RouteDecision, CompleteRequest, ModelResponse,
}
use auditcore.Gateway.Routing.{resolve, denied, fallback_settings, hashable, slot, decision}
use auditcore.Gateway.Routing.Privacy.{is_denied}
use auditcore.Gateway.Cost.{FloatOps, cost_usd}
use auditcore.Gateway.Complete.{Node, Outside, complete}
use auditcore.Gateway.Complete.Denied.{LeavesAlone, complete-LeavesAlone}
use auditcore.Gateway.Complete.Safe.{IsValidated, complete-IsValidated}

abbrev slot_value : String → Value
slot_value provider =
    obj (field "provider" (str (codes provider)) (field "model" (str (codes "m")) end))

abbrev table : Value
table = obj (
    field "defaults"
      (obj (
        field "REASON"
          (obj (
            field "standard"
              (obj (
                field "primary" (slot_value "anthropic")
                  (field "secondary" (slot_value "openai") end)))
              end))
          end))
      (field "privacy_overrides"
        (obj (
          field "sensitive"
            (obj (field "deny_providers" (arr (cons (str (codes "anthropic")) nil)) end)) end))
        (field "fallback" (obj (field "escalate_on_schema_failure" (bool true) end)) end)))

abbrev standard_route : RouteDecision
standard_route = record {
  primary = (codes "anthropic", codes "m");
  secondary = some (codes "openai", codes "m");
  tertiary = none;
  critic_loop = false;
}

denied-table : denied table ≡ ok (str (codes "anthropic") ∷ [])
unfolding denied get_or lookup iterate hashable items
denied-table = refl

-- One provider answers with prose, the other with JSON.
abbrev content_of : Text → Text
content_of provider =
    if text_eq provider (codes "anthropic") then codes "Sorry." else codes "{\"a\": 1}"

abbrev answer_of : Text → Text → ModelResponse ℕ
answer_of provider model = record {
  content = content_of provider;
  parsed = null;
  provider = provider;
  model = model;
  tier_used = primary;
  input_tokens = 10;
  output_tokens = 20;
  cost_usd = 0;
  latency_ms = 0;
  schema_valid = none;
  schema_errors = [];
}

abbrev outside : Outside ℕ ℕ
outside = record {
  construct = λ name w. (ok tt, w);
  ask = λ provider messages model max_tokens temperature w. (ok (answer_of provider model), w + 1);
  perf_counter = λ w. (ok w, w);
  milliseconds = λ a b. (b - a) * 1000;
  loads =
      λ t. if text_eq t (codes "{\"a\": 1}") then some (obj (field "a" (bool true) end)) else none;
  schema_errors = λ v schema. ok [];
  str_error = λ e. codes "?";
}

abbrev ops : FloatOps ℕ
ops = record {
  zero = 0;
  million = 1000000;
  add = λ a b. a + b;
  times = λ n v. ok n;
  divide = λ a b. a / b;
}

abbrev json_request : CompleteRequest ℕ
json_request = record {
  task_kind = reason;
  messages = [];
  output_schema = obj (field "type" (str (codes "object")) end);
  tenant_id = "t";
  budget_hint = "standard";
  privacy = "standard";
  agent = "a";
  max_tokens = 100;
  temperature = 0;
}

-- The second tier's answer, since the first was no JSON.
abbrev escalated_response : ModelResponse ℕ
escalated_response = record {
  content = codes "{\"a\": 1}";
  parsed = obj (field "a" (bool true) end);
  provider = codes "openai";
  model = codes "m";
  tier_used = secondary;
  input_tokens = 10;
  output_tokens = 20;
  cost_usd = 0;
  latency_ms = 1000;
  schema_valid = some true;
  schema_errors = [];
}

abbrev start : Node ℕ
start = record { registered = []; outside = 0 }

complete-escalated :
    (complete outside ops (λ k v d. ok d) (obj end) table json_request start).0
    ≡ ok escalated_response
unfolding complete ◌>>=◌ resolve index lookup slot get_or decision fallback_settings text_eq codes
    cost_usd truthy extract_json strip is_space search_fence starts_with balanced from_opener block
complete-escalated = refl

complete-IsValidated_example : IsValidated outside json_request.output_schema escalated_response
unfolding fallback_settings get_or truthy lookup
complete-IsValidated_example =
    complete-IsValidated outside ops (λ k v d. ok d) (obj end) table json_request
      (obj (field "escalate_on_schema_failure" (bool true) end)) (bool true) refl refl refl refl
      start escalated_response complete-escalated

abbrev denied_set : List Value
denied_set = str (codes "anthropic") ∷ []

-- The world counts how often a provider of the set is asked.
abbrev counting : Outside ℕ ℕ
counting = record outside {
  construct = λ name w. (ok tt, if is_denied denied_set name then w + 1 else w);
  ask = λ provider messages model max_tokens temperature w.
      (ok (answer_of provider model), if is_denied denied_set provider then w + 1 else w);
}

counting-LeavesAlone : LeavesAlone counting denied_set (λ w. w ≡ 0)
counting-LeavesAlone = record {
  constructs = λ name a w h. rw a h;
  asks = λ name a messages model max_tokens temperature w h. rw a h;
  clock = λ w h. h;
}

abbrev sensitive_request : CompleteRequest ℕ
sensitive_request = record json_request { privacy = "sensitive" }

complete-LeavesAlone_example :
    (complete counting ops (λ k v d. ok d) (obj end) table sensitive_request start).1.outside ≡ 0
complete-LeavesAlone_example =
    complete-LeavesAlone counting ops (λ k v d. ok d) (obj end) table denied_set (λ w. w ≡ 0)
      sensitive_request start denied-table counting-LeavesAlone refl refl

-- A parser that takes what starts with a brace.
abbrev parser : Text → Option Value
parser s = if starts_with s (codes "{") then some (bool true) else none

extracted : extract_json parser (codes "The answer: {a [b] {c}} or {d}.") ≡ bool true
unfolding extract_json strip codes is_space starts_with search_fence block balanced from_opener
extracted = refl

not_null : bool true ≢ null
not_null e = cc

extract_json-IsExtracted_example :
    IsExtracted parser (codes "The answer: {a [b] {c}} or {d}.") (bool true)
extract_json-IsExtracted_example =
    extract_json-IsExtracted parser (codes "The answer: {a [b] {c}} or {d}.") (bool true) not_null
      extracted
