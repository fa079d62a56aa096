-- ===== src/Gateway/Providers.antt =====
-- providers/anthropic.py, openai.py and google.py: the calls of the SDKs.
use auditcore.Base.{
  ℕ, String, Option, none, some, List, [], ◌∷◌, ◌++◌, Bool, not, filter, map, str_eq,
}
use auditcore.Base.Text.{Text, codes, join}
use auditcore.Base.Json.{null}
use auditcore.Base.Error.{Result, ok, raised, lookup_error}
use auditcore.Base.Exec.{Exec, pure, lift, ◌>>=◌, ◌>>◌}
use auditcore.Gateway.Types.{primary, Message, ModelResponse}

-- The tokens that a usage record has; 0 where it lacks the attribute.
pub record Usage : Type 0 where
  pub input_tokens : Option ℕ
  pub output_tokens : Option ℕ

-- The SDKs and the clock. `client` makes a client with a key, if there is one.
pub record Sdk (W F : Type 0) : Type 0 where
  pub client : Option Text → Exec W (Unit {0})
  pub perf_counter : Exec W F
  -- `int((t - t0) * 1000)`
  pub milliseconds : F → F → ℕ
  -- `messages.create`: the texts of the blocks that have one
  pub create_message :
      Text → Option Text → List Message → ℕ → F → Exec W (List (Option Text) × Usage)
  -- `chat.completions.create`: the content of each choice
  pub create_completion : Text → List Message → ℕ → F → Exec W (List (Option Text) × Usage)
  -- `generate_content` of a model, with its text
  pub generate_content : Text → Text → ℕ → F → Exec W (Option Text × Usage)
  pub zero : F
  -- `role.upper()`
  pub upper : String → Text

abbrev or_zero : Option ℕ → ℕ
or_zero none = 0
or_zero (some n) = n

-- `s or ""`
abbrev or_empty : Option Text → Text
or_empty none = []
or_empty (some s) = s

-- `s or None`
abbrev non_empty : Text → Option Text
non_empty [] = none
non_empty (c ∷ s) = some (c ∷ s)

abbrev is_system : Message → Bool
is_system m = str_eq m.role "system"

-- The parts joined by an empty line.
abbrev paragraphs : List Text → Text
paragraphs = join (10 ∷ 10 ∷ [])

unfoldable pub system_of : List Message → Text
system_of messages = paragraphs (map (λ m. m.content) (filter is_system messages))

abbrev conversation : List Message → List Message
conversation = filter (λ m. not (is_system m))

-- `"".join(block.text for block in resp.content if hasattr(block, "text"))`
unfoldable pub block_texts : List (Option Text) → Text
block_texts [] = []
block_texts (b ∷ bs) = or_empty b ++ block_texts bs

-- `choices[0].message.content or ""`; an IndexError is a LookupError.
unfoldable pub first_choice : List (Option Text) → Result Text
first_choice [] = raised (lookup_error (codes "list index out of range"))
first_choice (c ∷ cs) = ok (or_empty c)

module _ {W F : Type 0} (sdk : Sdk W F) (api_key : Text) where
  unfoldable pub response : String → Text → Text → Usage → ℕ → ModelResponse F
  response provider model content usage latency_ms = record {
    content = content;
    parsed = null;
    provider = codes provider;
    model = model;
    tier_used = primary;
    input_tokens = or_zero usage.input_tokens;
    output_tokens = or_zero usage.output_tokens;
    cost_usd = sdk.zero;
    latency_ms = latency_ms;
    schema_valid = none;
    schema_errors = [];
  }

  unfoldable pub anthropic_complete : List Message → Text → ℕ → F → Exec W (ModelResponse F)
  unfolding response system_of block_texts
  anthropic_complete messages model max_tokens temperature = do
    sdk.client (non_empty api_key)
    t0 ← sdk.perf_counter
    (content, usage) ←
        sdk.create_message model (non_empty (system_of messages)) (conversation messages) max_tokens
          temperature
    t ← sdk.perf_counter
    pure (response "anthropic" model (block_texts content) usage (sdk.milliseconds t t0))

  unfoldable pub openai_complete : List Message → Text → ℕ → F → Exec W (ModelResponse F)
  unfolding response first_choice
  openai_complete messages model max_tokens temperature = do
    sdk.client (non_empty api_key)
    t0 ← sdk.perf_counter
    (choices, usage) ← sdk.create_completion model messages max_tokens temperature
    t ← sdk.perf_counter
    content ← lift (first_choice choices)
    pure (response "openai" model content usage (sdk.milliseconds t t0))

  -- The prompt of `generate_content`.
  unfoldable pub prompt_of : List Message → Text
  unfolding system_of
  prompt_of messages =
      let history =
        paragraphs
          (map (λ m. sdk.upper m.role ++ (codes ": " ++ m.content)) (conversation messages)) in
      elim (non_empty (system_of messages)) [
        | none ↦ history
        | some system ↦ system ++ ((10 ∷ 10 ∷ []) ++ history)
      ]

  unfoldable pub google_complete : List Message → Text → ℕ → F → Exec W (ModelResponse F)
  unfolding response prompt_of
  google_complete messages model max_tokens temperature = do
    sdk.client (non_empty api_key)
    t0 ← sdk.perf_counter
    (text, usage) ← sdk.generate_content model (prompt_of messages) max_tokens temperature
    t ← sdk.perf_counter
    pure (response "google" model (or_empty text) usage (sdk.milliseconds t t0))
