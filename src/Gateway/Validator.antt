-- ===== src/Gateway/Validator.antt =====
-- validator.py: the JSON in the text that a model returned.
pub mod Slices
pub mod Extracted
use auditcore.Base.{ℕ, ◌+◌, ◌-◌, Option, none, some, [], ◌∷◌, ◌&&◌, drop, ◌==◌, if◌then◌else◌}
use auditcore.Base.Text.{Text, codes, starts_with}
use auditcore.Base.Json.{Value, null}
use auditcore.Base.Uuid.{strip, lstrip, is_space}

abbrev pub prepend : ℕ → Option Text → Option Text
prepend c none = none
prepend c (some s) = some (c ∷ s)

-- The shortest text up to a `closer` after which only space stands before the closing fence.
until_fence : ℕ → Text → Option Text
until_fence closer [] = none
until_fence closer (c ∷ s) =
    let more = prepend c (until_fence closer s) in
    if c == closer && starts_with (lstrip is_space s) (codes "```") then some (c ∷ []) else more

-- `\{.*?\}` or `\[.*?\]`, and the closing fence
fenced : Text → Option Text
unfolding until_fence
fenced [] = none
fenced (c ∷ s) =
    let block = λ (closer : ℕ). prepend c (until_fence closer s) in
    if c == b'{' then block b'}' else if c == b'[' then block b']' else none

-- A match of the fence expression at the start of a text: its group.
fence_at : Text → Option Text
unfolding fenced
fence_at s =
    if starts_with s (codes "```")
    then (let body = drop 3 s in
        if starts_with body (codes "json")
        then fenced (lstrip is_space (drop 4 body))
        else fenced (lstrip is_space body))
    else none

-- `_FENCE_RE.search(text)`
unfoldable pub search_fence : Text → Option Text
unfolding fence_at
search_fence [] = none
search_fence (c ∷ s) = elim (fence_at (c ∷ s)) [ some t ↦ some t | none ↦ search_fence s ]

-- `text[text.find(opener):]`; empty if there is none
unfoldable pub from_opener : ℕ → Text → Text
from_opener opener [] = []
from_opener opener (c ∷ s) = let more = from_opener opener s in if c == opener then c ∷ s else more

-- The text up to where the depth first is 0 again.
unfoldable pub balanced : ℕ → ℕ → ℕ → Text → Option Text
balanced opener closer depth [] = none
balanced opener closer depth (c ∷ s) =
    let deeper = prepend c (balanced opener closer (depth + 1) s) in
    let same = prepend c (balanced opener closer depth s) in
    let shallower = prepend c (balanced opener closer (depth - 1) s) in
    if c == opener
    then deeper
    else if c == closer
    then (if depth == 1 then some (c ∷ []) else shallower)
    else same

-- `json.loads`; `none` is a JSONDecodeError.
module _ (loads : Text → Option Value) where
  abbrev or_null : Option Value → Value
  or_null none = null
  or_null (some v) = v

  -- The first block of one kind of brackets, if it is JSON.
  unfoldable pub block : ℕ → ℕ → Text → Option Value
  block opener closer text = elim (balanced opener closer 0 (from_opener opener text)) [
    | none ↦ none
    | some t ↦ loads t
  ]

  fallback : Text → Value
  fallback text = elim (block b'{' b'}' text) [ some v ↦ v | none ↦ or_null (block b'[' b']' text) ]

  after_loads : Text → Value
  unfolding fallback
  after_loads text = elim (search_fence text) [ some t ↦ or_null (loads t) | none ↦ fallback text ]

  extract : Text → Value
  unfolding after_loads
  extract [] = null
  extract (c ∷ s) = elim (loads (c ∷ s)) [ some v ↦ v | none ↦ after_loads (c ∷ s) ]

  -- `extract_json`; None is `null`, which JSON's null is taken for too.
  unfoldable pub extract_json : Text → Value
  unfolding extract
  extract_json text = extract (strip is_space text)
