-- ===== src/Gateway/Validator/Extracted.antt =====
-- validator.py: the JSON that is extracted stands in the text.
use auditcore.Base.{ℕ, ◌≡◌, ◌≢◌, sym, ap, ◌∙◌, inl, inr, Option-cases, Option, some, [], ◌∷◌}
use auditcore.Base.Text.{Text}
use auditcore.Base.Json.{Value, null}
use auditcore.Base.Uuid.{strip, is_space}
use auditcore.Gateway.Validator.Slices.{
  IsSlice, IsSlice-self, IsSlice-trans, strip-IsSlice, search_fence-IsSlice, from_opener-IsSlice,
  IsStart-IsSlice, balanced-IsStart,
}
use auditcore.Gateway.Validator.{
  search_fence, from_opener, balanced, block, fallback, after_loads, extract, extract_json,
}

module _ (loads : Text → Option Value) where
  -- A value that `json.loads` makes of a slice of the text.
  pub record IsExtracted (text : Text) (v : Value) : Type 0 where
    pub slice : Text
    pub is_slice : IsSlice slice text
    pub is_json : loads slice ≡ some v

  IsExtracted-within :
      (u text : Text) (v : Value) → IsSlice u text → IsExtracted u v → IsExtracted text v
  IsExtracted-within u text v h k = record {
    slice = k.slice;
    is_slice = IsSlice-trans k.slice u text k.is_slice h;
    is_json = k.is_json;
  }

  block-IsExtracted :
      (opener closer : ℕ) (text : Text) (v : Value)
      → block loads opener closer text ≡ some v
      → IsExtracted text v
  unfolding block
  block-IsExtracted opener closer text v e =
      elim (Option-cases (balanced opener closer 0 (from_opener opener text))) [
        | inl missed ↦ let e' = (rw (missed, block) at e) in cc
        | inr (t, found) ↦ record {
          slice = t;
          is_slice =
              IsSlice-trans t (from_opener opener text) text
                (IsStart-IsSlice (from_opener opener text) t
                  (balanced-IsStart opener closer 0 (from_opener opener text) t found))
                (from_opener-IsSlice opener text);
          is_json = rw (found, block) at e;
        }
      ]

  fallback-IsExtracted :
      (text : Text) (v : Value) → v ≢ null → fallback loads text ≡ v → IsExtracted text v
  unfolding fallback
  fallback-IsExtracted text v some_value e = elim (Option-cases (block loads b'{' b'}' text)) [
    | inr (w, found) ↦
        block-IsExtracted b'{' b'}' text v (found ∙ ap some (rw (found, fallback) at e))
    | inl missed ↦ elim (Option-cases (block loads b'[' b']' text)) [
      | inr (w, found) ↦
          block-IsExtracted b'[' b']' text v (found ∙ ap some (rw (missed, found, fallback) at e))
      | inl none_too ↦ absurd (some_value (sym (rw (missed, none_too, fallback) at e)))
    ]
  ]

  after_loads-IsExtracted :
      (text : Text) (v : Value) → v ≢ null → after_loads loads text ≡ v → IsExtracted text v
  unfolding after_loads
  after_loads-IsExtracted text v some_value e = elim (Option-cases (search_fence text)) [
    | inl missed ↦ fallback-IsExtracted text v some_value (rw (missed, after_loads) at e)
    | inr (t, found) ↦ elim (Option-cases (loads t)) [
      | inl bad ↦ absurd (some_value (sym (rw (found, bad, after_loads) at e)))
      | inr (w, good) ↦ record {
        slice = t;
        is_slice = search_fence-IsSlice text t found;
        is_json = good ∙ ap some (rw (found, good, after_loads) at e);
      }
    ]
  ]

  extract-IsExtracted :
      (text : Text) (v : Value) → v ≢ null → extract loads text ≡ v → IsExtracted text v
  unfolding extract
  extract-IsExtracted [] v some_value e = absurd (some_value (sym e))
  extract-IsExtracted (c ∷ s) v some_value e = elim (Option-cases (loads (c ∷ s))) [
    | inl missed ↦ after_loads-IsExtracted (c ∷ s) v some_value (rw (missed, extract) at e)
    | inr (w, good) ↦ record {
      slice = c ∷ s;
      is_slice = IsSlice-self (c ∷ s);
      is_json = good ∙ ap some (rw (good, extract) at e);
    }
  ]

  -- If `extract_json` finds a value in a text, other than None, then the text has a part, without a
  -- gap, of which `json.loads` makes that value.
  pub extract_json-IsExtracted :
      (text : Text) (v : Value) → v ≢ null → extract_json loads text ≡ v → IsExtracted text v
  unfolding extract_json
  extract_json-IsExtracted text v some_value e =
      IsExtracted-within (strip is_space text) text v (strip-IsSlice is_space text)
        (extract-IsExtracted (strip is_space text) v some_value e)
