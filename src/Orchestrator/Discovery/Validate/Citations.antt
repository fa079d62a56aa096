-- ===== src/Orchestrator/Discovery/Validate/Citations.antt =====
-- discovery.py: observations that quote the ids of the prompt, and observations that do not.
use auditcore.Base.{
  ℕ, ◌<◌, ◌^◌, ◌≡◌, ◌≢◌, refl, sym, ap, ◌∙◌, none, some, List, [], ◌∷◌, ◌++◌, Bool, true, false,
  map, contains, contains→Mem, Mem→contains, All,
}
use mathlib.Core.List.{Mem, append-nil, append_assoc}
use auditcore.Base.Text.{codes, decimal}
use auditcore.Base.Json.{
  Value, str, arr, obj, end, Fields, from_items, Runtime, lookup, get_or-there, index-there,
  iterate-from_items, truthy, or_default, py_str,
}
use auditcore.Base.Error.{ok}
use auditcore.Base.Uuid.{Uuid, print_uuid}
use auditcore.Base.Uuid.RoundTrip.{parse_uuid-print_uuid}
use auditcore.Orchestrator.Rows.{ObservationWrite}
use auditcore.Orchestrator.Discovery.Validate.{
  as_uuid, check_ids, validate_evidence, known, related_ids, resolve_asset, written, dropped,
  Context, drop_reason, write_row, place, judge, observe,
}

-- An id as the prompt shows it.
abbrev pub quoted : Uuid → Value
quoted u = str (print_uuid u)

-- An id of the set, in the range of a UUID.
abbrev pub Given : List Uuid → Uuid → Type 0
Given valid u = Mem u valid × (u < 2 ^ 128)

as_uuid-quoted : (u : Uuid) → u < 2 ^ 128 → as_uuid (quoted u) ≡ some u
unfolding as_uuid
as_uuid-quoted u h = parse_uuid-print_uuid u h

module _ (rt : Runtime) where
  check_ids-pass :
      (valid parsed : List Uuid) (v : Value) (u : Uuid) (rest : List Value)
      → as_uuid v ≡ some u
      → contains valid u ≡ true
      → check_ids rt valid parsed (v ∷ rest) ≡ check_ids rt valid (parsed ++ u ∷ []) rest
  unfolding check_ids
  check_ids-pass valid parsed v u rest p n = rw (p, check_ids) (rw n)

  -- Ids that were given pass, in their order.
  check_ids-Given :
      (valid parsed good : List Uuid) (rest : List Value)
      → All (Given valid) good
      → check_ids rt valid parsed (map quoted good ++ rest)
        ≡ check_ids rt valid (parsed ++ good) rest
  check_ids-Given valid parsed [] rest h = rw append-nil
  check_ids-Given valid parsed (u ∷ us) rest ((m, b), h) =
      check_ids-pass valid parsed (quoted u) u (map quoted us ++ rest) (as_uuid-quoted u b)
        (Mem→contains valid u m)
      ∙ check_ids-Given valid (parsed ++ u ∷ []) us rest h
      ∙ rw append_assoc

  check_ids-foreign :
      (valid parsed : List Uuid) (v : Value) (u : Uuid) (rest : List Value)
      → as_uuid v ≡ some u
      → contains valid u ≡ false
      → check_ids rt valid parsed (v ∷ rest) ≡ (
        [],
        some (
            codes "cites evidence "
            ++ (py_str rt v ++ codes " that was not provided (fabricated provenance)")),
      )
  unfolding check_ids
  check_ids-foreign valid parsed v u rest p n = rw (p, check_ids) (rw n)

  validate_evidence-listed :
      (fs : Fields) (valid : List Uuid) (vs : List Value)
      → vs ≢ []
      → lookup "evidence_ids" fs ≡ some (arr (from_items vs))
      → validate_evidence rt (obj fs) valid ≡ ok (check_ids rt valid [] vs)
  unfolding validate_evidence truthy from_items
  validate_evidence-listed fs valid [] n e = absurd (n refl)
  validate_evidence-listed fs valid (v ∷ vs) n e =
      rw (get_or-there fs "evidence_ids" e, iterate-from_items (v ∷ vs))

map-ne-nil : (us : List Uuid) → us ≢ [] → map quoted us ≢ []
map-ne-nil [] n = absurd (n refl)
map-ne-nil (u ∷ us) n = λ p. cc

append-ne-nil : (us : List Uuid) (v : Value) (vs : List Value) → map quoted us ++ v ∷ vs ≢ []
append-ne-nil [] v vs = λ p. cc
append-ne-nil (u ∷ us) v vs = λ p. cc

known-Given :
    (valid : List Uuid) (u : Uuid) → Given valid u → known valid (as_uuid (quoted u)) ≡ some u
unfolding known
known-Given valid u (m, b) = rw (as_uuid-quoted u b) (rw (Mem→contains valid u m))

related_ids-Given :
    (valid us : List Uuid) → All (Given valid) us → related_ids valid (map quoted us) ≡ us
unfolding related_ids
related_ids-Given valid [] h = refl
related_ids-Given valid (u ∷ us) (g, h) =
    rw (known-Given valid u g, related_ids)
      (ap (λ (t : List Uuid). u ∷ t) (related_ids-Given valid us h))

-- The object says what the row says, with each id as the prompt shows it.
pub record Encodes (fs : Fields) (w : ObservationWrite) : Type 0 where
  pub asset_id : lookup "asset_id" fs ≡ some (quoted w.asset_id)
  pub evidence_ids : lookup "evidence_ids" fs ≡ some (arr (from_items (map quoted w.evidence_ids)))
  pub related_asset_ids :
      lookup "related_asset_ids" fs ≡ some (arr (from_items (map quoted w.related_asset_ids)))
  pub topic : lookup "topic" fs ≡ some (str w.topic)
  pub summary : lookup "summary" fs ≡ some (str w.summary)
  pub detail : lookup "detail" fs ≡ some (str w.detail)
  pub facts : lookup "facts" fs ≡ some w.facts
  -- a value that is taken for true, or the empty object
  pub facts_kept : or_default w.facts (obj end) ≡ w.facts

-- The row names the run, the agent and the model at hand, and ids that were given.
pub record IsCited (c : Context) (w : ObservationWrite) : Type 0 where
  pub cites : w.evidence_ids ≢ []
  pub evidence : All (Given c.valid_evidence) w.evidence_ids
  pub asset : Given c.valid_assets w.asset_id
  pub related : All (Given c.valid_assets) w.related_asset_ids
  pub run : w.run_id ≡ c.run_id
  pub domain : w.domain ≡ c.domain
  pub agent : w.produced_by_agent ≡ c.produced_by
  pub model : w.model_used ≡ c.model

module _ (rt : Runtime) (c : Context) (fs : Fields) (w : ObservationWrite) (e : Encodes fs w)
    (h : IsCited c w) where
  resolve_asset-given : resolve_asset (obj fs) c.valid_assets ≡ ok (some w.asset_id)
  unfolding resolve_asset
  resolve_asset-given =
      rw (get_or-there fs "asset_id" e.asset_id)
        (ap ok (known-Given c.valid_assets w.asset_id h.asset))

  row_path :
      (facts : Value) (others : List Uuid)
      → facts ≡ w.facts
      → others ≡ w.related_asset_ids
      → ◌≡◌ {A = ObservationWrite}
          (record {
            run_id = c.run_id;
            asset_id = w.asset_id;
            domain = c.domain;
            topic = w.topic;
            summary = w.summary;
            detail = w.detail;
            facts = facts;
            related_asset_ids = others;
            evidence_ids = w.evidence_ids;
            produced_by_agent = c.produced_by;
            model_used = c.model;
          })
          w
  row_path facts others p q = λ i. record {
    run_id = sym h.run i;
    asset_id = w.asset_id;
    domain = sym h.domain i;
    topic = w.topic;
    summary = w.summary;
    detail = w.detail;
    facts = p i;
    related_asset_ids = q i;
    evidence_ids = w.evidence_ids;
    produced_by_agent = sym h.agent i;
    model_used = sym h.model i;
  }

  write_row-given : write_row rt c (obj fs) w.evidence_ids w.asset_id ≡ ok (written w)
  unfolding write_row py_str
  write_row-given =
      rw
        (
          get_or-there fs "related_asset_ids" e.related_asset_ids,
          iterate-from_items (map quoted w.related_asset_ids),
          index-there fs "topic" e.topic,
          index-there fs "summary" e.summary,
          index-there fs "detail" e.detail,
          get_or-there fs "facts" e.facts,
        )
        (ap (λ (r : ObservationWrite). ok (written r))
          (row_path _ _ e.facts_kept
            (related_ids-Given c.valid_assets w.related_asset_ids h.related)))

  check_ids-cited :
      check_ids rt c.valid_evidence [] (map quoted w.evidence_ids) ≡ (w.evidence_ids, none)
  unfolding check_ids
  check_ids-cited =
      ap (check_ids rt c.valid_evidence []) (sym (append-nil (map quoted w.evidence_ids)))
      ∙ check_ids-Given rt c.valid_evidence [] w.evidence_ids [] h.evidence

  -- If an object has the fields of a row, with each id as the prompt shows it, and the row cites
  -- at least one item of evidence, and evidence and assets that were given only (with ids below 2 ^ 128), and is of the
  -- run, the domain, the agent and the model at hand, then the object becomes that row. Its facts
  -- are the empty object, or are taken for true.
  pub observe-IsCited : (i : ℕ) → observe rt c i (obj fs) ≡ ok (written w)
  unfolding observe judge place
  observe-IsCited i =
      rw
        (
          validate_evidence-listed rt fs c.valid_evidence (map quoted w.evidence_ids)
              (map-ne-nil w.evidence_ids h.cites) e.evidence_ids,
          check_ids-cited,
        )
        (rw resolve_asset-given write_row-given)

module _ (rt : Runtime) (c : Context) (fs : Fields) where
  -- If the list of evidence of an object with a topic starts with ids that were given, as the prompt
  -- shows them, and the next value is a UUID that was not given, then the observation is dropped,
  -- whatever else it holds, and the reason names its index, its topic and that value.
  pub observe-foreign :
      (i : ℕ) (good : List Uuid) (v : Value) (u : Uuid) (rest : List Value) (topic : Value)
      → All (Given c.valid_evidence) good
      → as_uuid v ≡ some u
      → ¬ (Mem u c.valid_evidence)
      → lookup "evidence_ids" fs ≡ some (arr (from_items (map quoted good ++ v ∷ rest)))
      → lookup "topic" fs ≡ some topic
      → observe rt c i (obj fs)
        ≡ ok (
            dropped (
              codes "obs["
              ++ (decimal i
                  ++ (codes "] ("
                      ++ (py_str rt topic
                          ++ (codes "): "
                              ++ (codes "cites evidence "
                                  ++ (py_str rt v
                                      ++ codes
                                          " that was not provided (fabricated provenance)"))))))))
  unfolding observe judge drop_reason
  observe-foreign i good v u rest topic g p n e t =
      rw
        (
          validate_evidence-listed rt fs c.valid_evidence (map quoted good ++ v ∷ rest)
              (append-ne-nil good v rest) e,
          check_ids-Given rt c.valid_evidence [] good (v ∷ rest) g,
          check_ids-foreign rt c.valid_evidence good v u rest p
              (not_listed (contains c.valid_evidence u) refl),
        )
        (rw (get_or-there fs "topic" t))
    where
      not_listed : (b : Bool) → contains c.valid_evidence u ≡ b → b ≡ false
      not_listed true q = absurd (n (contains→Mem c.valid_evidence u q))
      not_listed false q = refl
