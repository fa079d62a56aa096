-- ===== src/Orchestrator/Discovery/Validate.antt =====
-- discovery.py: the checks on one observation that an agent returned.
pub mod Sourced
pub mod Citations
pub mod Accounting
use auditcore.Base.{
  ℕ, ◌+◌, String, Option, none, some, List, [], ◌∷◌, ◌++◌, Bool, true, false, ◌&&◌, contains,
  if◌then◌else◌,
}
use auditcore.Base.Text.{Text, codes, decimal}
use auditcore.Base.Json.{
  Value, null, str, arr, nil, obj, end, Runtime, get_or, index, iterate, truthy, or_default, py_str,
}
use auditcore.Base.Error.{Result, ok, ◌>>=◌}
use auditcore.Base.Uuid.{Uuid, parse_uuid}
use auditcore.Orchestrator.Rows.{ObservationWrite}

-- `UUID(v)` if `_is_uuid(v)`: a text that parses.
unfoldable pub as_uuid : Value → Option Uuid
as_uuid (str s) = parse_uuid s
as_uuid _ = none

module _ (rt : Runtime) where
  -- The loop of `_validate_evidence`. `parsed` holds the ids that passed.
  unfoldable pub check_ids : List Uuid → List Uuid → List Value → List Uuid × Option Text
  check_ids valid parsed [] = (parsed, none)
  check_ids valid parsed (e ∷ rest) = elim (as_uuid e) [
    | none ↦ ([], some (codes "evidence_id " ++ (rt.repr e ++ codes " is not a UUID")))
    | some u ↦
        let next = check_ids valid (parsed ++ u ∷ []) rest in
        if contains valid u then next else (
          [],
          some (
              codes "cites evidence "
              ++ (py_str rt e ++ codes " that was not provided (fabricated provenance)")),
        )
  ]

  unfoldable pub validate_evidence : Value → List Uuid → Result (List Uuid × Option Text)
  unfolding check_ids
  validate_evidence raw valid = do
    raw_ids ← get_or raw "evidence_ids" (arr nil)
    if truthy raw_ids
        then (do ids ← iterate raw_ids; ok (check_ids valid [] ids))
        else ok ([], some (codes "cites no evidence"))

-- `_resolve_asset`
unfoldable pub known : List Uuid → Option Uuid → Option Uuid
known valid none = none
known valid (some u) = if contains valid u then some u else none

unfoldable pub resolve_asset : Value → List Uuid → Result (Option Uuid)
unfolding known
resolve_asset raw valid = do a ← get_or raw "asset_id" null; ok (known valid (as_uuid a))

-- The comprehension for `related`.
unfoldable pub related_ids : List Uuid → List Value → List Uuid
related_ids valid [] = []
related_ids valid (a ∷ rest) = elim (known valid (as_uuid a)) [
  | none ↦ related_ids valid rest
  | some u ↦ u ∷ related_ids valid rest
]

-- What one turn of the loop of `run_domain` does: it appends to `writes` or to `dropped`.
pub data Verdict : Type 0 where
  written : ObservationWrite → Verdict
  dropped : Text → Verdict

-- What `run_domain` has before the loop.
pub record Context : Type 0 where
  pub run_id : Uuid
  pub domain : String
  pub produced_by : Text
  pub model : String
  pub valid_evidence : List Uuid
  pub valid_assets : List Uuid

-- `writes` and `dropped` after a turn
abbrev pub tally : Verdict → List ObservationWrite × List Text → List ObservationWrite × List Text
tally (written w) (writes, drops) = (writes ++ w ∷ [], drops)
tally (dropped d) (writes, drops) = (writes, drops ++ d ∷ [])

module _ (rt : Runtime) (c : Context) where
  drop_reason : ℕ → Value → Text → Result Verdict
  drop_reason i raw reason = do
    topic ← get_or raw "topic" (str (codes "?"))
    ok (
        dropped (
          codes "obs["
          ++ (decimal i ++ (codes "] (" ++ (py_str rt topic ++ (codes "): " ++ reason))))))

  write_row : Value → List Uuid → Uuid → Result Verdict
  write_row raw ids asset_id = do
    listed ← get_or raw "related_asset_ids" (arr nil)
    others ← iterate listed
    topic ← index raw "topic"
    summary ← index raw "summary"
    detail ← index raw "detail"
    facts ← get_or raw "facts" (obj end)
    ok (
        written (record {
          run_id = c.run_id;
          asset_id = asset_id;
          domain = c.domain;
          topic = py_str rt topic;
          summary = py_str rt summary;
          detail = py_str rt detail;
          facts = or_default facts (obj end);
          related_asset_ids = related_ids c.valid_assets others;
          evidence_ids = ids;
          produced_by_agent = c.produced_by;
          model_used = c.model;
        }))

  place : ℕ → Value → List Uuid → Option Uuid → Result Verdict
  place i raw ids none = drop_reason i raw (codes "asset_id not in run assets")
  place i raw ids (some asset_id) = write_row raw ids asset_id

  judge : ℕ → Value → List Uuid × Option Text → Result Verdict
  judge i raw (ids, some reason) = drop_reason i raw reason
  judge i raw (ids, none) = do asset_id ← resolve_asset raw c.valid_assets; place i raw ids asset_id

  unfoldable pub observe : ℕ → Value → Result Verdict
  unfolding drop_reason write_row place judge
  observe i raw = do checked ← validate_evidence rt raw c.valid_evidence; judge i raw checked

  -- The loop of `run_domain`, from index `i`.
  unfoldable pub observe_all :
      ℕ
      → List Value
      → List ObservationWrite × List Text
      → Result (List ObservationWrite × List Text)
  unfolding observe
  observe_all i [] kept = ok kept
  observe_all i (raw ∷ rest) kept = do
    verdict ← observe i raw
    observe_all (i + 1) rest (tally verdict kept)
