-- ===== src/Orchestrator/Discovery/Validate/Sourced.antt =====
-- discovery.py: the provenance of the rows that `run_domain` returns.
use auditcore.Base.{
  ℕ, ◌<◌, ◌+◌, ◌≡◌, ◌≢◌, refl, ap, inl, inr, Option, none, some, List, [], ◌∷◌, ◌++◌, contains,
  contains→Mem, All, All-append, length, length-append, Bool-cases, Option-cases, arith,
}
use mathlib.Core.List.{Mem}
use auditcore.Base.Text.{Text}
use auditcore.Base.Json.{Value, Runtime, get_or, index, iterate, iterate-truthy, truthy}
use auditcore.Base.Error.{OnOk, OnOk-bind, OnOk-ok}
use auditcore.Base.Uuid.{Uuid}
use auditcore.Orchestrator.Rows.{ObservationWrite}
use auditcore.Orchestrator.Discovery.Validate.{
  as_uuid, check_ids, validate_evidence, known, related_ids, resolve_asset, Verdict, written,
  dropped, Context, drop_reason, write_row, place, judge, observe, observe_all, tally,
}

-- The row's provenance is real, and it says where it comes from.
pub record IsSourced (c : Context) (w : ObservationWrite) : Type 0 where
  pub cites : w.evidence_ids ≢ []
  pub evidence : All (λ u. Mem u c.valid_evidence) w.evidence_ids
  pub asset : Mem w.asset_id c.valid_assets
  pub related : All (λ u. Mem u c.valid_assets) w.related_asset_ids
  pub run : w.run_id ≡ c.run_id
  pub domain : w.domain ≡ c.domain
  pub agent : w.produced_by_agent ≡ c.produced_by
  pub model : w.model_used ≡ c.model

-- What a check that gives no reason to drop says of the ids.
abbrev Checked : List Uuid → ℕ → List Uuid × Option Text → Type 0
Checked valid n (ids, some reason) = Unit
Checked valid n (ids, none) = All (λ u. Mem u valid) ids × (length ids ≡ n)

module _ (rt : Runtime) where
  check_ids-Checked :
      (valid parsed : List Uuid) (es : List Value)
      → All (λ u. Mem u valid) parsed
      → Checked valid (length parsed + length es) (check_ids rt valid parsed es)
  unfolding check_ids
  check_ids-Checked valid parsed [] h = (h, omega arith)
  check_ids-Checked valid parsed (e ∷ es) h = elim (Option-cases (as_uuid e)) [
    | inl bad ↦ rw (bad, check_ids) tt
    | inr (u, good) ↦ elim (Bool-cases (contains valid u)) [
      | inl old ↦
          rw (good, check_ids)
            (rw old (
              rw (longer u) (
                check_ids-Checked valid (parsed ++ u ∷ []) es
                  (All-append _ parsed (u ∷ []) h (contains→Mem valid u old, tt)))))
      | inr new ↦ rw (good, check_ids) (rw new tt)
    ]
  ]
    where
      longer : (u : Uuid) → length parsed + length (e ∷ es) ≡ length (parsed ++ u ∷ []) + length es
      longer u = omega (arith, length-append parsed (u ∷ []))

  validate_evidence-Checked :
      (raw : Value) (valid : List Uuid)
      → OnOk (λ r. (n : ℕ) × (0 < n) × Checked valid n r) (validate_evidence rt raw valid)
  unfolding validate_evidence
  validate_evidence-Checked raw valid = OnOk-bind (get_or raw "evidence_ids" _) _ λ v _.
      elim (Bool-cases (truthy v)) [
        | inl t ↦ rw t (
            OnOk-bind (iterate v) _ λ es e. OnOk-ok _ (
              0 + length es,
              omega (arith, iterate-truthy v es t e),
              check_ids-Checked valid [] es tt,
            ))
        | inr f ↦ rw f (OnOk-ok _ (1, omega arith, tt))
      ]

known-Mem : (valid : List Uuid) (o : Option Uuid) {u : Uuid} → known valid o ≡ some u → Mem u valid
unfolding known
known-Mem valid none h = cc
known-Mem valid (some v) {u} h = contains→Mem valid u (ground arith)

related_ids-Mem :
    (valid : List Uuid) (vs : List Value) → All (λ u. Mem u valid) (related_ids valid vs)
unfolding related_ids
related_ids-Mem valid [] = tt
related_ids-Mem valid (v ∷ vs) = elim (Option-cases (known valid (as_uuid v))) [
  | inl e ↦ rw (e, related_ids) (related_ids-Mem valid vs)
  | inr (u, e) ↦ rw (e, related_ids) (known-Mem valid (as_uuid v) e, related_ids-Mem valid vs)
]

resolve_asset-Mem :
    (raw : Value) (valid : List Uuid)
    → OnOk (λ o. (a : Uuid) → o ≡ some a → Mem a valid) (resolve_asset raw valid)
unfolding resolve_asset
resolve_asset-Mem raw valid =
    OnOk-bind (get_or raw "asset_id" _) _
      λ v _. OnOk-ok (known valid (as_uuid v)) (λ a p. known-Mem valid (as_uuid v) p)

-- A turn of the loop writes nothing, or a sourced row.
abbrev Fine : Context → Verdict → Type 0
Fine c (written w) = IsSourced c w
Fine c (dropped d) = Unit

module _ (rt : Runtime) (c : Context) where
  drop_reason-Fine : (i : ℕ) (raw : Value) (d : Text) → OnOk (Fine c) (drop_reason rt c i raw d)
  unfolding drop_reason
  drop_reason-Fine i raw d = OnOk-bind (get_or raw "topic" _) _ (λ t _. OnOk-ok _ tt)

  write_row-Fine :
      (raw : Value) (ids : List Uuid) (a : Uuid)
      → ids ≢ []
      → All (λ u. Mem u c.valid_evidence) ids
      → Mem a c.valid_assets
      → OnOk (Fine c) (write_row rt c raw ids a)
  unfolding write_row
  write_row-Fine raw ids a some_ids good_ids good_asset =
      OnOk-bind (get_or raw "related_asset_ids" _) _ λ l _. OnOk-bind (iterate l) _ λ others _.
        OnOk-bind (index raw "topic") _ λ t _. OnOk-bind (index raw "summary") _ λ s _.
          OnOk-bind (index raw "detail") _ λ d _. OnOk-bind (get_or raw "facts" _) _ λ f _.
            OnOk-ok _ (record {
              cites = some_ids;
              evidence = good_ids;
              asset = good_asset;
              related = related_ids-Mem c.valid_assets others;
              run = refl;
              domain = refl;
              agent = refl;
              model = refl;
            })

  place-Fine :
      (i : ℕ) (raw : Value) (ids : List Uuid) (o : Option Uuid)
      → ids ≢ []
      → All (λ u. Mem u c.valid_evidence) ids
      → ((a : Uuid) → o ≡ some a → Mem a c.valid_assets)
      → OnOk (Fine c) (place rt c i raw ids o)
  unfolding place
  place-Fine i raw ids none n g h = drop_reason-Fine i raw _
  place-Fine i raw ids (some a) n g h = write_row-Fine raw ids a n g (h a refl)

  judge-Fine :
      (i : ℕ) (raw : Value) (n : ℕ) (checked : List Uuid × Option Text)
      → 0 < n
      → Checked c.valid_evidence n checked
      → OnOk (Fine c) (judge rt c i raw checked)
  unfolding judge resolve_asset
  judge-Fine i raw n (ids, some d) pos h = drop_reason-Fine i raw d
  judge-Fine i raw n (ids, none) pos (good, len) =
      OnOk-bind (resolve_asset raw c.valid_assets) _ λ o e.
        place-Fine i raw ids o (λ p. absurd (omega (arith, ap length p))) good
          (λ a p. (resolve_asset-Mem raw c.valid_assets).at o e a p)

  observe-Fine : (i : ℕ) (raw : Value) → OnOk (Fine c) (observe rt c i raw)
  unfolding observe
  observe-Fine i raw = OnOk-bind (validate_evidence rt raw c.valid_evidence) _ λ checked e.
      let (n, pos, h) = (validate_evidence-Checked rt raw c.valid_evidence).at checked e in
      judge-Fine i raw n checked pos h

  tally-IsSourced :
      (v : Verdict) (kept : List ObservationWrite × List Text)
      → Fine c v
      → All (IsSourced c) kept.0
      → All (IsSourced c) (tally v kept).0
  tally-IsSourced (written w) (ws, ds) f h = All-append (IsSourced c) ws (w ∷ []) h (f, tt)
  tally-IsSourced (dropped d) (ws, ds) f h = h

  -- The rows that the loop adds are sourced.
  pub observe_all-IsSourced :
      (i : ℕ) (raws : List Value) (kept : List ObservationWrite × List Text)
      → All (IsSourced c) kept.0
      → OnOk (λ r. All (IsSourced c) r.0) (observe_all rt c i raws kept)
  unfolding observe_all
  observe_all-IsSourced i [] kept h = OnOk-ok kept h
  observe_all-IsSourced i (raw ∷ rest) kept h = OnOk-bind (observe rt c i raw) _ λ v e.
      observe_all-IsSourced (i + 1) rest (tally v kept)
        (tally-IsSourced v kept ((observe-Fine i raw).at v e) h)
