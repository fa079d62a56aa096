-- ===== src/Orchestrator/PgRepo/Sound.antt =====
-- PgRepo: the provenance of the rows in the table of observations.
use auditcore.Base.{
  ℕ, ◌≡◌, sym, ap, ◌∙◌, String, Option, none, some, List, [], ◌∷◌, ◌++◌, true, ◌&&◌, map, filter,
  filter-Mem_imp, All, All-append, All-map, Option-cases, inl, inr, str_eq, arith, ◌==◌,
}
use mathlib.Core.Path.{subst}
use mathlib.Core.List.{Mem, append_assoc}
use auditcore.Base.Sort.{sorted-All}
use auditcore.Base.Error.{Result, ok, raised, foreign, OnOk, OnOk-ok, OnOk-raised}
use auditcore.Base.Exec.Ensures.{Ensures, Ensures-pure}
use auditcore.Base.Uuid.{Uuid}
use auditcore.Database.{Fresh, AssetRecord, EvidenceRecord, ObservationRecord, Tables, transaction}
use auditcore.Orchestrator.Rows.{ObservationWrite}
use auditcore.Orchestrator.PgRepo.Statements.{
  is_parsed, evidence_row, or_empty, select_evidence, violation, insert_observation,
  observation_record, insert_observations,
}
use auditcore.Orchestrator.PgRepo.{
  World, in_db, read, change, evidence_for_category, assets_for_run, write_observations, pg_repo,
}
use auditcore.Orchestrator.Runner.Discover.Safe.{HasProvenance, RepoKeeps}

-- The ids of a run's normalized evidence, and of its assets.
abbrev pub normalized : Uuid → List EvidenceRecord → List Uuid
normalized run_id rows =
    map (λ e. e.id) (filter (λ e. e.run_id == run_id && is_parsed e.parsed) rows)

abbrev pub assets_of : Uuid → List AssetRecord → List Uuid
assets_of run_id rows = map (λ a. a.id) (filter (λ a. a.run_id == run_id) rows)

abbrev pub SourcedIn : List EvidenceRecord → List AssetRecord → ObservationRecord → Type 0
SourcedIn es as' o = HasProvenance o.run_id (normalized o.run_id es) (assets_of o.run_id as') o.row

-- Each observation in the table cites normalized evidence, and assets, of its own run.
abbrev pub IsSound : {F : Type 0} → Tables F → Type 0
IsSound t = All (SourcedIn t.evidence_items t.assets) t.observations

-- What a pass keeps of the tables: evidence, assets and sections as they were at its start, `t0`,
-- observations sourced in those, of which none is taken away.
pub record Holds {F : Type 0} (t0 t : Tables F) : Type 0 where
  pub evidence_same : t.evidence_items ≡ t0.evidence_items
  pub assets_same : t.assets ≡ t0.assets
  pub sections_same : t.report_sections ≡ t0.report_sections
  pub sound : All (SourcedIn t0.evidence_items t0.assets) t.observations
  pub added : List ObservationRecord
  pub grown : t.observations ≡ t0.observations ++ added

module _ {F N : Type 0} (tenant_id : String) (fresh : ℕ → Fresh) (H : Tables F → Type 0) where
  abbrev pub OnTables : World F N → Type 0
  OnTables w = H w.db.tables

  pub in_db-Ensures :
      {A : Type 0} {Q : A → Type 0} (body : Tables F → Result A × Tables F)
      → ((t : Tables F) → H t → H (body t).1)
      → ((t : Tables F) → H t → OnOk Q (body t).0)
      → Ensures OnTables (in_db tenant_id fresh body) Q
  unfolding in_db transaction
  in_db-Ensures {A} {Q} body keep give = record {
    keeps = λ w h. kept w.db.faults w.db.tables h;
    gives = λ w h. given w.db.faults w.db.tables h;
  }
    where
      settled :
          (t u : Tables F) (r : Result A) (faults : List (Option ℕ))
          → H t
          → H u
          → H (transaction (λ _. (r, u)) faults t).1.tables
      settled t u (ok a) [] ht hu = hu
      settled t u (raised e) [] ht hu = ht
      settled t u (ok a) (none ∷ fs) ht hu = hu
      settled t u (raised e) (none ∷ fs) ht hu = ht
      settled t u r (some e ∷ fs) ht hu = ht

      kept :
          (faults : List (Option ℕ)) (t : Tables F) → H t → H (transaction body faults t).1.tables
      kept [] t h = settled t (body t).1 (body t).0 [] h (keep t h)
      kept (none ∷ fs) t h = settled t (body t).1 (body t).0 (none ∷ fs) h (keep t h)
      kept (some e ∷ fs) t h = h

      same :
          (t u : Tables F) (r : Result A) (faults : List (Option ℕ))
          → OnOk Q r
          → OnOk Q (transaction (λ _. (r, u)) faults t).0
      same t u (ok a) [] q = q
      same t u (raised e) [] q = q
      same t u (ok a) (none ∷ fs) q = q
      same t u (raised e) (none ∷ fs) q = q
      same t u r (some e ∷ fs) q = OnOk-raised (foreign e)

      given : (faults : List (Option ℕ)) (t : Tables F) → H t → OnOk Q (transaction body faults t).0
      given [] t h = same t (body t).1 (body t).0 [] (give t h)
      given (none ∷ fs) t h = same t (body t).1 (body t).0 (none ∷ fs) (give t h)
      given (some e ∷ fs) t h = OnOk-raised (foreign e)

selected_is_normalized :
    (run_id : Uuid) (category : String) (e : EvidenceRecord)
    → (e.run_id == run_id && (str_eq e.category category && is_parsed e.parsed)) ≡ true
    → (e.run_id == run_id && is_parsed e.parsed) ≡ true
selected_is_normalized run_id category e h = ground arith

module _ {F : Type 0} (tenant_id : String) (fresh : ℕ → Fresh) (t0 : Tables F) (run_id : Uuid) where
  insert_observations-Holds :
      (ws : List ObservationWrite) (t : Tables F)
      → All
          (HasProvenance run_id (normalized run_id t0.evidence_items) (assets_of run_id t0.assets))
          ws
      → Holds t0 t
      → Holds t0 (insert_observations tenant_id fresh ws t).1
  unfolding insert_observations insert_observation
  insert_observations-Holds [] t hw h = h
  insert_observations-Holds (w ∷ ws) t (p, hw) h = elim (Option-cases (violation t w)) [
    | inr (code, e) ↦ rw (e, insert_observations) h
    | inl e ↦
        rw (e, insert_observations)
          (insert_observations-Holds ws (insert_observation tenant_id fresh w t) hw (record {
            evidence_same = h.evidence_same;
            assets_same = h.assets_same;
            sections_same = h.sections_same;
            sound = All-append _ t.observations _ h.sound (own, tt);
            added = h.added ++ observation_record tenant_id fresh w t.drawn ∷ [];
            grown =
                ap
                  (λ (os : List ObservationRecord).
                    os ++ observation_record tenant_id fresh w t.drawn ∷ [])
                  h.grown
                ∙ append_assoc t0.observations h.added _;
          }))
  ]
    where
      own :
          HasProvenance w.run_id
            (normalized w.run_id t0.evidence_items)
            (assets_of w.run_id t0.assets)
            w
      own =
          subst (λ r. HasProvenance r (normalized r t0.evidence_items) (assets_of r t0.assets) w)
            (sym p.run) p

module _ {F N : Type 0} (tenant_id : String) (fresh : ℕ → Fresh) (t0 : Tables F)
    (run_id : Uuid) where
  abbrev pub Kept : World F N → Type 0
  Kept = OnTables tenant_id fresh (Holds t0)

  read-Ensures :
      {A : Type 0} {Q : A → Type 0} (f : Tables F → A)
      → ((t : Tables F) → Holds t0 t → Q (f t))
      → Ensures Kept (read tenant_id fresh f) Q
  unfolding read
  read-Ensures f q =
      in_db-Ensures tenant_id fresh (Holds t0) _ (λ t h. h) (λ t h. OnOk-ok (f t) (q t h))

  change-Ensures :
      (f : Tables F → Tables F)
      → ((t : Tables F) → Holds t0 t → Holds t0 (f t))
      → Ensures Kept (change tenant_id fresh f) (λ _. Unit {0})
  unfolding change
  change-Ensures f k = in_db-Ensures tenant_id fresh (Holds t0) _ k (λ t h. OnOk-ok tt tt)

  evidence_for_category-Ensures :
      (category : String)
      → Ensures Kept
          (evidence_for_category tenant_id fresh run_id category)
          (All (λ e. Mem e.id (normalized run_id t0.evidence_items)))
  unfolding evidence_for_category select_evidence
  evidence_for_category-Ensures category = read-Ensures _ λ t h.
      All-map _ (λ e. evidence_row e (or_empty e.parsed)) _
        (sorted-All _ _ (select_evidence run_id category t.evidence_items) (
          rw (h.evidence_same) (
            filter-Mem_imp (λ e. e.id) _ _ (selected_is_normalized run_id category)
              t0.evidence_items)))

  assets_for_run-Ensures :
      Ensures Kept
        (assets_for_run tenant_id fresh run_id)
        (All (λ a. Mem a.id (assets_of run_id t0.assets)))
  unfolding assets_for_run
  assets_for_run-Ensures = read-Ensures _ λ t h. All-map _ _ _ (
      sorted-All _ _ (filter (λ a. a.run_id == run_id) t.assets)
        (rw (h.assets_same) (filter-Mem_imp (λ a. a.id) _ _ (λ a e. e) t0.assets)))

  write_observations-Ensures :
      (ws : List ObservationWrite)
      → All
          (HasProvenance run_id (normalized run_id t0.evidence_items) (assets_of run_id t0.assets))
          ws
      → Ensures Kept (write_observations tenant_id fresh ws) (λ _. Unit {0})
  unfolding write_observations
  write_observations-Ensures [] hw = Ensures-pure 0 tt
  write_observations-Ensures (w ∷ ws) hw =
      in_db-Ensures tenant_id fresh (Holds t0) _
        (λ t h. insert_observations-Holds tenant_id fresh t0 run_id (w ∷ ws) t hw h)
        (λ t h. record { at = λ n e. tt })

  pub pg_repo-RepoKeeps :
      RepoKeeps
        (pg_repo {F = F} {N = N} tenant_id fresh)
        Kept
        run_id
        (normalized run_id t0.evidence_items)
        (assets_of run_id t0.assets)
  unfolding pg_repo
  pg_repo-RepoKeeps = record {
    reads_evidence = evidence_for_category-Ensures;
    reads_assets = assets_for_run-Ensures;
    reads_categories = read-Ensures _ (λ t h. tt);
    writes = write_observations-Ensures;
    sets_status = λ status. change-Ensures _ (λ t h. record {
      evidence_same = h.evidence_same;
      assets_same = h.assets_same;
      sections_same = h.sections_same;
      sound = h.sound;
      added = h.added;
      grown = h.grown;
    });
    audits = λ entry. change-Ensures _ (λ t h. record {
      evidence_same = h.evidence_same;
      assets_same = h.assets_same;
      sections_same = h.sections_same;
      sound = h.sound;
      added = h.added;
      grown = h.grown;
    });
  }
