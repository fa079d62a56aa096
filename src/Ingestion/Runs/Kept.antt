-- ===== src/Ingestion/Runs/Kept.antt =====
-- main.py and the other services: what an ingestion, whether it returns or raises, keeps true of the
-- tables.
use auditcore.Base.{
  ◌≡◌, refl, sym, ap, ◌∙◌, inl, inr, Bool-cases, none, List, [], ◌∷◌, Bool, true, false, ◌&&◌,
  filter-append, map, contains, All, All-imp,
}
use mathlib.Core.Path.{subst}
use mathlib.Core.List.{append-nil}
use auditcore.Base.Text.{Text}
use auditcore.Base.Error.{PyError, Result, ok, raised, OnOk, OnOk-ok, OnOk-bind}
use auditcore.Base.Exec.{Exec}
use auditcore.Base.Uuid.{Uuid}
use auditcore.Database.{EvidenceRecord, AssetRecord, ObservationRecord, Tables}
use auditcore.Orchestrator.PgRepo.Sound.{normalized, assets_of, SourcedIn, IsSound}
use auditcore.Orchestrator.PgRepo.Grounded.{AllGrounded}
use auditcore.Orchestrator.Runner.Discover.Safe.{HasProvenance}
use auditcore.Ingestion.Bundle.{Bytes, BundleItem}
use auditcore.Ingestion.Item.{Settings, Services, evidence_record}
use auditcore.Ingestion.Site.{Site}
use auditcore.Ingestion.Runs.Rows.{add_row, merge, row_of, rows_of}
use auditcore.Ingestion.Runs.Merge.{HasUniqueIds, merge-HasUniqueIds}
use auditcore.Ingestion.Runs.Ingested.{ingest_bundle-IsIngested}
use auditcore.Ingestion.Runs.Rejected.{ingest_bundle-RollsBack}
use auditcore.Ingestion.Runs.{ingest_bundle}

IsPending : EvidenceRecord → Type 0
IsPending e = e.parsed ≡ none

and_false : (b : Bool) → b && false ≡ false
and_false true = refl
and_false false = refl

add_row-normalized :
    (run : Uuid) (old : List EvidenceRecord) (e : EvidenceRecord)
    → IsPending e
    → normalized run (add_row old e) ≡ normalized run old
unfolding add_row IsPending
add_row-normalized run old e pending = elim (Bool-cases (contains (map (λ x. x.id) old) e.id)) [
  | inl there ↦ rw there refl
  | inr new ↦ rw (new, filter-append, pending, and_false, append-nil) refl
]

merge-normalized :
    (run : Uuid) (old rows : List EvidenceRecord)
    → All IsPending rows
    → normalized run (merge old rows) ≡ normalized run old
unfolding merge
merge-normalized run old [] h = refl
merge-normalized run old (e ∷ es) (pending, h) =
    merge-normalized run (add_row old e) es h ∙ add_row-normalized run old e pending

-- Observations stay sourced when rows join that are not normalized.
merge-AllSourced :
    (old rows : List EvidenceRecord) (as' : List AssetRecord) (os : List ObservationRecord)
    → All IsPending rows
    → All (SourcedIn old as') os
    → All (SourcedIn (merge old rows) as') os
merge-AllSourced old rows as' os pending h =
    All-imp _ _ os
      (λ o p.
        subst (λ ids. HasProvenance o.run_id ids (assets_of o.run_id as') o.row)
          (sym (merge-normalized o.run_id old rows pending)) p)
      h

module _ (config : Settings) (sv : Services) (run_id : Uuid) where
  row_of-IsPending : (item : BundleItem) → OnOk IsPending (row_of config sv run_id item)
  unfolding evidence_record IsPending
  row_of-IsPending item = OnOk-bind (sv.text_column item.source_tool) _ λ tool _.
      OnOk-bind (sv.text_column item.source_tool_version) _
        λ version _. OnOk-bind (sv.text_column item.category) _ λ category _. OnOk-ok _ refl

  rows_of-AllPending :
      (items : List BundleItem) → OnOk (All IsPending) (rows_of config sv run_id items)
  unfolding rows_of
  rows_of-AllPending [] = OnOk-ok [] tt
  rows_of-AllPending (item ∷ items) = OnOk-bind (row_of config sv run_id item) _ λ e he.
      OnOk-bind (rows_of config sv run_id items) _
        λ es hs. OnOk-ok _ ((row_of-IsPending item).at e he, (rows_of-AllPending items).at es hs)

module _ {F A : Type 0} (P : Tables F → Type 0) where
  -- What holds after a return, and is not lost on a raise, holds in any case.
  pub either_way :
      (m : Exec (Site F) A) (s : Site F)
      → ((a : A) (t : Site F) → m s ≡ (ok a, t) → P t.db.tables)
      → ((e : PyError) → (m s).0 ≡ raised e → (m s).1.db.tables ≡ s.db.tables)
      → P s.db.tables
      → P (m s).1.db.tables
  either_way m s returns raises h = from (m s) refl
    where
      from : (p : Result A × Site F) → m s ≡ p → P (m s).1.db.tables
      from (ok a, t) e = subst (λ p. P p.1.db.tables) (sym e) (returns a t e)
      from (raised x, t) e = subst P (sym (raises x (ap (λ p. p.0) e))) h

module _ {F : Type 0} (config : Settings) (sv : Services) (run_id : Uuid) (stamp : Text)
    (contents : Bytes) (s : Site F) where
  abbrev after : Site F
  after = (ingest_bundle config sv run_id stamp contents s).1

  -- If no two rows of evidence have the same id, then so it is after `ingest_bundle`, whatever the
  -- bundle, and whether it returns or raises.
  pub ingest_bundle-HasUniqueIds :
      HasUniqueIds s.db.tables.evidence_items → HasUniqueIds after.db.tables.evidence_items
  ingest_bundle-HasUniqueIds h =
      either_way (λ t. HasUniqueIds t.evidence_items)
        (ingest_bundle config sv run_id stamp contents) s
        (λ r t returned.
          let done = ingest_bundle-IsIngested config sv run_id stamp contents s t returned in
          subst (λ u. HasUniqueIds u.evidence_items) (sym done.stored.tables)
            (merge-HasUniqueIds s.db.tables.evidence_items done.stored.rows h))
        ((ingest_bundle-RollsBack config sv run_id stamp contents).at s) h

  -- If each observation in the table cites normalized evidence of its own run and assets of its run,
  -- and each section embeds observations of its own run, then so it is after `ingest_bundle`,
  -- whatever the bundle, and whether it returns or raises.
  pub ingest_bundle-IsSound :
      IsSound s.db.tables × AllGrounded s.db.tables
      → IsSound after.db.tables × AllGrounded after.db.tables
  ingest_bundle-IsSound (sound, grounded) =
      either_way (λ t. IsSound t × AllGrounded t) (ingest_bundle config sv run_id stamp contents) s
        (λ r t returned.
          let done = ingest_bundle-IsIngested config sv run_id stamp contents s t returned in
          let pending =
            (rows_of-AllPending config sv run_id done.b.items).at done.stored.rows
              done.stored.made in
          let old = s.db.tables in
          subst (λ u. IsSound u × AllGrounded u) (sym done.stored.tables)
            (
              merge-AllSourced old.evidence_items done.stored.rows old.assets old.observations
                  pending sound,
              grounded,
            ))
        ((ingest_bundle-RollsBack config sv run_id stamp contents).at s) (sound, grounded)
