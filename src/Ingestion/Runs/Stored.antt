-- ===== src/Ingestion/Runs/Stored.antt =====
-- main.py: what the loop over the items of a bundle leaves in the tables, and what it uploads.
use auditcore.Base.{
  ℕ, ◌+◌, ◌≡◌, refl, sym, ap, ◌∙◌, inl, inr, Option, none, some, List, [], ◌∷◌, Bool-cases, map,
  contains, length, length-append, arith,
}
use mathlib.Core.Path.{subst}
use auditcore.Base.Text.{Text}
use auditcore.Base.Error.{Result, ok}
use auditcore.Base.Exec.{lift}
use auditcore.Base.Exec.Returns.{
  Returns, Returns-parts, value_of, state_of, outcome_of, lift-Returns,
}
use auditcore.Base.Uuid.{Uuid}
use auditcore.Database.{EvidenceRecord, Tables}
use auditcore.Ingestion.Bundle.{Bytes, BundleItem}
use auditcore.Ingestion.Item.{Settings, Services, item_key, evidence_record}
use auditcore.Ingestion.Site.{Site, request, send, upload, write_object, uri, put_bytes, on_tables}
use auditcore.Ingestion.Runs.Rows.{add_row, merge, row_of, rows_of, uploaded}
use auditcore.Ingestion.Runs.{insert_evidence, store_item, store_items}

abbrev pub with_evidence : {F : Type 0} → Tables F → List EvidenceRecord → Tables F
with_evidence t es = record t { evidence_items = es }

module _ {F : Type 0} where
  request-Returns :
      (faults : List (Option ℕ)) (s t : Site F) {u : Unit {0}}
      → Returns (request faults) s u t
      → (t.db ≡ s.db) × (t.uploads ≡ s.uploads)
  unfolding request
  request-Returns [] s t h =
      (ap (λ x. x.db) (sym (state_of h)), ap (λ x. x.uploads) (sym (state_of h)))
  request-Returns (none ∷ fs) s t h =
      (ap (λ x. x.db) (sym (state_of h)), ap (λ x. x.uploads) (sym (state_of h)))
  request-Returns (some e ∷ fs) s t h = let wrong = outcome_of h in cc

  -- An upload that returns leaves the database alone, and is the last one.
  pub put_bytes-Returns :
      (bucket key : Text) (contents : Bytes) (s t : Site F) {ref : Text}
      → Returns (put_bytes bucket key contents) s ref t
      → (t.db ≡ s.db) × (t.uploads ≡ upload bucket key contents s.uploads) × (ref ≡ uri bucket key)
  unfolding put_bytes write_object send
  put_bytes-Returns bucket key contents s t h =
      let (_, a, sent, h1) = Returns-parts send _ h in
      let (_, b, wrote, done) = Returns-parts (write_object bucket key contents) _ h1 in
      let (same_db, same_uploads) = request-Returns s.store_faults s a sent in
      let end = state_of done in
      let put_there = state_of wrote in
      (
        ap (λ x. x.db) (sym end) ∙ (ap (λ x. x.db) (sym put_there) ∙ same_db),
        ap (λ x. x.uploads) (sym end)
            ∙ (ap (λ x. x.uploads) (sym put_there) ∙ ap (upload bucket key contents) same_uploads),
        sym (value_of done),
      )

  pub on_tables-Returns :
      {A : Type 0} (body : Tables F → Result A × Tables F) (s t : Site F) {a : A}
      → Returns (on_tables body) s a t
      → (body s.db.tables ≡ (ok a, t.db.tables)) × (t.uploads ≡ s.uploads)
  unfolding on_tables
  on_tables-Returns body s t h =
      (ap (λ p. (p.0, p.1.db.tables)) h, ap (λ x. x.uploads) (sym (state_of h)))

module _ {F : Type 0} (config : Settings) (sv : Services) where
  insert_evidence-Returns :
      (e : EvidenceRecord) (t u : Tables F) {n : ℕ}
      → insert_evidence config sv e t ≡ (ok n, u)
      → (u ≡ with_evidence t (add_row t.evidence_items e))
        × (n + length t.evidence_items ≡ length (add_row t.evidence_items e))
  unfolding insert_evidence add_row
  insert_evidence-Returns e t u h =
      elim (Bool-cases (contains (map (λ x. x.id) t.evidence_items) e.id)) [
        | inl old ↦
            rw old (let h' = (rw old at h) in (sym (state_of h'), omega (arith, value_of h')))
        | inr new ↦ elim (Bool-cases (contains (map (λ r. r.id) t.runs) e.run_id)) [
          | inl known ↦ rw new (
              let h' = (rw (new, known) at h) in
              (
                sym (state_of h'),
                omega (arith, value_of h', length-append t.evidence_items (e ∷ [])),
              ))
          | inr unknown ↦ let h' = (rw (new, unknown) at h) in let wrong = outcome_of h' in cc
        ]
      ]

  -- The loop, described by its rows: they join the table, and `n` counts up from `inserted` by one
  -- for each that was new.
  pub record IsStored (run_id : Uuid) (items : List BundleItem) (inserted n : ℕ) (s t : Site F)
      : Type 0 where
    pub rows : List EvidenceRecord
    pub made : rows_of config sv run_id items ≡ ok rows
    pub tables : t.db.tables ≡ with_evidence s.db.tables (merge s.db.tables.evidence_items rows)
    pub counted :
        n + length s.db.tables.evidence_items
        ≡ inserted + length (merge s.db.tables.evidence_items rows)
    pub uploads : t.uploads ≡ uploaded config run_id items s.uploads

  record IsStoredItem (run_id : Uuid) (item : BundleItem) (n : ℕ) (s t : Site F) : Type 0 where
    row : EvidenceRecord
    made : row_of config sv run_id item ≡ ok row
    tables : t.db.tables ≡ with_evidence s.db.tables (add_row s.db.tables.evidence_items row)
    counted :
        n + length s.db.tables.evidence_items ≡ length (add_row s.db.tables.evidence_items row)
    uploads :
        t.uploads ≡ upload config.s3_bucket_raw (item_key run_id item.id) item.raw_bytes s.uploads

  store_item-IsStoredItem :
      (run_id : Uuid) (item : BundleItem) (s t : Site F) {n : ℕ}
      → Returns (store_item config sv run_id item) s n t
      → IsStoredItem run_id item n s t
  unfolding store_item
  store_item-IsStoredItem run_id item s t {n} h =
      let key = item_key run_id item.id in
      let (ref, a, put_there, h1) =
        Returns-parts (put_bytes config.s3_bucket_raw key item.raw_bytes) _ h in
      let (row, b, made, h2) =
        Returns-parts (lift (evidence_record config sv run_id item ref)) _ h1 in
      let (same_db, uploads, at_uri) =
        put_bytes-Returns config.s3_bucket_raw key item.raw_bytes s a put_there in
      let (is_row, stays) = lift-Returns (evidence_record config sv run_id item ref) made in
      let (inserted, same_uploads) = on_tables-Returns (insert_evidence config sv row) b t h2 in
      let (tables, counted) = insert_evidence-Returns row b.db.tables t.db.tables inserted in
      let same_tables : b.db.tables ≡ s.db.tables =
        ap (λ x. x.db.tables) (sym stays) ∙ ap (λ x. x.tables) same_db in
      record {
        row = row;
        made = subst (λ r. evidence_record config sv run_id item r ≡ ok row) at_uri is_row;
        tables =
            subst (λ u. t.db.tables ≡ with_evidence u (add_row u.evidence_items row)) same_tables
              tables;
        counted =
            subst (λ u. n + length u.evidence_items ≡ length (add_row u.evidence_items row))
              same_tables counted;
        uploads = same_uploads ∙ (ap (λ x. x.uploads) (sym stays) ∙ uploads);
      }

  pub store_items-IsStored :
      (run_id : Uuid) (items : List BundleItem) (inserted : ℕ) (s t : Site F) {n : ℕ}
      → Returns (store_items config sv run_id items inserted) s n t
      → IsStored run_id items inserted n s t
  unfolding store_items rows_of merge uploaded
  store_items-IsStored run_id [] inserted s t h = record {
    rows = [];
    made = refl;
    tables = ap (λ x. x.db.tables) (sym (state_of h));
    counted = ap (λ n. n + length s.db.tables.evidence_items) (sym (value_of h));
    uploads = ap (λ x. x.uploads) (sym (state_of h));
  }
  store_items-IsStored run_id (item ∷ rest) inserted s t {n} h =
      let (m, a, first, h1) = Returns-parts (store_item config sv run_id item) _ h in
      let one = store_item-IsStoredItem run_id item s a first in
      let more = store_items-IsStored run_id rest (inserted + m) a t h1 in
      let old = s.db.tables.evidence_items in
      record {
        rows = one.row ∷ more.rows;
        made = rw (one.made, more.made) refl;
        tables =
            subst (λ u. t.db.tables ≡ with_evidence u (merge u.evidence_items more.rows)) one.tables
              more.tables;
        counted =
            let after =
              subst
                (λ u.
                  n + length u.evidence_items
                  ≡ (inserted + m) + length (merge u.evidence_items more.rows))
                one.tables more.counted in
            omega (arith, after, one.counted);
        uploads = more.uploads ∙ ap (uploaded config run_id rest) one.uploads;
      }
