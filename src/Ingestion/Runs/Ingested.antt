-- ===== src/Ingestion/Runs/Ingested.antt =====
-- main.py: what an ingestion that returns has done.
use auditcore.Base.{
  ℕ, ◌+◌, ◌≡◌, refl, sym, ap, ◌∙◌, inl, inr, ltb, Option, none, some, List, [], ◌∷◌, ◌++◌, true,
  Bool-cases, map, length, arith,
}
use mathlib.Core.Path.{subst}
use auditcore.Base.Text.{Text}
use auditcore.Base.Error.{Result, ok, raised, bundle_error}
use auditcore.Base.Exec.{Exec, lift}
use auditcore.Base.Exec.Returns.{
  Returns, Returns-elim, value_of, state_of, outcome_of, lift-Returns,
}
use auditcore.Base.Uuid.{Uuid}
use auditcore.Database.{EvidenceRecord, Tables, bundle_ingest}
use auditcore.Orchestrator.PgRepo.Statements.{with_status}
use auditcore.Ingestion.Bundle.{Bytes, Bundle, parse_bundle}
use auditcore.Ingestion.Item.{Settings, Services, or_bad_request, bundle_key_of}
use auditcore.Ingestion.Site.{Site, upload, put_bytes, on_tables, settle, connected, connection}
use auditcore.Ingestion.Runs.Rows.{merge, rows_of, uploaded}
use auditcore.Ingestion.Runs.Stored.{
  with_evidence, put_bytes-Returns, on_tables-Returns, store_items-IsStored,
}
use auditcore.Ingestion.Runs.{
  IngestResponse, has_run, check_run, add_entry, set_normalizing, normalizing, audit, store_items,
  store_bundle, take_in, ingest_bundle,
}

or_bad_request-ok : (r : Result Bundle) {b : Bundle} → or_bad_request r ≡ ok b → r ≡ ok b
unfolding or_bad_request
or_bad_request-ok (ok b) h = h
or_bad_request-ok (raised (bundle_error m)) h = cc
or_bad_request-ok (raised e) h = cc

module _ {F A : Type 0} where
  -- A connection that returns gave way to its body, and kept what that left.
  settle-Returns :
      (old : Tables F) (p : Result A × Site F) {a : A} {t : Site F}
      → settle old p ≡ (ok a, t)
      → p ≡ (ok a, t)
  unfolding settle
  settle-Returns old (ok a, s) h = h
  settle-Returns old (raised e, s) h = let wrong = outcome_of h in cc

  pub record IsRun (body : Exec (Site F) A) (s : Site F) (a : A) (t : Site F) : Type 0 where
    pub start : Site F
    pub tables : start.db.tables ≡ s.db.tables
    pub uploads : start.uploads ≡ s.uploads
    pub returned : Returns body start a t

  connected-IsRun :
      (faults : List (Option ℕ)) (body : Exec (Site F) A) (s t : Site F) {a : A}
      → Returns (connected faults body) s a t
      → IsRun body s a t
  unfolding connected
  connected-IsRun [] body s t h = record {
    start = s;
    tables = refl;
    uploads = refl;
    returned = settle-Returns s.db.tables (body s) h;
  }
  connected-IsRun (none ∷ fs) body s t h =
      let start = record s { db = record s.db { faults = fs } } in
      record {
        start = start;
        tables = refl;
        uploads = refl;
        returned = settle-Returns s.db.tables (body start) h;
      }
  connected-IsRun (some e ∷ fs) body s t h = let wrong = outcome_of h in cc

  pub connection-IsRun :
      (body : Exec (Site F) A) (s t : Site F) {a : A}
      → Returns (connection body) s a t
      → IsRun body s a t
  unfolding connection
  connection-IsRun body s t h = connected-IsRun s.db.faults body s t h

module _ {F : Type 0} (config : Settings) (sv : Services) (run_id : Uuid) where
  check_run-ok :
      (t u : Tables F) {x : Unit {0}}
      → check_run config sv run_id t ≡ (ok x, u)
      → (has_run run_id config.default_tenant_id t.runs ≡ true) × (u ≡ t)
  unfolding check_run
  check_run-ok t u h = elim (Bool-cases (has_run run_id config.default_tenant_id t.runs)) [
    | inl e ↦ (e, sym (state_of (rw e at h)))
    | inr e ↦ let h' = (rw e at h) in let wrong = outcome_of h' in cc
  ]

  -- The tables after a bundle with these rows.
  abbrev pub filled : Bundle → Text → List EvidenceRecord → Tables F → Tables F
  filled b key rows t = record t {
    runs = map (with_status run_id "normalizing") t.runs;
    evidence_items = merge t.evidence_items rows;
    audit_log = t.audit_log ++ bundle_ingest run_id (length b.items) key ∷ [];
  }

  -- The work of a connection that takes in `b`.
  pub record IsStoredBundle (b : Bundle) (key : Text) (n : ℕ) (s t : Site F) : Type 0 where
    pub known : has_run run_id config.default_tenant_id s.db.tables.runs ≡ true
    pub rows : List EvidenceRecord
    pub made : rows_of config sv run_id b.items ≡ ok rows
    pub tables : t.db.tables ≡ filled b key rows s.db.tables
    pub counted :
        n + length s.db.tables.evidence_items ≡ length (merge s.db.tables.evidence_items rows)
    pub uploads : t.uploads ≡ uploaded config run_id b.items s.uploads

  store_bundle-IsStoredBundle :
      (b : Bundle) (key : Text) (s t : Site F) {n : ℕ}
      → Returns (store_bundle config sv run_id b key) s n t
      → IsStoredBundle b key n s t
  unfolding store_bundle normalizing audit
  store_bundle-IsStoredBundle b key s t {n} h =
      Returns-elim (on_tables (check_run config sv run_id)) _ s t h λ _ s1 checked h1.
        Returns-elim (store_items config sv run_id b.items 0) _ s1 t h1 λ m s2 stored h2.
          Returns-elim (on_tables (normalizing config sv run_id)) _ s2 t h2 λ _ s3 status h3.
            Returns-elim (audit config sv (bundle_ingest run_id (length b.items) key)) _ s3 t h3
              λ _ s4 audited done.
                let (check, same1) = on_tables-Returns (check_run config sv run_id) s s1 checked in
                let (known, same_tables) = check_run-ok s.db.tables s1.db.tables check in
                let loop = store_items-IsStored config sv run_id b.items 0 s1 s2 stored in
                let (set, same3) = on_tables-Returns (normalizing config sv run_id) s2 s3 status in
                let entry = bundle_ingest run_id (length b.items) key in
                let (logged, same4) =
                  on_tables-Returns (λ u. (ok tt, add_entry config sv entry u)) s3 s4 audited in
                let old =
                  subst (λ u. s2.db.tables ≡ with_evidence u (merge u.evidence_items loop.rows))
                    same_tables loop.tables in
                let updated = sym (state_of set) ∙ ap (set_normalizing config sv run_id) old in
                record {
                  known = known;
                  rows = loop.rows;
                  made = loop.made;
                  tables =
                      ap (λ x. x.db.tables) (sym (state_of done))
                      ∙ (sym (state_of logged) ∙ ap (add_entry config sv entry) updated);
                  counted =
                      let counted' =
                        subst
                          (λ u.
                            m + length u.evidence_items
                            ≡ 0 + length (merge u.evidence_items loop.rows))
                          same_tables loop.counted in
                      omega (arith, counted', value_of done);
                  uploads =
                      ap (λ x. x.uploads) (sym (state_of done))
                      ∙ (same4
                          ∙ (same3 ∙ (loop.uploads ∙ ap (uploaded config run_id b.items) same1)));
                }

  -- What an ingestion that returns has done: `b` is the bundle in the contents.
  pub record IsIngested (stamp : Text) (contents : Bytes) (r : IngestResponse) (s t : Site F)
      : Type 0 where
    pub b : Bundle
    pub parsed : parse_bundle sv.formats contents ≡ ok b
    pub stored :
        IsStoredBundle b
          (bundle_key_of run_id stamp)
          r.accepted_items
          (record s {
            uploads = upload config.s3_bucket_raw (bundle_key_of run_id stamp) contents s.uploads;
          })
          t

  take_in-IsIngested :
      (stamp : Text) (contents : Bytes) (s t : Site F) {r : IngestResponse}
      → Returns (take_in config sv run_id stamp contents) s r t
      → IsIngested stamp contents r s t
  unfolding take_in
  take_in-IsIngested stamp contents s t {r} h =
      let key = bundle_key_of run_id stamp in
      Returns-elim (lift (or_bad_request (parse_bundle sv.formats contents))) _ s t h λ b s1 got h1.
        Returns-elim (put_bytes config.s3_bucket_raw key contents) _ s1 t h1 λ ref s2 put_there h2.
          Returns-elim (connection (store_bundle config sv run_id b key)) _ s2 t h2 λ n s3 ran done.
            let (parsed, same1) =
              lift-Returns (or_bad_request (parse_bundle sv.formats contents)) got in
            let (same_db, uploads, _) =
              put_bytes-Returns config.s3_bucket_raw key contents s1 s2 put_there in
            let run = connection-IsRun (store_bundle config sv run_id b key) s2 s3 ran in
            let work = store_bundle-IsStoredBundle b key run.start s3 run.returned in
            let start_tables : run.start.db.tables ≡ s.db.tables =
              run.tables ∙ (ap (λ d. d.tables) same_db ∙ ap (λ x. x.db.tables) (sym same1)) in
            let start_uploads : run.start.uploads
                ≡ upload config.s3_bucket_raw key contents s.uploads =
              run.uploads
              ∙ (uploads
                  ∙ ap (λ x. upload config.s3_bucket_raw key contents x.uploads) (sym same1)) in
            record {
              b = b;
              parsed = or_bad_request-ok (parse_bundle sv.formats contents) parsed;
              stored = record {
                known =
                    subst (λ u. has_run run_id config.default_tenant_id u.runs ≡ true) start_tables
                      work.known;
                rows = work.rows;
                made = work.made;
                tables =
                    ap (λ x. x.db.tables) (sym (state_of done))
                    ∙ (work.tables ∙ ap (filled b key work.rows) start_tables);
                counted =
                    subst
                      (λ m.
                        m + length s.db.tables.evidence_items
                        ≡ length (merge s.db.tables.evidence_items work.rows))
                      (ap (λ x. x.accepted_items) (value_of done))
                      (subst
                        (λ u.
                          n + length u.evidence_items ≡ length (merge u.evidence_items work.rows))
                        start_tables work.counted);
                uploads =
                    ap (λ x. x.uploads) (sym (state_of done))
                    ∙ (work.uploads ∙ ap (uploaded config run_id b.items) start_uploads);
              };
            }

  pub ingest_bundle-IsIngested :
      (stamp : Text) (contents : Bytes) (s t : Site F) {r : IngestResponse}
      → Returns (ingest_bundle config sv run_id stamp contents) s r t
      → IsIngested stamp contents r s t
  unfolding ingest_bundle
  ingest_bundle-IsIngested stamp contents s t h =
      elim (Bool-cases (ltb config.max_bundle_bytes (length contents))) [
        | inl e ↦ let h' = (rw e at h) in let wrong = outcome_of h' in cc
        | inr e ↦ take_in-IsIngested stamp contents s t (rw e at h)
      ]
