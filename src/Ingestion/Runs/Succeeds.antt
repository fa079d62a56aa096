-- ===== src/Ingestion/Runs/Succeeds.antt =====
-- main.py: a good bundle is taken in.
use auditcore.Base.{
  ℕ, ◌+◌, ◌≡◌, refl, sym, ap, ◌∙◌, inl, inr, ltb, String, List, [], ◌∷◌, ◌++◌, Bool, true, false,
  ◌&&◌, ◌||◌, Bool-cases, map, contains, length, str_eq, ◌==◌, ==_iff, arith, if◌then◌else◌,
}
use auditcore.Base.Text.{Text}
use auditcore.Base.Error.{ok, ok-injective, >>=-ok_parts}
use auditcore.Base.Exec.{Exec, lift, pure}
use auditcore.Base.Exec.Returns.{Returns, Returns-then}
use auditcore.Base.Uuid.{Uuid}
use auditcore.Database.{EvidenceRecord, RunRecord, bundle_ingest, Tables}
use auditcore.Ingestion.Bundle.{Bytes, BundleItem, Bundle, parse_bundle}
use auditcore.Ingestion.Item.{
  Settings, Services, or_bad_request, bundle_key_of, item_key, evidence_record,
}
use auditcore.Ingestion.Site.{
  Site, Upload, request, send, write_object, upload, uri, put_bytes, on_tables, settle, connected,
  connection,
}
use auditcore.Ingestion.Runs.Rows.{row_of, rows_of}
use auditcore.Ingestion.Runs.{
  IngestResponse, has_run, check_run, normalizing, audit, insert_evidence, store_item, store_items,
  store_bundle, take_in, ingest_bundle,
}

-- No request or connection is to fail.
abbrev pub calm : {F : Type 0} → Tables F → List Upload → Site F
calm t uploads = record {
  db = record { tables = t; faults = [] };
  uploads = uploads;
  store_faults = [];
}

has_run-contains :
    (run_id : Uuid) (tenant_id : String) (rs : List RunRecord)
    → has_run run_id tenant_id rs ≡ true
    → contains (map (λ r. r.id) rs) run_id ≡ true
unfolding has_run contains
has_run-contains run_id tenant_id [] h = cc
has_run-contains run_id tenant_id (r ∷ rs) h = elim (Bool-cases (r.id == run_id)) [
  | inl e ↦ rw e refl
  | inr e ↦ rw e (has_run-contains run_id tenant_id rs (rw e at h))
]

module _ (config : Settings) (sv : Services) (run_id : Uuid) where
  row_of-run :
      (item : BundleItem) (ref : Text) {e : EvidenceRecord}
      → evidence_record config sv run_id item ref ≡ ok e
      → e.run_id ≡ run_id
  unfolding evidence_record
  row_of-run item ref h =
      let (tool, _, h1) = >>=-ok_parts _ (sv.text_column item.source_tool) h in
      let (version, _, h2) = >>=-ok_parts _ (sv.text_column item.source_tool_version) h1 in
      let (category, _, h3) = >>=-ok_parts _ (sv.text_column item.category) h2 in
      ap (λ x. x.run_id) (sym (ok-injective h3))

module _ {F : Type 0} (config : Settings) (sv : Services) (run_id : Uuid) where
  -- The action returns, with no failure to come, and knows the same runs.
  record Goes (m : Exec (Site F) ℕ) (t : Tables F) (uploads : List Upload) : Type 0 where
    result : ℕ
    tables : Tables F
    stored : List Upload
    returned : Returns m (calm t uploads) result (calm tables stored)
    same : tables.runs ≡ t.runs

  insert_evidence-Goes :
      (e : EvidenceRecord) (t : Tables F) (uploads : List Upload)
      → contains (map (λ r. r.id) t.runs) e.run_id ≡ true
      → Goes (on_tables (insert_evidence config sv e)) t uploads
  unfolding on_tables insert_evidence
  insert_evidence-Goes e t uploads known =
      elim (Bool-cases (contains (map (λ x. x.id) t.evidence_items) e.id)) [
        | inl old ↦ record {
          result = 0;
          tables = t;
          stored = uploads;
          returned = rw old refl;
          same = refl;
        }
        | inr new ↦ record {
          result = 1;
          tables = record t { evidence_items = t.evidence_items ++ e ∷ [] };
          stored = uploads;
          returned = rw (new, known) refl;
          same = refl;
        }
      ]

  put_bytes-calm :
      (bucket key : Text) (contents : Bytes) (t : Tables F) (uploads : List Upload)
      → Returns
          (put_bytes bucket key contents)
          (calm t uploads)
          (uri bucket key)
          (calm t (upload bucket key contents uploads))
  unfolding put_bytes send request write_object auditcore.Base.Exec.◌>>=◌
  put_bytes-calm bucket key contents t uploads = refl

  store_item-Goes :
      (item : BundleItem) (t : Tables F) (uploads : List Upload) {e : EvidenceRecord}
      → row_of config sv run_id item ≡ ok e
      → contains (map (λ r. r.id) t.runs) run_id ≡ true
      → Goes (store_item config sv run_id item) t uploads
  unfolding store_item
  store_item-Goes item t uploads {e} made known =
      let key = item_key run_id item.id in
      let ref = uri config.s3_bucket_raw key in
      let uploads' = upload config.s3_bucket_raw key item.raw_bytes uploads in
      let done =
        insert_evidence-Goes e t uploads' (rw (row_of-run config sv run_id item ref made) known) in
      record {
        result = done.result;
        tables = done.tables;
        stored = done.stored;
        returned =
            Returns-then (put_bytes config.s3_bucket_raw key item.raw_bytes) _
              (put_bytes-calm config.s3_bucket_raw key item.raw_bytes t uploads)
              (Returns-then (lift (evidence_record config sv run_id item ref)) _
                (ap (λ r. (r, calm t uploads')) made) done.returned);
        same = done.same;
      }

  store_items-Goes :
      (items : List BundleItem) (inserted : ℕ) (t : Tables F) (uploads : List Upload)
      {rows : List EvidenceRecord}
      → rows_of config sv run_id items ≡ ok rows
      → contains (map (λ r. r.id) t.runs) run_id ≡ true
      → Goes (store_items config sv run_id items inserted) t uploads
  unfolding store_items rows_of
  store_items-Goes [] inserted t uploads made known = record {
    result = inserted;
    tables = t;
    stored = uploads;
    returned = refl;
    same = refl;
  }
  store_items-Goes (item ∷ items) inserted t uploads made known =
      let (e, made_one, rest) = >>=-ok_parts _ (row_of config sv run_id item) made in
      let (es, made_all, _) = >>=-ok_parts _ (rows_of config sv run_id items) rest in
      let one = store_item-Goes item t uploads made_one known in
      let more =
        store_items-Goes items (inserted + one.result) one.tables one.stored made_all
          (rw (one.same) known) in
      record {
        result = more.result;
        tables = more.tables;
        stored = more.stored;
        returned = Returns-then (store_item config sv run_id item) _ one.returned more.returned;
        same = more.same ∙ one.same;
      }

  store_bundle-Goes :
      (b : Bundle) (key : Text) (t : Tables F) (uploads : List Upload) {rows : List EvidenceRecord}
      → rows_of config sv run_id b.items ≡ ok rows
      → has_run run_id config.default_tenant_id t.runs ≡ true
      → (n : ℕ) × (u : Site F) × Returns (store_bundle config sv run_id b key) (calm t uploads) n u
  unfolding store_bundle check_run normalizing audit on_tables
  store_bundle-Goes b key t uploads made known =
      let known' = has_run-contains run_id config.default_tenant_id t.runs known in
      let loop = store_items-Goes b.items 0 t uploads made known' in
      let checked : Returns (on_tables (check_run config sv run_id)) (calm t uploads) tt
          (calm t uploads) =
        rw known refl in
      (
        loop.result,
        _,
        Returns-then (on_tables (check_run config sv run_id)) _ checked (
            Returns-then (store_items config sv run_id b.items 0) _ loop.returned (
              Returns-then (on_tables (normalizing config sv run_id)) _ refl (
                Returns-then (audit config sv (bundle_ingest run_id (length b.items) key)) _ refl
                  refl))),
      )

  -- If the contents are not too large and parse as a bundle, the run is known, the driver takes each
  -- item's texts, and no connection or request to the store fails, then `ingest_bundle` returns.
  pub ingest_bundle-returns :
      (stamp : Text) (contents : Bytes) (b : Bundle) (rows : List EvidenceRecord) (t : Tables F)
      (uploads : List Upload)
      → ltb config.max_bundle_bytes (length contents) ≡ false
      → parse_bundle sv.formats contents ≡ ok b
      → has_run run_id config.default_tenant_id t.runs ≡ true
      → rows_of config sv run_id b.items ≡ ok rows
      → (r : IngestResponse) × (u : Site F) × Returns
          (ingest_bundle config sv run_id stamp contents)
          (calm t uploads)
          r
          u
  unfolding ingest_bundle take_in or_bad_request connection connected settle
  ingest_bundle-returns stamp contents b rows t uploads small parsed known made =
      let key = bundle_key_of run_id stamp in
      let uploads' = upload config.s3_bucket_raw key contents uploads in
      let (n, u, stored) = store_bundle-Goes b key t uploads' made known in
      (
        record { run_id = run_id; accepted_items = n; status = "normalizing" },
        u,
        rw small (
            Returns-then (lift (or_bad_request (parse_bundle sv.formats contents))) _
              (ap (λ r. (or_bad_request r, calm t uploads)) parsed)
              (Returns-then (put_bytes config.s3_bucket_raw key contents) _
                (put_bytes-calm config.s3_bucket_raw key contents t uploads)
                (Returns-then (connection (store_bundle config sv run_id b key)) _
                  (ap (settle t) stored) refl))),
      )
