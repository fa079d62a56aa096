-- ===== src/Ingestion/Reads/Agree.antt =====
-- main.py: the counts of `get_run` and the lists of the other endpoints.
use auditcore.Base.{
  ℕ, ◌≡◌, sym, ap, ◌∙◌, String, List, ◌&&◌, filter, length, length-map, ◌==◌, inl, inr,
  Option-cases,
}
use auditcore.Base.Text.{Text}
use auditcore.Base.Json.{Value, int, pos, arr, fields, from_items, lookup, index}
use auditcore.Base.Sort.{length-sorted}
use auditcore.Base.Error.{ok}
use auditcore.Base.Exec.{pure, ◌>>=◌}
use auditcore.Base.Exec.Returns.{Returns, Returns-elim, value_of, state_of, outcome_of}
use auditcore.Base.Uuid.{Uuid}
use auditcore.Database.{RunRecord, EvidenceRecord, ObservationRecord, SectionRecord, Tables}
use auditcore.Orchestrator.PgRepo.Statements.{is_parsed}
use auditcore.Ingestion.Runs.Ingested.{connection-IsRun}
use auditcore.Ingestion.Runs.Stored.{on_tables-Returns}
use auditcore.Ingestion.Site.{Site, on_tables, connection}
use auditcore.Ingestion.Reads.{
  evidence_json, observation_json, section_json, summary_json, listing, select, find_run, run_of,
  get_run, list_evidence, list_observations, list_report_sections,
}

-- The rows of a run.
abbrev pub evidence_of : {F : Type 0} → Uuid → Tables F → List EvidenceRecord
evidence_of run_id t = filter (λ e. e.run_id == run_id) t.evidence_items

abbrev pub normalized_of : {F : Type 0} → Uuid → Tables F → List EvidenceRecord
normalized_of run_id t = filter (λ e. e.run_id == run_id && is_parsed e.parsed) t.evidence_items

abbrev observations_of : {F : Type 0} → Uuid → Tables F → List ObservationRecord
observations_of run_id t = filter (λ o. o.run_id == run_id) t.observations

abbrev sections_of : {F : Type 0} → Uuid → Tables F → List SectionRecord
sections_of run_id t = filter (λ s. s.run_id == run_id) t.report_sections

-- A key of a summary counts what is listed in a listing.
pub record Counts (summary : Value) (count : String) (listed : Value) (key : String) : Type 0 where
  pub n : ℕ
  pub counted : index summary count ≡ ok (int (pos n))
  pub rows : List Value
  pub all_rows : index listed key ≡ ok (arr (from_items rows))
  pub same : length rows ≡ n

module _ {F : Type 0} (isoformat : ℕ → Text) where
  select-Returns :
      {A : Type 0} (f : Tables F → A) (s t : Site F) {a : A}
      → Returns (select isoformat f) s a t
      → (f s.db.tables ≡ a) × (t.db.tables ≡ s.db.tables)
  unfolding select
  select-Returns f s t h =
      let (ran, _) = on_tables-Returns (λ u. (ok (f u), u)) s t h in
      (value_of ran, sym (state_of ran))

  pub listing-Returns :
      (f : Tables F → List Value) (g : List Value → Value) (s t : Site F) {v : Value}
      → Returns (connection (select isoformat f) >>= λ rows. pure (g rows)) s v t
      → v ≡ g (f s.db.tables)
  listing-Returns f g s t h =
      Returns-elim (connection (select isoformat f)) _ s t h λ rows u ran done.
        let run = connection-IsRun (select isoformat f) s u ran in
        let (got, _) = select-Returns f run.start u run.returned in
        sym (value_of done) ∙ ap g (sym got ∙ ap f run.tables)

  find_run-same :
      (run_id : Uuid) (t u : Tables F) {r : RunRecord}
      → find_run isoformat run_id t ≡ (ok r, u)
      → u ≡ t
  unfolding find_run
  find_run-same run_id t u h = elim (Option-cases (run_of run_id t.runs)) [
    | inl e ↦ let h' = (rw (e, find_run) at h) in let wrong = outcome_of h' in cc
    | inr (r, e) ↦ sym (state_of (rw (e, find_run) at h))
  ]

  pub record IsSummary (run_id : Uuid) (t : Tables F) (v : Value) : Type 0 where
    pub run : RunRecord
    pub shown :
        v
        ≡ summary_json isoformat run
            (length (evidence_of run_id t))
            (length (normalized_of run_id t))
            (length (observations_of run_id t))
            (length (sections_of run_id t))

  pub get_run-IsSummary :
      (run_id : Uuid) (s t : Site F) {v : Value}
      → Returns (get_run isoformat run_id) s v t
      → IsSummary run_id s.db.tables v
  unfolding get_run
  get_run-IsSummary run_id s t h =
      let run = connection-IsRun _ s t h in
      let start = run.start in
      Returns-elim (on_tables (find_run isoformat run_id)) _ start t run.returned λ row s1 r1 h1.
        Returns-elim (select isoformat (λ u. length (evidence_of run_id u))) _ s1 t h1 λ a s2 r2 h2.
          Returns-elim (select isoformat (λ u. length (normalized_of run_id u))) _ s2 t h2
            λ b s3 r3 h3.
              Returns-elim (select isoformat (λ u. length (observations_of run_id u))) _ s3 t h3
                λ c s4 r4 h4.
                  Returns-elim (select isoformat (λ u. length (sections_of run_id u))) _ s4 t h4
                    λ d s5 r5 done.
                      let (ran, _) = on_tables-Returns (find_run isoformat run_id) start s1 r1 in
                      let t1 = find_run-same run_id start.db.tables s1.db.tables ran ∙ run.tables in
                      let (ea, e2) = select-Returns (λ u. length (evidence_of run_id u)) s1 s2 r2 in
                      let t2 = e2 ∙ t1 in
                      let (eb, e3) =
                        select-Returns (λ u. length (normalized_of run_id u)) s2 s3 r3 in
                      let t3 = e3 ∙ t2 in
                      let (ec, e4) =
                        select-Returns (λ u. length (observations_of run_id u)) s3 s4 r4 in
                      let t4 = e4 ∙ t3 in
                      let (ed, _) = select-Returns (λ u. length (sections_of run_id u)) s4 s5 r5 in
                      record {
                        run = row;
                        shown = sym (value_of done) ∙ (λ i.
                            summary_json isoformat row
                              ((sym ea ∙ ap (λ u. length (evidence_of run_id u)) t1) i)
                              ((sym eb ∙ ap (λ u. length (normalized_of run_id u)) t2) i)
                              ((sym ec ∙ ap (λ u. length (observations_of run_id u)) t3) i)
                              ((sym ed ∙ ap (λ u. length (sections_of run_id u)) t4) i));
                      }

  -- If `get_run` and the endpoints that list return, over the same tables, then the counts of the
  -- evidence, observations and sections are the numbers of rows that the lists have.
  pub get_run-Counts :
      (run_id : Uuid) (s s1 s2 s3 s4 : Site F) (v es os ss : Value)
      → Returns (get_run isoformat run_id) s v s1
      → Returns (list_evidence isoformat run_id) s es s2
      → Returns (list_observations isoformat run_id) s os s3
      → Returns (list_report_sections isoformat run_id) s ss s4
      → Counts v "evidence_count" es "items"
        × Counts v "observation_count" os "observations"
        × Counts v "section_count" ss "sections"
  unfolding list_evidence list_observations list_report_sections summary_json fields lookup index
  get_run-Counts run_id s s1 s2 s3 s4 v es os ss h he ho hs =
      let t = s.db.tables in
      let summary = get_run-IsSummary run_id s s1 h in
      let evidence = listing-Returns _ (listing isoformat run_id "items") s s2 he in
      let observations = listing-Returns _ (listing isoformat run_id "observations") s s3 ho in
      let sections = listing-Returns _ (listing isoformat run_id "sections") s s4 hs in
      (
        record {
          n = length (evidence_of run_id t);
          counted = ap (λ x. index x "evidence_count") summary.shown;
          rows = _;
          all_rows = ap (λ x. index x "items") evidence;
          same = length-map (evidence_json isoformat) _ ∙ length-sorted _ (evidence_of run_id t);
        },
        record {
          n = length (observations_of run_id t);
          counted = ap (λ x. index x "observation_count") summary.shown;
          rows = _;
          all_rows = ap (λ x. index x "observations") observations;
          same =
              length-map (observation_json isoformat) _
              ∙ length-sorted _ (observations_of run_id t);
        },
        record {
          n = length (sections_of run_id t);
          counted = ap (λ x. index x "section_count") summary.shown;
          rows = _;
          all_rows = ap (λ x. index x "sections") sections;
          same = length-map (section_json isoformat) _ ∙ length-sorted _ (sections_of run_id t);
        },
      )
