-- ===== src/Ingestion/Reads.antt =====
-- main.py: the endpoints that show a run.
pub mod Agree
pub mod Normalized
use auditcore.Base.{
  ℕ, String, Option, none, some, List, [], ◌∷◌, Bool, ◌&&◌, filter, map, length, leb, ◌==◌,
  if◌then◌else◌,
}
use auditcore.Base.Text.{Text, codes}
use auditcore.Base.Json.{Value, null, int, pos, float, str, arr, obj, fields, from_items, or_null}
use auditcore.Base.Sort.{sorted}
use auditcore.Base.Error.{Result, ok, raised, http_error}
use auditcore.Base.Exec.{Exec, pure, ◌>>=◌, ◌>>◌}
use auditcore.Base.Uuid.{Uuid, print_uuid}
use auditcore.Database.{
  RunRecord, AssetRecord, EvidenceRecord, ObservationRecord, SectionRecord, Tables,
}
use auditcore.Orchestrator.PgRepo.Statements.{is_parsed, observation_le, section_le}
use auditcore.Ingestion.Site.{Site, on_tables, connection}

-- `str(u)` of an id
abbrev pub id_json : Uuid → Value
id_json u = str (print_uuid u)

abbrev pub ids_json : List Uuid → Value
ids_json us = arr (from_items (map id_json us))

abbrev pub text_json : String → Value
text_json s = str (codes s)

abbrev pub optional : {A : Type 0} → (A → Value) → Option A → Value
optional f none = null
optional f (some a) = f a

-- SELECT … FROM runs WHERE id = %s
unfoldable pub run_of : Uuid → List RunRecord → Option RunRecord
run_of run_id [] = none
run_of run_id (r ∷ rs) = if r.id == run_id then some r else run_of run_id rs

-- `isoformat` is that of a datetime.
module _ (isoformat : ℕ → Text) where
  abbrev pub time_json : ℕ → Value
  time_json t = str (isoformat t)

  unfoldable pub evidence_json : EvidenceRecord → Value
  unfolding fields
  evidence_json e = obj (
      fields (
        ("id", id_json e.id)
        ∷ ("asset_id", optional id_json e.asset_id)
        ∷ ("source_tool", text_json e.source_tool)
        ∷ ("source_tool_version", text_json e.source_tool_version)
        ∷ ("category", text_json e.category)
        ∷ ("raw_ref", str e.raw_ref)
        ∷ ("parsed", or_null e.parsed)
        ∷ ("confidence", float e.confidence)
        ∷ ("collected_at", time_json e.collected_at)
        ∷ []))

  unfoldable pub asset_json : AssetRecord → Value
  unfolding fields
  asset_json a = obj (
      fields (
        ("id", id_json a.id)
        ∷ ("type", text_json a.type)
        ∷ ("natural_key", text_json a.natural_key)
        ∷ ("name", text_json a.name)
        ∷ ("attributes", a.attributes)
        ∷ ("first_seen", time_json a.first_seen)
        ∷ ("last_seen", time_json a.last_seen)
        ∷ []))

  unfoldable pub observation_json : ObservationRecord → Value
  unfolding fields
  observation_json o = obj (
      fields (
        ("id", id_json o.id)
        ∷ ("asset_id", id_json o.asset_id)
        ∷ ("domain", text_json o.domain)
        ∷ ("topic", str o.topic)
        ∷ ("summary", str o.summary)
        ∷ ("detail", str o.detail)
        ∷ ("facts", o.facts)
        ∷ ("related_asset_ids", ids_json o.related_asset_ids)
        ∷ ("evidence_ids", ids_json o.evidence_ids)
        ∷ ("produced_by_agent", str o.produced_by_agent)
        ∷ ("created_at", time_json o.created_at)
        ∷ []))

  unfoldable pub section_json : SectionRecord → Value
  unfolding fields
  section_json s = obj (
      fields (
        ("id", id_json s.id)
        ∷ ("audience", str s.audience)
        ∷ ("order", int s.order)
        ∷ ("title", str s.title)
        ∷ ("body_md", str s.body_md)
        ∷ ("embedded_observations", ids_json s.embedded_observations)
        ∷ ("produced_by_agent", str s.produced_by_agent)
        ∷ ("created_at", time_json s.created_at)
        ∷ []))

  -- The answer of `get_run`, of the row and the four counts.
  unfoldable pub summary_json : RunRecord → ℕ → ℕ → ℕ → ℕ → Value
  unfolding fields
  summary_json r evidence normalized observations sections = obj (
      fields (
        ("id", id_json r.id)
        ∷ ("status", text_json r.status)
        ∷ ("scope", r.scope)
        ∷ ("started_at", optional time_json r.started_at)
        ∷ ("completed_at", optional time_json r.completed_at)
        ∷ ("cost_cents", int r.cost_cents)
        ∷ ("evidence_count", int (pos evidence))
        ∷ ("normalized_count", int (pos normalized))
        ∷ ("observation_count", int (pos observations))
        ∷ ("section_count", int (pos sections))
        ∷ []))

  -- The answer of a list: the run and its rows under a key.
  abbrev pub listing : Uuid → String → List Value → Value
  listing run_id key rows =
      obj (fields (("run_id", id_json run_id) ∷ (key, arr (from_items rows)) ∷ []))

  module _ {F : Type 0} where
    unfoldable pub select : {A : Type 0} → (Tables F → A) → Exec (Site F) A
    unfolding on_tables
    select f = on_tables (λ t. (ok (f t), t))

    find_run : Uuid → Tables F → Result RunRecord × Tables F
    unfolding run_of
    find_run run_id t = elim (run_of run_id t.runs) [
      | none ↦ (raised (http_error 404 (codes "run not found")), t)
      | some r ↦ (ok r, t)
    ]

    unfoldable pub get_run : Uuid → Exec (Site F) Value
    unfolding connection find_run select on_tables summary_json
    get_run run_id = connection (do
      run ← on_tables (find_run run_id)
      evidence_count ← select (λ t. length (filter (λ e. e.run_id == run_id) t.evidence_items))
      normalized_count ←
          select
            (λ t. length (filter (λ e. e.run_id == run_id && is_parsed e.parsed) t.evidence_items))
      observation_count ← select (λ t. length (filter (λ o. o.run_id == run_id) t.observations))
      section_count ← select (λ t. length (filter (λ s. s.run_id == run_id) t.report_sections))
      pure (summary_json run evidence_count normalized_count observation_count section_count))

    unfoldable pub list_evidence : Uuid → Exec (Site F) Value
    unfolding connection select evidence_json
    list_evidence run_id = do
      rows ← connection (
          select (λ t. map evidence_json (
            sorted (λ a b. leb a.collected_at b.collected_at)
              (filter (λ e. e.run_id == run_id) t.evidence_items))))
      pure (listing run_id "items" rows)

    unfoldable pub list_assets : Uuid → Exec (Site F) Value
    unfolding connection select asset_json
    list_assets run_id = do
      rows ← connection (select (λ t. map asset_json (filter (λ a. a.run_id == run_id) t.assets)))
      pure (listing run_id "assets" rows)

    unfoldable pub list_observations : Uuid → Exec (Site F) Value
    unfolding connection select observation_json observation_le
    list_observations run_id = do
      rows ← connection (
          select (λ t.
            map observation_json
              (sorted observation_le (filter (λ o. o.run_id == run_id) t.observations))))
      pure (listing run_id "observations" rows)

    unfoldable pub list_report_sections : Uuid → Exec (Site F) Value
    unfolding connection select section_json section_le
    list_report_sections run_id = do
      rows ← connection (
          select (λ t.
            map section_json
              (sorted section_le (filter (λ s. s.run_id == run_id) t.report_sections))))
      pure (listing run_id "sections" rows)
