-- ===== src/Rendering/Loader.antt =====
-- loader.py: what the report generator reads of a run.
use auditcore.Base.{
  ℕ, String, Option, none, some, List, [], ◌∷◌, ◌++◌, filter, map, leb, ◌==◌, if◌then◌else◌,
}
use auditcore.Base.Text.{Text, codes, text_eq}
use auditcore.Base.Json.{
  Value, null, int, float, str, arr, obj, end, fields, from_items, or_null, or_default,
}
use auditcore.Base.Sort.{sorted, text_le}
use auditcore.Base.Error.{Result, ok, raised, lookup_error, ◌>>=◌}
use auditcore.Base.Exec.{Exec}
use auditcore.Base.Uuid.{Uuid, print_uuid}
use auditcore.Database.{
  RunRecord, AssetRecord, EvidenceRecord, ObservationRecord, SectionRecord, Tables, Db, transaction,
}
use auditcore.Orchestrator.PgRepo.Statements.{observation_le, section_le}
use auditcore.Rendering.Sections.{SectionEntry, SectionsData}

-- Rows as dicts.
pub record ReportData : Type 0 where
  pub run : Value
  pub assets : List Value
  pub evidence : List Value
  pub observations : List Value

abbrev pub id_value : Uuid → Value
id_value u = str (print_uuid u)

abbrev text_value : String → Value
text_value s = str (codes s)

abbrev or_none : {A : Type 0} → (A → Value) → Option A → Value
or_none f none = null
or_none f (some a) = f a

-- The row of a run.
unfoldable pub fetch_run : Uuid → List RunRecord → Option RunRecord
fetch_run run_id [] = none
fetch_run run_id (r ∷ rs) = if r.id == run_id then some r else fetch_run run_id rs

unfoldable pub known_run : Uuid → List RunRecord → Result RunRecord
unfolding fetch_run
known_run run_id runs = elim (fetch_run run_id runs) [
  | none ↦ raised (lookup_error (codes "run not found: " ++ print_uuid run_id))
  | some r ↦ ok r
]

-- `topics[k] = v`
unfoldable pub set_topic : Text → Text → List (Text × Text) → List (Text × Text)
set_topic k v [] = (k, v) ∷ []
set_topic k v ((j, w) ∷ rest) =
    let more = set_topic k v rest in if text_eq j k then (j, v) ∷ rest else (j, w) ∷ more

-- The dict of topics, one entry after the other.
unfoldable pub topics_from : List (Text × Text) → List ObservationRecord → List (Text × Text)
unfolding set_topic
topics_from topics [] = topics
topics_from topics (o ∷ os) = topics_from (set_topic (print_uuid o.id) o.topic topics) os

abbrev section_entry : SectionRecord → SectionEntry
section_entry s = record {
  audience = s.audience;
  order = s.order;
  title = s.title;
  body_md = s.body_md;
}

-- `with psycopg.connect(dsn) as conn`, to read.
unfoldable pub reading : {F A : Type 0} → (Tables F → Result A) → Exec (Db F) A
unfolding transaction
reading f d = transaction (λ t. (f t, t)) d.faults d.tables

-- `isoformat` is that of a datetime.
module _ (isoformat : ℕ → Text) where
  abbrev time_value : ℕ → Value
  time_value t = str (isoformat t)

  unfoldable pub run_value : RunRecord → Value
  unfolding fields
  run_value r = obj (
      fields (
        ("id", id_value r.id)
        ∷ ("status", text_value r.status)
        ∷ ("scope", r.scope)
        ∷ ("started_at", or_none time_value r.started_at)
        ∷ ("completed_at", or_none time_value r.completed_at)
        ∷ ("cost_cents", int r.cost_cents)
        ∷ []))

  unfoldable pub asset_value : AssetRecord → Value
  unfolding fields
  asset_value a = obj (
      fields (
        ("id", id_value a.id)
        ∷ ("type", text_value a.type)
        ∷ ("natural_key", text_value a.natural_key)
        ∷ ("name", text_value a.name)
        ∷ ("attributes", a.attributes)
        ∷ []))

  unfoldable pub evidence_value : EvidenceRecord → Value
  unfolding fields
  evidence_value e = obj (
      fields (
        ("id", id_value e.id)
        ∷ ("asset_id", or_none id_value e.asset_id)
        ∷ ("source_tool", text_value e.source_tool)
        ∷ ("source_tool_version", text_value e.source_tool_version)
        ∷ ("category", text_value e.category)
        ∷ ("parsed", or_null e.parsed)
        ∷ ("confidence", float e.confidence)
        ∷ ("collected_at", time_value e.collected_at)
        ∷ []))

  unfoldable pub observation_value : ObservationRecord → Value
  unfolding fields
  observation_value o = obj (
      fields (
        ("id", id_value o.id)
        ∷ ("asset_id", id_value o.asset_id)
        ∷ ("domain", text_value o.domain)
        ∷ ("topic", str o.topic)
        ∷ ("summary", str o.summary)
        ∷ ("detail", str o.detail)
        ∷ ("facts", or_default o.facts (obj end))
        ∷ ("related_asset_ids", arr (from_items (map id_value o.related_asset_ids)))
        ∷ ("evidence_ids", arr (from_items (map id_value o.evidence_ids)))
        ∷ ("produced_by_agent", str o.produced_by_agent)
        ∷ []))

  unfoldable pub run_data : {F : Type 0} → Uuid → Tables F → Result ReportData
  unfolding known_run run_value asset_value evidence_value observation_value observation_le
  run_data run_id t = do
    run ← known_run run_id t.runs
    ok (record {
      run = run_value run;
      assets = map asset_value (
          sorted (λ a b. text_le (codes a.name) (codes b.name))
            (filter (λ a. a.run_id == run_id) t.assets));
      evidence = map evidence_value (
          sorted (λ a b. leb a.collected_at b.collected_at)
            (filter (λ e. e.run_id == run_id) t.evidence_items));
      observations =
          map observation_value
            (sorted observation_le (filter (λ o. o.run_id == run_id) t.observations));
    })

  unfoldable pub load_run : {F : Type 0} → Uuid → Exec (Db F) ReportData
  unfolding reading run_data
  load_run run_id = reading (run_data run_id)

  unfoldable pub sections_data : {F : Type 0} → Uuid → Tables F → Result SectionsData
  unfolding known_run section_le topics_from fields
  sections_data run_id t = do
    run ← known_run run_id t.runs
    ok (record {
      run = obj (
          fields (
            ("id", id_value run.id)
            ∷ ("status", text_value run.status)
            ∷ ("started_at", or_none time_value run.started_at)
            ∷ []));
      sections =
          map section_entry
            (sorted section_le (filter (λ s. s.run_id == run_id) t.report_sections));
      observation_topics = topics_from [] (filter (λ o. o.run_id == run_id) t.observations);
    })

  unfoldable pub load_sections : {F : Type 0} → Uuid → Exec (Db F) SectionsData
  unfolding reading sections_data
  load_sections run_id = reading (sections_data run_id)
