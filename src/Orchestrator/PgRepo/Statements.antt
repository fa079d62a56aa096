-- ===== src/Orchestrator/PgRepo/Statements.antt =====
-- The statements of PgRepo, as functions of the tables.
use auditcore.Base.{
  ℕ, ◌+◌, ◌^◌, ltb, String, Option, none, some, List, [], ◌∷◌, ◌++◌, Bool, true, false, ◌&&◌, ◌||◌,
  not, map, filter, contains, str_eq, leb, ◌==◌, if◌then◌else◌,
}
use auditcore.Base.Json.{ℤ, pos, negsuc, Value, obj, end, or_default}
use auditcore.Base.Sort.{sorted, text_le}
use auditcore.Base.Text.{codes, text_eq}
use auditcore.Base.Error.{Result, ok, raised, foreign}
use auditcore.Base.Uuid.{Uuid}
use auditcore.Database.{Fresh, RunRecord, EvidenceRecord, ObservationRecord, SectionRecord, Tables}
use auditcore.Orchestrator.Rows.{EvidenceRow, ObservationWrite, ObservationRow, ReportSectionWrite}

abbrev pub is_parsed : Option Value → Bool
is_parsed none = false
is_parsed (some v) = true

abbrev pub evidence_row : EvidenceRecord → Value → EvidenceRow
evidence_row e v = record {
  id = e.id;
  asset_id = e.asset_id;
  source_tool = e.source_tool;
  category = e.category;
  parsed = v;
}

-- `WHERE run_id = %s AND category = %s AND parsed IS NOT NULL`
unfoldable pub select_evidence : Uuid → String → List EvidenceRecord → List EvidenceRecord
select_evidence run_id category =
    filter (λ e. e.run_id == run_id && (str_eq e.category category && is_parsed e.parsed))

-- `r[4] or {}` of a column that may be NULL
abbrev pub or_empty : Option Value → Value
or_empty none = obj end
or_empty (some v) = or_default v (obj end)

-- SELECT DISTINCT … ORDER BY, over a sorted list
unfoldable pub distinct : List String → List String
distinct [] = []
distinct (a ∷ []) = a ∷ []
distinct (a ∷ b ∷ rest) = let more = distinct (b ∷ rest) in if str_eq a b then more else a ∷ more

unfoldable pub select_categories : Uuid → List EvidenceRecord → List String
unfolding distinct
select_categories run_id rows = distinct (
    sorted (λ a b. text_le (codes a) (codes b))
      (map (λ e. e.category) (filter (λ e. e.run_id == run_id && is_parsed e.parsed) rows)))

-- ORDER BY domain, topic: an enum orders by the place of its value in the type.
unfoldable pub domain_place : String → ℕ
domain_place d =
    if str_eq d "security"
    then 0
    else if str_eq d "performance"
    then 1
    else if str_eq d "cloud"
    then 2
    else if str_eq d "k8s"
    then 3
    else if str_eq d "db"
    then 4
    else if str_eq d "hardware"
    then 5
    else if str_eq d "network"
    then 6
    else 7

unfoldable pub observation_le : ObservationRecord → ObservationRecord → Bool
unfolding domain_place
observation_le a b =
    let p = domain_place a.domain in
    let q = domain_place b.domain in if p == q then text_le a.topic b.topic else leb p q

-- The order of integers.
abbrev pub int_le : ℤ → ℤ → Bool
int_le (pos a) (pos b) = leb a b
int_le (pos a) (negsuc b) = false
int_le (negsuc a) (pos b) = true
int_le (negsuc a) (negsuc b) = leb b a

-- ORDER BY audience, "order"
unfoldable pub section_le : SectionRecord → SectionRecord → Bool
section_le a b =
    if text_eq a.audience b.audience then int_le a.order b.order else text_le a.audience b.audience

abbrev pub observation_row : ObservationRecord → ObservationRow
observation_row o = record {
  id = o.id;
  asset_id = o.asset_id;
  domain = o.domain;
  topic = o.topic;
  summary = o.summary;
  detail = o.detail;
  facts = or_default o.facts (obj end);
}

-- The domains of the enum type of the column.
abbrev pub enum_domains : List String
enum_domains =
    "security" ∷ "performance" ∷ "cloud" ∷ "k8s" ∷ "db" ∷ "hardware" ∷ "network" ∷ "software" ∷ []

unfoldable pub listed : String → List String → Bool
listed d [] = false
listed d (e ∷ es) = str_eq e d || listed d es

-- The code of the constraint of the table that a row violates: the enum of its domain, and its
-- references to a run and an asset. The check on evidence_ids is NULL for an empty array, and so
-- lets it pass.
unfoldable pub violation : {F : Type 0} → Tables F → ObservationWrite → Option ℕ
unfolding listed
violation t o =
    if not (listed o.domain enum_domains)
    then some 22
    else if contains (map (λ r. r.id) t.runs) o.run_id
        && contains (map (λ a. a.row.id) t.assets) o.asset_id
    then none
    else some 23503

-- A number of the type INT.
abbrev pub is_int : ℤ → Bool
is_int (pos n) = ltb n (2 ^ 31)
is_int (negsuc n) = ltb n (2 ^ 31)

-- The same for a section: the range of its order, and its reference to a run.
unfoldable pub section_violation : {F : Type 0} → Tables F → ReportSectionWrite → Option ℕ
section_violation t s =
    if not (is_int s.order)
    then some 22003
    else if contains (map (λ r. r.id) t.runs) s.run_id
    then none
    else some 23503

unfoldable pub with_status : Uuid → String → RunRecord → RunRecord
with_status run_id status r = if r.id == run_id then record r { status = status } else r

module _ (tenant_id : String) (fresh : ℕ → Fresh) where
  abbrev pub observation_record : ObservationWrite → ℕ → ObservationRecord
  observation_record o drawn = record {
    id = (fresh drawn).0;
    tenant_id = tenant_id;
    row = o;
    created_at = (fresh drawn).1;
  }

module _ {F : Type 0} (tenant_id : String) (fresh : ℕ → Fresh) where
  unfoldable pub insert_observation : ObservationWrite → Tables F → Tables F
  insert_observation o t = record t {
    observations = t.observations ++ observation_record tenant_id fresh o t.drawn ∷ [];
    drawn = t.drawn + 1;
  }

  unfoldable pub insert_observations :
      List ObservationWrite → Tables F → Result (Unit {0}) × Tables F
  unfolding violation insert_observation
  insert_observations [] t = (ok tt, t)
  insert_observations (o ∷ rest) t =
      let more = insert_observations rest (insert_observation o t) in
      elim (violation t o) [ none ↦ more | some code ↦ (raised (foreign code), t) ]

  unfoldable pub insert_section : ReportSectionWrite → Tables F → Tables F
  insert_section s t = record t {
    report_sections =
        t.report_sections
        ++ record {
          id = (fresh t.drawn).0;
          tenant_id = tenant_id;
          row = s;
          created_at = (fresh t.drawn).1;
        }
          ∷ [];
    drawn = t.drawn + 1;
  }

  unfoldable pub insert_sections : List ReportSectionWrite → Tables F → Result (Unit {0}) × Tables F
  unfolding section_violation insert_section
  insert_sections [] t = (ok tt, t)
  insert_sections (s ∷ rest) t =
      let more = insert_sections rest (insert_section s t) in
      elim (section_violation t s) [ none ↦ more | some code ↦ (raised (foreign code), t) ]
