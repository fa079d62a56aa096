-- ===== src/Tests/Rendering.antt =====
-- Runs of render.py and sections.py.
use auditcore.Base.{ℕ, String, Option, none, some, List, [], ◌∷◌, ◌≡◌, refl}
use auditcore.Base.Text.{Text, codes, text_eq}
use auditcore.Base.Sort.{sorted, text_le}
use auditcore.Base.Markers.{sub}
use auditcore.Base.Json.{null}
use auditcore.Base.Error.{ok, raised}
use auditcore.Base.Exec.Returns.{Returns}
use auditcore.Database.{Db}
use auditcore.Rendering.Loader.{ReportData, load_run}
use auditcore.Rendering.Grouping.{Page, page_for, observations_by_domain, count_by}
use auditcore.Tests.Data.{tables_with, observation_write}
use auditcore.Rendering.Sections.{expand_markers}

-- A row is its domain.
abbrev column : Option Text → String → Option Text
column domain key = domain

abbrev rows : List (Option Text)
rows = some (codes "db") ∷ none ∷ some (codes "x") ∷ some (codes "db") ∷ []

grouped_in_order :
    observations_by_domain column rows
    ≡ (codes "software", none ∷ [])
      ∷ (codes "db", some (codes "db") ∷ some (codes "db") ∷ [])
      ∷ (codes "x", some (codes "x") ∷ [])
      ∷ []
unfolding observations_by_domain text_eq codes
grouped_in_order = refl

counted_by_category :
    count_by column rows "category" ≡ (codes "db", 2) ∷ (codes "unknown", 1) ∷ (codes "x", 1) ∷ []
unfolding count_by sorted text_le text_eq codes
counted_by_category = refl

-- The text of a marker is looked up as it stands.
upper_case_marker :
    expand_markers
      (codes "[[observation:00000000-0000-0000-0000-00000000000A]]")
      ((codes "00000000-0000-0000-0000-00000000000a", codes "cpu") ∷ [])
    ≡ codes "*(unknown observation)*"
unfolding expand_markers sub text_eq codes
upper_case_marker = refl

abbrev isoformat : ℕ → Text
isoformat t = codes "then"

abbrev stored : Db ℕ
stored = record {
  tables =
      tables_with
        (record { id = 0; tenant_id = "t"; row = observation_write; created_at = 0 } ∷ []);
  faults = [];
}

abbrev loaded : ReportData
loaded = elim (load_run isoformat 1 stored).0 [
  | ok given ↦ given
  | raised e ↦ record { run = null; assets = []; evidence = []; observations = [] }
]

abbrev page : Page
page = elim (page_for loaded (codes "technical")) [
  | ok p ↦ p
  | raised e ↦ record { domains = []; evidence_by_category = [] }
]
