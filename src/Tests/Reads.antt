-- ===== src/Tests/Reads.antt =====
-- Runs of the endpoints that show a run, and an upload.
use auditcore.Base.{
  ltb, length, true, ◌≤◌, ℕ, ◌≡◌, refl, String, Option, none, List, [], ◌∷◌, ◌++◌, false, ◌==◌,
  if◌then◌else◌,
}
use auditcore.Base.Text.{Text, codes}
use auditcore.Base.Json.{int, pos, index, Value, null}
use auditcore.Base.Error.{ok, raised}
use auditcore.Base.Exec.Returns.{Returns}
use auditcore.Ingestion.Site.{Site}
use auditcore.Base.Exec.{Exec}
use auditcore.Base.Uuid.{Uuid}
use auditcore.Ingestion.Site.{put_bytes}
use auditcore.Ingestion.Reads.{get_run, list_evidence, list_observations, list_report_sections}
use auditcore.Ingestion.Reads.Agree.{Counts, get_run-Counts}
use auditcore.Tests.Ingestion.{site}

-- An upload.
uploaded :
    Returns
      (put_bytes (codes "raw") (codes "a") (codes "data"))
      (site [])
      (codes "s3://raw/a")
      (record (site []) {
        uploads = record { bucket = codes "raw"; key = codes "a"; contents = codes "data" } ∷ [];
      })
unfolding put_bytes codes auditcore.Base.Exec.◌>>=◌ auditcore.Ingestion.Site.upload
uploaded = refl

abbrev isoformat : ℕ → Text
isoformat t = codes "then"

abbrev shown : (Uuid → Exec (Site ℕ) Value) → Value
shown endpoint = elim (endpoint 1 (site [])).0 [ ok v ↦ v | raised e ↦ null ]

run_shown : Returns (get_run isoformat 1) (site []) (shown (get_run isoformat)) (site [])
unfolding get_run auditcore.Base.Exec.◌>>=◌
run_shown = refl

evidence_shown :
    Returns (list_evidence isoformat 1) (site []) (shown (list_evidence isoformat)) (site [])
unfolding list_evidence auditcore.Base.Exec.◌>>=◌
evidence_shown = refl

observations_shown :
    Returns
      (list_observations isoformat 1)
      (site [])
      (shown (list_observations isoformat))
      (site [])
unfolding list_observations auditcore.Base.Exec.◌>>=◌
observations_shown = refl

sections_shown :
    Returns
      (list_report_sections isoformat 1)
      (site [])
      (shown (list_report_sections isoformat))
      (site [])
unfolding list_report_sections auditcore.Base.Exec.◌>>=◌
sections_shown = refl

get_run-Counts_example :
    Counts (shown (get_run isoformat)) "evidence_count" (shown (list_evidence isoformat)) "items"
    × Counts
        (shown (get_run isoformat))
        "observation_count"
        (shown (list_observations isoformat))
        "observations"
    × Counts
        (shown (get_run isoformat))
        "section_count"
        (shown (list_report_sections isoformat))
        "sections"
get_run-Counts_example =
    get_run-Counts isoformat 1 (site []) (site []) (site []) (site []) (site [])
      (shown (get_run isoformat)) (shown (list_evidence isoformat))
      (shown (list_observations isoformat)) (shown (list_report_sections isoformat)) run_shown
      evidence_shown observations_shown sections_shown

one_normalized : index (shown (get_run isoformat)) "normalized_count" ≡ ok (int (pos 1))
unfolding get_run auditcore.Base.Exec.◌>>=◌ index auditcore.Base.Json.lookup
one_normalized = refl
