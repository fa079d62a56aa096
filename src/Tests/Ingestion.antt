-- ===== src/Tests/Ingestion.antt =====
-- Runs of the ingestion service.
use auditcore.Base.{
  ltb, length, true, ◌≤◌, ℕ, ◌≡◌, refl, String, Option, none, some, List, [], ◌∷◌, ◌++◌, false,
  ◌==◌, if◌then◌else◌, contains→Mem, inl,
}
use auditcore.Base.Text.{text_eq, Text, codes}
use auditcore.Base.Chars.{to_string}
use auditcore.Base.Json.{int, pos, index, Value, finite, null, str, arr, nil, cons, obj, end, field}
use auditcore.Base.Error.{Result, ok, raised, key_error, type_error, foreign}
use auditcore.Base.Exec.Returns.{Returns}
use auditcore.Orchestrator.PgRepo.Sound.{IsSound}
use auditcore.Orchestrator.PgRepo.Grounded.{AllGrounded}
use auditcore.Ingestion.Bundle.{
  Bytes, Member, Archive, archive, Formats, BundleItem, Bundle, parse_bundle,
}
use auditcore.Ingestion.Item.{Settings, Services}
use auditcore.Ingestion.Site.{Site}
use auditcore.Ingestion.Runs.{IngestResponse, ingest_bundle}
use auditcore.Ingestion.Runs.Accepted.{IsAccepted, ingest_bundle-IsAccepted, ingest_bundle_again}
use auditcore.Ingestion.Runs.Rejected.{ingest_bundle_rolls_back}
use auditcore.Ingestion.Runs.Merge.{HasUniqueIds}
use auditcore.Ingestion.Runs.Kept.{ingest_bundle-HasUniqueIds, ingest_bundle-IsSound}
use auditcore.Base.Exec.{Exec}
use auditcore.Base.Uuid.{Uuid}
use auditcore.Database.{EvidenceRecord, ObservationRecord, SectionRecord}
use auditcore.Ingestion.Runs.{has_run}
use auditcore.Ingestion.Runs.Rows.{rows_of}
use auditcore.Ingestion.Runs.Succeeds.{calm, ingest_bundle-returns}
use auditcore.Tests.Data.{runtime, id_text, tables_with, observation_write}

abbrev text : String → Value
text s = str (codes s)

-- The manifest of a bundle with one item.
abbrev manifest : Value
manifest = obj (
    field "schema_version" (text "1") (
      field "collector_version" (text "0.1.0") (
        field "collected_at" (text "now") (
          field "scope" (obj end) (
            field "items"
              (arr (
                cons
                  (obj (
                    field "id" (id_text 9) (
                      field "source_tool" (text "lshw") (
                        field "source_tool_version" (text "2") (
                          field "category" (text "hardware") (
                            field "collected_at" (text "now")
                              (field "file" (text "lshw.json") end)))))))
                  nil))
              end)))))

-- An archive with two members.
unfoldable pub members : Value → Result Member
members (str (c ∷ s)) =
    if c == b'm'
    then ok (record { name = codes "manifest.json"; extract = ok (some (ok (codes "manifest"))) })
    else ok (record { name = codes "lshw.json"; extract = ok (some (ok (codes "raw"))) })
members _ = raised key_error

abbrev pub formats : Formats
formats = record {
  open_tar = λ contents. archive members;
  loads = λ contents. ok ([], some manifest);
  fromisoformat = λ s. some 5;
  runtime = runtime;
}

-- The driver takes strings only.
string_or_error : Option String → Result String
string_or_error none = raised type_error
string_or_error (some s) = ok s

unfoldable pub text_column : Value → Result String
unfolding string_or_error
text_column (str s) = string_or_error (to_string s)
text_column _ = raised (foreign 23502)

abbrev pub services : Services
services = record { formats = formats; text_column = text_column; fresh = λ n. (n, 0) }

abbrev pub config : Settings
config = record { s3_bucket_raw = codes "raw"; default_tenant_id = "t"; max_bundle_bytes = 100 }

abbrev pub site : List (Option ℕ) → Site ℕ
site faults = record {
  db = record { tables = tables_with []; faults = faults };
  uploads = [];
  store_faults = [];
}

abbrev bundle : Bundle
bundle = record {
  schema_version = codes "1";
  collector_version = codes "0.1.0";
  collected_at = 5;
  scope = obj end;
  items =
      record {
        id = 9;
        source_tool = text "lshw";
        source_tool_version = text "2";
        category = text "hardware";
        collected_at = 5;
        file_path = text "lshw.json";
        raw_bytes = codes "raw";
      }
      ∷ [];
}

parsed : parse_bundle formats (codes "tar") ≡ ok bundle
unfolding parse_bundle members codes auditcore.Ingestion.Bundle.missing_keys
    auditcore.Base.Sort.sorted auditcore.Base.Json.lookup auditcore.Base.Json.index
    auditcore.Base.Json.iterate auditcore.Base.Json.items auditcore.Base.Text.starts_with
    auditcore.Base.Text.text_eq auditcore.Base.Uuid.parse_uuid auditcore.Base.Uuid.print_uuid
    auditcore.Base.Json.py_str
parsed = refl

abbrev after : Site ℕ → Site ℕ
after s = (ingest_bundle config services 1 (codes "now") (codes "tar") s).1

abbrev answer : ℕ → IngestResponse
answer n = record { run_id = 1; accepted_items = n; status = "normalizing" }

accepts_one :
    Returns
      (ingest_bundle config services 1 (codes "now") (codes "tar"))
      (site [])
      (answer 1)
      (after (site []))
unfolding ingest_bundle codes auditcore.Base.Exec.◌>>=◌ members text_column
    auditcore.Ingestion.Bundle.missing_keys auditcore.Base.Sort.sorted auditcore.Base.Json.lookup
    auditcore.Base.Json.index auditcore.Base.Json.iterate auditcore.Base.Json.items
    auditcore.Base.Text.starts_with auditcore.Base.Text.text_eq auditcore.Base.Uuid.parse_uuid
    auditcore.Base.Uuid.print_uuid to_string auditcore.Base.contains
accepts_one = refl

ingest_bundle-IsAccepted_example :
    IsAccepted config services 1 (codes "now") (codes "tar") (answer 1) (site []) (after (site []))
ingest_bundle-IsAccepted_example =
    ingest_bundle-IsAccepted config services 1 (codes "now") (codes "tar") (site [])
      (after (site [])) (answer 1) accepts_one

-- The row of the bundle.
abbrev added : EvidenceRecord
added = record {
  id = 9;
  tenant_id = "t";
  run_id = 1;
  asset_id = none;
  source_tool = "lshw";
  source_tool_version = "2";
  collected_at = 5;
  category = "hardware";
  raw_ref =
      codes
        "s3://raw/runs/00000000-0000-0000-0000-000000000001/items/00000000-0000-0000-0000-000000000009.raw";
  parsed = none;
  confidence = finite 0 0 false;
}

-- The site later, with the row of the bundle.
abbrev later : Site ℕ
later = record (site []) {
  db = record {
    tables = record (tables_with []) {
      evidence_items = (tables_with []).evidence_items ++ added ∷ [];
    };
    faults = [];
  };
}

same_evidence : later.db.tables.evidence_items ≡ (after (site [])).db.tables.evidence_items
unfolding ingest_bundle codes auditcore.Base.Exec.◌>>=◌ members text_column
    auditcore.Ingestion.Bundle.missing_keys auditcore.Base.Sort.sorted auditcore.Base.Json.lookup
    auditcore.Base.Json.index auditcore.Base.Json.iterate auditcore.Base.Json.items
    auditcore.Base.Text.starts_with auditcore.Base.Text.text_eq auditcore.Base.Uuid.parse_uuid
    auditcore.Base.Uuid.print_uuid to_string auditcore.Base.contains
same_evidence = refl

accepts_none :
    Returns
      (ingest_bundle config services 1 (codes "later") (codes "tar"))
      later
      (answer 0)
      (ingest_bundle config services 1 (codes "later") (codes "tar") later).1
unfolding ingest_bundle codes auditcore.Base.Exec.◌>>=◌ members text_column
    auditcore.Ingestion.Bundle.missing_keys auditcore.Base.Sort.sorted auditcore.Base.Json.lookup
    auditcore.Base.Json.index auditcore.Base.Json.iterate auditcore.Base.Json.items
    auditcore.Base.Text.starts_with auditcore.Base.Text.text_eq auditcore.Base.Uuid.parse_uuid
    auditcore.Base.Uuid.print_uuid to_string auditcore.Base.contains
accepts_none = refl

ingest_bundle_again_example :
    ((answer 0).accepted_items ≡ 0)
    × ((ingest_bundle config services 1
          (codes "later")
          (codes "tar")
          later).1.db.tables.evidence_items
        ≡ (after (site [])).db.tables.evidence_items)
ingest_bundle_again_example =
    ingest_bundle_again config services 1 (codes "now") (codes "later") (codes "tar") (site [])
      (after (site [])) later
      (ingest_bundle config services 1 (codes "later") (codes "tar") later).1 (answer 1) (answer 0)
      accepts_one same_evidence accepts_none

-- The connection fails after the upload of the bundle.
fails :
    (ingest_bundle config services 1 (codes "now") (codes "tar") (site (some 7 ∷ []))).0
    ≡ raised (foreign 7)
unfolding ingest_bundle codes auditcore.Base.Exec.◌>>=◌ members
    auditcore.Ingestion.Bundle.missing_keys auditcore.Base.Sort.sorted auditcore.Base.Json.lookup
    auditcore.Base.Json.index auditcore.Base.Json.iterate auditcore.Base.Json.items
    auditcore.Base.Text.starts_with auditcore.Base.Text.text_eq auditcore.Base.Uuid.parse_uuid
    auditcore.Base.Uuid.print_uuid
fails = refl

ingest_bundle_rolls_back_example :
    (after (site (some 7 ∷ []))).db.tables ≡ (site (some 7 ∷ [])).db.tables
ingest_bundle_rolls_back_example =
    ingest_bundle_rolls_back config services 1 (codes "now") (codes "tar") (site (some 7 ∷ []))
      (foreign 7) fails

ingest_bundle-HasUniqueIds_example : HasUniqueIds (after (site [])).db.tables.evidence_items
unfolding auditcore.Base.contains
ingest_bundle-HasUniqueIds_example =
    ingest_bundle-HasUniqueIds config services 1 (codes "now") (codes "tar") (site []) (refl, tt)

abbrev observation : ObservationRecord
observation = record { id = 3; tenant_id = "t"; row = observation_write; created_at = 0 }

abbrev section : SectionRecord
section = record {
  id = 4;
  tenant_id = "t";
  row = record {
    run_id = 1;
    audience = codes "technical";
    order = pos 0;
    title = codes "Hardware";
    body_md = [];
    embedded_observations = 3 ∷ [];
    produced_by_agent = codes "report";
    model_used = "m";
  };
  created_at = 0;
}

-- A site where the run has an observation, and a section that embeds it.
abbrev described : Site ℕ
described = record (site []) {
  db = record {
    tables = record (tables_with (observation ∷ [])) { report_sections = section ∷ [] };
    faults = [];
  };
}

observation_is_kept : IsSound described.db.tables
unfolding auditcore.Base.contains
observation_is_kept = (
  record {
    run = refl;
    cites = λ h. cc;
    cited = (contains→Mem (7 ∷ []) 7 refl, tt);
    asset = contains→Mem (5 ∷ []) 5 refl;
    related = tt;
  },
  tt,
)

section_is_kept : AllGrounded described.db.tables
unfolding auditcore.Base.contains
section_is_kept =
    (record { run = refl; audience = inl refl; embedded = (contains→Mem (3 ∷ []) 3 refl, tt) }, tt)

ingest_bundle-IsSound_example :
    IsSound (after described).db.tables × AllGrounded (after described).db.tables
ingest_bundle-IsSound_example =
    ingest_bundle-IsSound config services 1 (codes "now") (codes "tar") described
      (observation_is_kept, section_is_kept)

made : rows_of config services 1 bundle.items ≡ ok (added ∷ [])
unfolding rows_of codes text_column auditcore.Ingestion.Item.evidence_record to_string
    auditcore.Ingestion.Item.item_key auditcore.Base.Uuid.print_uuid
made = refl

small : ltb config.max_bundle_bytes (length (codes "tar")) ≡ false
unfolding codes
small = refl

known : has_run 1 config.default_tenant_id (tables_with []).runs ≡ true
unfolding has_run
known = refl

ingest_bundle-returns_example :
    (r : IngestResponse) × (u : Site ℕ) × Returns
      (ingest_bundle config services 1 (codes "now") (codes "tar"))
      (calm (tables_with []) [])
      r
      u
ingest_bundle-returns_example =
    ingest_bundle-returns config services 1 (codes "now") (codes "tar") bundle (added ∷ [])
      (tables_with []) [] small parsed known made
