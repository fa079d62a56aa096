-- ===== src/Tests/Platform.antt =====
-- Runs of several services.
use auditcore.Base.{false, ℕ, ◌≡◌, refl, some, [], ◌∷◌, map}
use auditcore.Base.Text.{codes}
use auditcore.Base.Json.{obj, end, finite, field, arr, cons, nil}
use auditcore.Database.{Tables}
use auditcore.Orchestrator.Runner.Discover.{discover_run}
use auditcore.Orchestrator.Runner.Assemble.{assemble_run_report}
use auditcore.Orchestrator.Rows.{GatewayResult}
use auditcore.Orchestrator.PgRepo.{World, pg_repo}
use auditcore.Ingestion.Site.{Site}
use auditcore.Ingestion.Runs.{create_run, ingest_bundle}
use auditcore.Platform.Normalizer.{AssetHint, upsert_asset, write_parsed}
use auditcore.Platform.Lifecycle.{
  Setup, create, ingest, upsert, parse, discover, report, empty, Reachable, start, next,
}
use auditcore.Platform.Lifecycle.Sound.{IsKept, Reachable-IsKept}
use auditcore.Tests.Data.{
  runtime, costs, registry, settings, answering, result_with, observation_of, sections_embedding,
  id_text,
}
use auditcore.Tests.Ingestion.{config, services}

abbrev setup : Setup ℕ
setup = record {
  runtime = runtime;
  costs = costs;
  tenant_id = "t";
  fresh = λ n. (n, 0);
  config = config;
  services = services;
  merge = λ a b. b;
}

abbrev site_of : Tables ℕ → Site ℕ
site_of t = record { db = record { tables = t; faults = [] }; uploads = []; store_faults = [] }

abbrev hint : AssetHint
hint = record { asset_type = "host"; natural_key = "h1"; name = "h1"; attributes = obj end }

abbrev created : Tables ℕ
created = (create_run config services (obj end) (site_of empty)).1.db.tables

abbrev ingested : Tables ℕ
ingested =
    (ingest_bundle config services 0 (codes "now") (codes "tar") (site_of created)).1.db.tables

abbrev with_asset : Tables ℕ
with_asset = upsert_asset "t" (λ a b. b) (λ n. (n, 0)) 0 hint ingested

abbrev normalized : Tables ℕ
normalized = write_parsed 9 (some 1) (obj end) (finite 0 0 false) with_asset

abbrev world_of : Tables ℕ → World ℕ ℕ
world_of t = record { db = record { tables = t; faults = [] }; net = 0 }

-- One observation, of asset 1, that cites item 9.
abbrev observed : GatewayResult ℕ
observed = result_with (
    obj (
      field "observations" (arr (cons (obj (observation_of 1 (arr (cons (id_text 9) nil)))) nil))
        end))

abbrev described : Tables ℕ
described =
    (discover_run runtime costs (pg_repo "t" (λ n. (n, 0))) registry (answering observed) settings 0
      (world_of normalized)).1.db.tables

abbrev reported : Tables ℕ
reported =
    (assemble_run_report runtime costs (pg_repo "t" (λ n. (n, 0))) registry
      (answering (sections_embedding (arr (cons (id_text 2) nil)))) settings 0
      (world_of described)).1.db.tables

reached : Reachable ℕ setup reported
reached =
    next described reported
      (next normalized described
        (next with_asset normalized
          (next ingested with_asset
            (next created ingested (next empty created start (create (obj end) (site_of empty)))
              (ingest 0 (codes "now") (codes "tar") (site_of created)))
            (upsert 0 hint ingested))
          (parse 9 (some 1) (obj end) (finite 0 0 false) with_asset))
        (discover registry (answering observed) settings 0 (world_of normalized) (λ r v. refl)))
      (report registry (answering (sections_embedding (arr (cons (id_text 2) nil)))) settings 0
        (world_of described) (λ r v. refl))

Reachable-IsKept_example : IsKept reported
Reachable-IsKept_example = Reachable-IsKept setup reported reached

-- There is one observation, and one section that embeds it.
reported_rows :
    (map (λ o. o.id ∷ o.evidence_ids) reported.observations ≡ (2 ∷ 9 ∷ []) ∷ [])
    × (map (λ s. s.embedded_observations) reported.report_sections ≡ (2 ∷ []) ∷ [])
unfolding assemble_run_report auditcore.Agents.Registry.lookup auditcore.Base.Chars.to_string
    auditcore.Base.Exec.◌>>=◌ auditcore.Base.Int.int_of auditcore.Base.Json.get_or
    auditcore.Base.Json.index auditcore.Base.Json.items auditcore.Base.Json.iterate
    auditcore.Base.Json.lookup auditcore.Base.Json.or_default auditcore.Base.Json.py_str
    auditcore.Base.Json.truthy auditcore.Base.Markers.findall auditcore.Base.Sort.sorted
    auditcore.Base.Text.codes auditcore.Base.Text.decimal auditcore.Base.Text.starts_with
    auditcore.Base.Text.text_eq auditcore.Base.Uuid.parse_uuid auditcore.Base.Uuid.print_uuid
    auditcore.Base.contains auditcore.Ingestion.Bundle.missing_keys
    auditcore.Orchestrator.Discovery.Answer.read_answer
    auditcore.Orchestrator.Discovery.Validate.as_uuid
    auditcore.Orchestrator.Discovery.Validate.known
    auditcore.Orchestrator.Discovery.Validate.observe_all
    auditcore.Orchestrator.Discovery.Validate.related_ids
    auditcore.Orchestrator.Discovery.Validate.resolve_asset
    auditcore.Orchestrator.Discovery.Validate.validate_evidence
    auditcore.Orchestrator.Discovery.run_domain auditcore.Orchestrator.Domains.binding_for
    auditcore.Orchestrator.PgRepo.Statements.insert_observation
    auditcore.Orchestrator.PgRepo.Statements.insert_observations
    auditcore.Orchestrator.PgRepo.Statements.insert_section
    auditcore.Orchestrator.PgRepo.Statements.insert_sections
    auditcore.Orchestrator.PgRepo.Statements.section_violation
    auditcore.Orchestrator.PgRepo.Statements.select_categories
    auditcore.Orchestrator.PgRepo.Statements.select_evidence
    auditcore.Orchestrator.PgRepo.Statements.violation
    auditcore.Orchestrator.PgRepo.Statements.with_status
    auditcore.Orchestrator.Report.Answer.read_report
    auditcore.Orchestrator.Report.Answer.section_context
    auditcore.Orchestrator.Report.Section.add_sections auditcore.Orchestrator.Report.Section.embed
    auditcore.Orchestrator.Report.Section.flag_markers auditcore.Orchestrator.Report.assemble_report
    auditcore.Orchestrator.Runner.Discover.add_result auditcore.Orchestrator.Runner.Discover.gather
    auditcore.Orchestrator.Runner.Grouping.add_category
    auditcore.Orchestrator.Runner.Grouping.group_categories auditcore.Tests.Ingestion.members
    auditcore.Tests.Ingestion.text_column create_run discover_run ingest_bundle pg_repo upsert_asset
    write_parsed
reported_rows = (refl, refl)
