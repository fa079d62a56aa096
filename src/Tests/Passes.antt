-- ===== src/Tests/Passes.antt =====
-- Runs of runner.py over Postgres.
use auditcore.Base.{ℕ, ◌≡◌, refl, none, some, List, [], ◌∷◌, All, String, length, filter, map}
use auditcore.Database.{ObservationRecord}
use auditcore.Orchestrator.Runner.Discover.{discover_run}
use auditcore.Orchestrator.Runner.Assemble.{assemble_run_report}
use auditcore.Orchestrator.Runner.Grouping.{group_categories, unbound}
use auditcore.Orchestrator.Domains.{binding_for}
use auditcore.Orchestrator.Runner.Grouping.Partition.{
  group_categories_partition, Distinct, IsGroup, listed, is_bound_to, is_unbound,
}
use auditcore.Orchestrator.PgRepo.{World, pg_repo}
use auditcore.Orchestrator.PgRepo.Sound.{IsSound}
use auditcore.Orchestrator.PgRepo.Pass.{discover_run-IsSound}
use auditcore.Orchestrator.PgRepo.Grounded.{AllGrounded, assemble_run_report-AllGrounded}
use auditcore.Tests.Data.{
  runtime, costs, registry, settings, answering, discovered, sections_answer, world,
  observation_write,
}

-- The world after a discovery pass.
abbrev after_discovery : World ℕ ℕ
after_discovery =
    (discover_run runtime costs (pg_repo "t" (λ n. (n, 0))) registry (answering discovered) settings
      1 (world [] [])).1

discover_run-IsSound_example : IsSound after_discovery.db.tables
discover_run-IsSound_example =
    discover_run-IsSound runtime costs "t" (λ n. (n, 0)) registry (answering discovered) settings 1
      (world [] []) (λ r v. refl) tt

discovery_writes_one : length after_discovery.db.tables.observations ≡ 1
unfolding discover_run auditcore.Base.Exec.◌>>=◌ pg_repo group_categories auditcore.Base.Sort.sorted
    auditcore.Orchestrator.Domains.binding_for auditcore.Orchestrator.Runner.Grouping.add_category
    auditcore.Agents.Registry.lookup auditcore.Base.Text.text_eq auditcore.Base.Text.codes
    auditcore.Orchestrator.Discovery.run_domain auditcore.Orchestrator.Discovery.Answer.read_answer
    auditcore.Base.Json.truthy auditcore.Base.Json.get_or auditcore.Base.Json.iterate
    auditcore.Base.Json.lookup auditcore.Orchestrator.Discovery.Validate.observe_all
    auditcore.Base.Json.index auditcore.Base.Json.items auditcore.Base.Json.or_default
    auditcore.Base.Json.py_str auditcore.Base.contains auditcore.Base.Uuid.parse_uuid
    auditcore.Base.Uuid.print_uuid auditcore.Orchestrator.Discovery.Validate.as_uuid
    auditcore.Orchestrator.Discovery.Validate.related_ids
    auditcore.Orchestrator.Discovery.Validate.resolve_asset
    auditcore.Orchestrator.Discovery.Validate.validate_evidence
    auditcore.Orchestrator.PgRepo.Statements.insert_observation
    auditcore.Orchestrator.PgRepo.Statements.insert_observations
    auditcore.Orchestrator.PgRepo.Statements.select_categories
    auditcore.Orchestrator.PgRepo.Statements.select_evidence
    auditcore.Orchestrator.PgRepo.Statements.violation
    auditcore.Orchestrator.PgRepo.Statements.with_status
    auditcore.Orchestrator.Runner.Discover.add_result auditcore.Orchestrator.Runner.Discover.gather
    auditcore.Base.Text.decimal
discovery_writes_one = refl

abbrev observation : ObservationRecord
observation = record { id = 0; tenant_id = "t"; row = observation_write; created_at = 0 }

abbrev after_report : World ℕ ℕ
after_report =
    (assemble_run_report runtime costs (pg_repo "t" (λ n. (n, 0))) registry
      (answering sections_answer) settings 1 (world (observation ∷ []) [])).1

assemble_run_report-AllGrounded_example : AllGrounded after_report.db.tables
assemble_run_report-AllGrounded_example =
    assemble_run_report-AllGrounded runtime costs "t" (λ n. (n, 0)) registry
      (answering sections_answer) settings 1 (world (observation ∷ []) []) (λ r v. refl) tt

report_writes_one : length after_report.db.tables.report_sections ≡ 1
unfolding assemble_run_report auditcore.Agents.Registry.lookup auditcore.Base.Text.text_eq
    auditcore.Base.Text.codes auditcore.Base.Exec.◌>>=◌ pg_repo auditcore.Base.Sort.sorted
    auditcore.Orchestrator.Report.assemble_report auditcore.Orchestrator.Report.Answer.read_report
    auditcore.Base.Json.truthy auditcore.Base.Json.get_or auditcore.Base.Json.iterate
    auditcore.Base.Json.lookup auditcore.Orchestrator.Report.Section.add_sections
    auditcore.Base.Json.items auditcore.Base.Int.int_of auditcore.Base.contains
    auditcore.Base.Json.py_str auditcore.Base.Markers.findall auditcore.Base.Uuid.parse_uuid
    auditcore.Base.Uuid.print_uuid auditcore.Orchestrator.Discovery.Validate.as_uuid
    auditcore.Orchestrator.Discovery.Validate.known
    auditcore.Orchestrator.PgRepo.Statements.insert_section
    auditcore.Orchestrator.PgRepo.Statements.insert_sections
    auditcore.Orchestrator.PgRepo.Statements.section_violation
    auditcore.Orchestrator.PgRepo.Statements.with_status
    auditcore.Orchestrator.Report.Answer.section_context auditcore.Orchestrator.Report.Section.embed
    auditcore.Orchestrator.Report.Section.flag_markers
report_writes_one = refl

abbrev categories : List String
categories = "hardware" ∷ "network" ∷ "inventory" ∷ "security" ∷ []

group_categories_partition_example :
    Distinct (group_categories runtime categories ([], [])).0
    × All IsGroup (group_categories runtime categories ([], [])).0
    × (listed "hardware" (group_categories runtime categories ([], [])).0
        ≡ filter (λ c. is_bound_to "hardware" (binding_for c)) categories)
    × ((group_categories runtime categories ([], [])).1
        ≡ map (unbound runtime) (filter (λ c. is_unbound (binding_for c)) categories))
group_categories_partition_example = group_categories_partition runtime categories "hardware"
