-- ===== src/Tests/Discovery.antt =====
-- Runs of discovery.py and report.py.
use auditcore.Base.{
  ℕ, ◌+◌, ◌≡◌, refl, some, [], ◌∷◌, ◌++◌, contains, contains→Mem, Mem→contains, length, arith,
}
use mathlib.Core.List.{Mem}
use auditcore.Base.Text.{codes, decimal, text_eq}
use auditcore.Base.Json.{
  arr, nil, cons, obj, str, pos, from_items, get_or, index, iterate, items, truthy, lookup,
  or_default, py_str,
}
use auditcore.Base.Error.{ok}
use auditcore.Base.Int.{int_of}
use auditcore.Base.Markers.{findall}
use auditcore.Base.Exec.{◌>>=◌}
use auditcore.Base.Uuid.{print_uuid, parse_uuid}
use auditcore.Base.Uuid.RoundTrip.{parse_uuid-print_uuid}
use auditcore.Orchestrator.Discovery.Validate.{
  Context, observe, observe_all, validate_evidence, resolve_asset, related_ids, known, written,
  dropped, as_uuid,
}
use auditcore.Orchestrator.Discovery.Validate.Citations.{
  observe-IsCited, observe-foreign, IsCited, Encodes, Given,
}
use auditcore.Orchestrator.Discovery.{run_domain}
use auditcore.Orchestrator.Discovery.Answer.{DomainResult, read_answer}
use auditcore.Orchestrator.Discovery.Results.{run_domain-AllSourced, read_answer-total, AllSourced}
use auditcore.Orchestrator.Report.{assemble_report}
use auditcore.Orchestrator.Report.Answer.{ReportResult, read_report, section_context}
use auditcore.Orchestrator.Report.Section.{add_sections, embed, flag_markers}
use auditcore.Orchestrator.Report.Section.Traceable.{AllTraceable}
use auditcore.Orchestrator.Report.Results.{assemble_report-AllTraceable}
use auditcore.Tests.Data.{
  observation_row, sections_answer, marked_body, discovered, answering, settings, runtime,
  good_observation, foreign_observation, observation_write, agent, evidence_row, asset_row, id_text,
}

abbrev given : Context
given = record {
  run_id = 1;
  domain = "hardware";
  produced_by = codes "hardware@0.1.0";
  model = "m";
  valid_evidence = 7 ∷ [];
  valid_assets = 5 ∷ [];
}

seven-Given : Given given.valid_evidence 7
unfolding contains
seven-Given = (contains→Mem (7 ∷ []) 7 refl, omega arith)

five-Given : Given given.valid_assets 5
unfolding contains
five-Given = (contains→Mem (5 ∷ []) 5 refl, omega arith)

observation_write-Encodes : Encodes good_observation observation_write
unfolding lookup from_items or_default truthy
observation_write-Encodes = record {
  asset_id = refl;
  evidence_ids = refl;
  related_asset_ids = refl;
  topic = refl;
  summary = refl;
  detail = refl;
  facts = refl;
  facts_kept = refl;
}

observation_write-IsCited : IsCited given observation_write
observation_write-IsCited = record {
  cites = λ e. cc;
  evidence = (seven-Given, tt);
  asset = five-Given;
  related = tt;
  run = refl;
  domain = refl;
  agent = refl;
  model = refl;
}

observe-IsCited_example :
    observe runtime given 0 (obj good_observation) ≡ ok (written observation_write)
observe-IsCited_example =
    observe-IsCited runtime given good_observation observation_write observation_write-Encodes
      observation_write-IsCited 0

nine_not_given : ¬ (Mem 9 given.valid_evidence)
unfolding contains
nine_not_given m = let e = Mem→contains (7 ∷ []) 9 m in cc

nine-as_uuid : as_uuid (id_text 9) ≡ some 9
unfolding as_uuid
nine-as_uuid = parse_uuid-print_uuid 9 (omega arith)

observe-foreign_example :
    observe runtime given 3 (obj foreign_observation)
    ≡ ok (
        dropped (
          codes "obs[3] (cpu): cites evidence "
          ++ (print_uuid 9 ++ codes " that was not provided (fabricated provenance)")))
unfolding lookup from_items codes print_uuid decimal py_str
observe-foreign_example =
    observe-foreign runtime given foreign_observation 3 (7 ∷ []) (id_text 9) 9 []
      (str (codes "cpu")) (seven-Given, tt) nine-as_uuid nine_not_given refl refl

-- One row is kept, and the fabricated one is reported.
abbrev domain_result : DomainResult ℕ
domain_result = record {
  agent = codes "hardware";
  observations = observation_write ∷ [];
  dropped =
      (codes "obs[1] (cpu): cites evidence "
        ++ (print_uuid 9 ++ codes " that was not provided (fabricated provenance)"))
      ∷ [];
  coverage_notes = [];
  model_used = "m";
  cost_usd = 1;
}

read_answer-discovered :
    read_answer runtime 1
      (agent (codes "hardware"))
      "hardware"
      (evidence_row ∷ [])
      (asset_row ∷ [])
      discovered
    ≡ ok domain_result
unfolding read_answer truthy get_or iterate lookup observe_all items validate_evidence as_uuid
    parse_uuid print_uuid contains resolve_asset index py_str or_default related_ids decimal
read_answer-discovered = refl

run_domain-discovered :
    (run_domain {W = ℕ} runtime
      (answering discovered)
      1
      (agent (codes "hardware"))
      "hardware"
      (evidence_row ∷ [])
      (asset_row ∷ [])
      settings
      0).0
    ≡ ok domain_result
unfolding run_domain ◌>>=◌
run_domain-discovered = read_answer-discovered

run_domain-AllSourced_example :
    AllSourced runtime 1
      (agent (codes "hardware"))
      "hardware"
      (evidence_row ∷ [])
      (asset_row ∷ [])
      domain_result
run_domain-AllSourced_example =
    run_domain-AllSourced runtime 1 (agent (codes "hardware")) "hardware" (evidence_row ∷ [])
      (asset_row ∷ []) {W = ℕ} (answering discovered) settings 0 domain_result run_domain-discovered

read_answer-total_example : length domain_result.observations + length domain_result.dropped ≡ 2
unfolding truthy get_or lookup iterate items
read_answer-total_example =
    read_answer-total runtime 1 (agent (codes "hardware")) "hardware" (evidence_row ∷ [])
      (asset_row ∷ []) discovered
      (arr (cons (obj good_observation) (cons (obj foreign_observation) nil)))
      (obj good_observation ∷ obj foreign_observation ∷ []) domain_result refl refl refl
      read_answer-discovered

-- A section that embeds observation 0; observation 9, to which it refers twice, is reported.
abbrev report_result : ReportResult ℕ
report_result = record {
  output = record {
    sections =
        record {
          run_id = 1;
          audience = codes "technical";
          order = pos 0;
          title = codes "Hardware";
          body_md = marked_body;
          embedded_observations = 0 ∷ [];
          produced_by_agent = codes "report@0.1.0";
          model_used = "m";
        }
        ∷ [];
    dropped = [];
    unknown_refs = print_uuid 9 ∷ print_uuid 9 ∷ [];
  };
  model_used = "m";
  cost_usd = 1;
}

assemble_report-answered :
    (assemble_report {W = ℕ} runtime
      (answering sections_answer)
      1
      (agent (codes "report"))
      (observation_row ∷ [])
      settings
      0).0
    ≡ ok report_result
unfolding assemble_report ◌>>=◌ read_report truthy get_or iterate lookup add_sections items text_eq
    codes int_of section_context py_str embed flag_markers known findall as_uuid print_uuid
    parse_uuid contains
assemble_report-answered = refl

assemble_report-AllTraceable_example : AllTraceable 1 (0 ∷ []) report_result.output
assemble_report-AllTraceable_example =
    assemble_report-AllTraceable runtime 1 (agent (codes "report")) (observation_row ∷ []) {W = ℕ}
      (answering sections_answer) settings 0 report_result assemble_report-answered
