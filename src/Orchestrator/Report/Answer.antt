-- ===== src/Orchestrator/Report/Answer.antt =====
-- report.py: what `assemble_report` makes of the gateway's answer.
use auditcore.Base.{String, List, [], ◌∷◌, ◌++◌, map, if◌then◌else◌}
use auditcore.Base.Text.{codes}
use auditcore.Base.Json.{arr, nil, Runtime, get_or, iterate, truthy}
use auditcore.Base.Error.{Result, ok, ◌>>=◌}
use auditcore.Base.Uuid.{Uuid}
use auditcore.Agents.Definition.{AgentDefinition}
use auditcore.Orchestrator.Rows.{ObservationRow, GatewayResult}
use auditcore.Orchestrator.Discovery.Answer.{schema_failure, produced_by}
use auditcore.Orchestrator.Report.Section.{Output, Context, add_sections}

pub record ReportResult (F : Type 0) : Type 0 where
  pub output : Output
  pub open output use *
  pub model_used : String
  pub cost_usd : F

abbrev pub empty_output : Output
empty_output = record { sections = []; dropped = []; unknown_refs = [] }

unfoldable pub section_context : Uuid → AgentDefinition → List ObservationRow → String → Context
unfolding produced_by
section_context run_id agent observations model = record {
  run_id = run_id;
  produced_by = produced_by agent;
  model = model;
  valid_obs = map (λ o. o.id) observations;
}

module _ {F : Type 0} (rt : Runtime) where
  finish : GatewayResult F → Output → ReportResult F
  finish result out = record { output = out; model_used = result.model; cost_usd = result.cost_usd }

  no_report : GatewayResult F → ReportResult F
  unfolding schema_failure finish
  no_report result = finish result (record empty_output {
    dropped =
        (codes "report agent output failed schema validation: "
          ++ schema_failure result.schema_errors)
        ∷ [];
  })

  sections_of : Context → GatewayResult F → Result (ReportResult F)
  unfolding finish
  sections_of c result = do
    listed ← get_or result.parsed "sections" (arr nil)
    raws ← iterate listed
    out ← add_sections rt c 0 raws empty_output
    ok (finish result out)

  -- The rest of `assemble_report` once the gateway has answered.
  unfoldable pub read_report :
      Uuid → AgentDefinition → List ObservationRow → GatewayResult F → Result (ReportResult F)
  unfolding no_report sections_of
  read_report run_id agent observations result =
      if truthy result.parsed
      then sections_of (section_context run_id agent observations result.model) result
      else ok (no_report result)
