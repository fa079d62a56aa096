-- ===== src/Orchestrator/Report.antt =====
-- report.py: the report agent over the observations of a run.
pub mod Section
pub mod Results
pub mod Answer
use auditcore.Base.{String, List, ◌++◌, map}
use auditcore.Base.Text.{Text, codes}
use auditcore.Base.Json.{Value, str, arr, obj, end, field, from_items, Runtime}
use auditcore.Base.Exec.{Exec, lift, ◌>>=◌}
use auditcore.Base.Uuid.{Uuid, print_uuid}
use auditcore.Agents.Definition.{AgentDefinition}
use auditcore.Orchestrator.Rows.{ObservationRow}
use auditcore.Orchestrator.Discovery.{GatewayClient, CallSettings, request}
use Answer.{ReportResult, read_report}

observation_entry : ObservationRow → Value
observation_entry o = obj (
    field "observation_id" (str (print_uuid o.id)) (
      field "asset_id" (str (print_uuid o.asset_id)) (
        field "domain" (str (codes o.domain)) (
          field "topic" (str o.topic) (
            field "summary" (str o.summary)
              (field "detail" (str o.detail) (field "facts" o.facts end)))))))

unfoldable pub build_report_input : Runtime → List ObservationRow → Text
unfolding observation_entry
build_report_input rt observations =
    codes
      "OBSERVATIONS (the discovered facts; reference any with [[observation:<id>]] and list ids in embedded_observations):\n"
    ++ (rt.dumps (arr (from_items (map observation_entry observations)))
        ++ codes
            "\n\nAssemble these into a precise, exhaustive description of the system. State only what the observations contain.")

module _ {F W : Type 0} (rt : Runtime) (gateway : GatewayClient F W) where
  unfoldable pub assemble_report :
      Uuid → AgentDefinition → List ObservationRow → CallSettings → Exec W (ReportResult F)
  unfolding request
  assemble_report run_id agent observations settings = do
    result ← gateway (request agent settings (build_report_input rt observations))
    lift (read_report rt run_id agent observations result)
