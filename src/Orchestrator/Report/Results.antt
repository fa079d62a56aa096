-- ===== src/Orchestrator/Report/Results.antt =====
-- report.py: the result of `assemble_report`.
use auditcore.Base.{◌≡◌, List, Bool-cases, inl, inr, map}
use auditcore.Base.Json.{Runtime, get_or, iterate, truthy}
use auditcore.Base.Error.{ok, OnOk, OnOk-ok, OnOk-bind}
use auditcore.Base.Exec.Ensures.{Ensures, Ensures-bind, Ensures-lift}
use auditcore.Base.Uuid.{Uuid}
use auditcore.Agents.Definition.{AgentDefinition}
use auditcore.Orchestrator.Rows.{ObservationRow, GatewayResult}
use auditcore.Orchestrator.Discovery.{Request, GatewayClient, CallSettings}
use auditcore.Orchestrator.Report.{assemble_report}
use auditcore.Orchestrator.Report.Answer.{ReportResult, read_report, section_context, empty_output}
use auditcore.Orchestrator.Report.Section.{add_sections}
use auditcore.Orchestrator.Report.Section.Traceable.{AllTraceable, add_sections-AllTraceable}

module _ {F : Type 0} (rt : Runtime) (run_id : Uuid) (agent : AgentDefinition)
    (observations : List ObservationRow) where
  read_report-AllTraceable :
      (result : GatewayResult F)
      → OnOk
          (λ r. AllTraceable run_id (map (λ o. o.id) observations) r.output)
          (read_report rt run_id agent observations result)
  unfolding read_report section_context
  read_report-AllTraceable result = elim (Bool-cases (truthy result.parsed)) [
    | inr none ↦ rw none (OnOk-ok _ tt)
    | inl some ↦ rw some (
        OnOk-bind (get_or result.parsed "sections" _) _ λ listed _.
          OnOk-bind (iterate listed) _ λ raws _.
            OnOk-bind
              (add_sections rt (section_context run_id agent observations result.model) 0 raws
                empty_output)
              _
              λ out e. OnOk-ok _ (
                (add_sections-AllTraceable rt
                    (section_context run_id agent observations result.model) 0 raws empty_output
                    tt).at
                  out e))
  ]

  pub assemble_report-Ensures :
      {W : Type 0} {P : W → Type 0} (gateway : GatewayClient F W) (settings : CallSettings)
      → ((r : Request) → Ensures P (gateway r) (λ _. Unit {0}))
      → Ensures P
          (assemble_report rt gateway run_id agent observations settings)
          (λ r. AllTraceable run_id (map (λ o. o.id) observations) r.output)
  unfolding assemble_report
  assemble_report-Ensures gateway settings keep = Ensures-bind (gateway _) _ (keep _) λ result _.
      Ensures-lift (read_report rt run_id agent observations result)
        (read_report-AllTraceable result)

  -- Whatever the gateway answers, each section that `assemble_report` returns is of the run, is for
  -- the audience technical or summary, and embeds only observations that were given; and each
  -- marker in its body names one of those or is in `unknown_refs`.
  pub assemble_report-AllTraceable :
      {W : Type 0} (gateway : GatewayClient F W) (settings : CallSettings) (w : W)
      (r : ReportResult F)
      → (assemble_report rt gateway run_id agent observations settings w).0 ≡ ok r
      → AllTraceable run_id (map (λ o. o.id) observations) r.output
  assemble_report-AllTraceable {W} gateway settings w r =
      ((assemble_report-Ensures {P = λ (v : W). Unit {0}} gateway settings
            (λ q. record { keeps = λ v h. tt; gives = λ v h. record { at = λ a e. tt } })).gives
          w tt).at
        r
