-- ===== src/Orchestrator/Discovery/Results.antt =====
-- discovery.py: the result of `run_domain`.
use auditcore.Base.{◌+◌, ◌≡◌, inl, inr, String, List, [], Bool-cases, true, All, length, arith}
use auditcore.Base.Json.{Value, arr, nil, Runtime, get_or, iterate, truthy}
use auditcore.Base.Error.{ok, OnOk, OnOk-ok, OnOk-bind}
use auditcore.Base.Exec.Ensures.{Ensures, Ensures-bind, Ensures-lift}
use auditcore.Base.Uuid.{Uuid}
use auditcore.Agents.Definition.{AgentDefinition}
use auditcore.Orchestrator.Rows.{EvidenceRow, AssetRow, GatewayResult}
use auditcore.Orchestrator.Discovery.{Request, GatewayClient, CallSettings, run_domain}
use auditcore.Orchestrator.Discovery.Validate.{observe_all}
use auditcore.Orchestrator.Discovery.Validate.Sourced.{IsSourced, observe_all-IsSourced}
use auditcore.Orchestrator.Discovery.Validate.Accounting.{observe_all-total}
use auditcore.Orchestrator.Discovery.Answer.{DomainResult, read_answer, context}

module _ {F : Type 0} (rt : Runtime) (run_id : Uuid) (agent : AgentDefinition) (domain : String)
    (evidence : List EvidenceRow) (assets : List AssetRow) where
  -- Every row has real provenance.
  abbrev pub AllSourced : DomainResult F → Type 0
  AllSourced r =
      All (IsSourced (context run_id agent domain evidence assets r.model_used)) r.observations

  read_answer-AllSourced :
      (result : GatewayResult F)
      → OnOk AllSourced (read_answer rt run_id agent domain evidence assets result)
  unfolding read_answer
  read_answer-AllSourced result = elim (Bool-cases (truthy result.parsed)) [
    | inr none ↦ rw none (OnOk-ok _ tt)
    | inl some ↦ rw some (
        OnOk-bind (get_or result.parsed "observations" _) _ λ listed _.
          OnOk-bind (iterate listed) _ λ raws _.
            OnOk-bind
              (observe_all rt (context run_id agent domain evidence assets result.model) 0 raws
                ([], []))
              _
              λ r e. OnOk-bind (get_or result.parsed "coverage_notes" _) _ λ notes _.
                OnOk-bind (iterate notes) _ λ coverage _. OnOk-ok _ (
                  (observe_all-IsSourced rt
                      (context run_id agent domain evidence assets result.model) 0 raws ([], [])
                      tt).at
                    r e))
  ]

  read_answer-all :
      (result : GatewayResult F) (listed : Value) (raws : List Value)
      → truthy result.parsed ≡ true
      → get_or result.parsed "observations" (arr nil) ≡ ok listed
      → iterate listed ≡ ok raws
      → OnOk
          (λ r. length r.observations + length r.dropped ≡ length raws)
          (read_answer rt run_id agent domain evidence assets result)
  unfolding read_answer
  read_answer-all result listed raws t e l = rw t (
      rw e (
        rw l (
          OnOk-bind
            (observe_all rt (context run_id agent domain evidence assets result.model) 0 raws
              ([], []))
            _
            λ r p. OnOk-bind (get_or result.parsed "coverage_notes" _) _ λ notes _.
              OnOk-bind (iterate notes) _ λ coverage _. OnOk-ok _ (
                omega (
                  arith,
                  (observe_all-total rt (context run_id agent domain evidence assets result.model) 0
                        raws ([], [])).at
                      r p,
                )))))

  -- If the gateway's answer is not empty and its `observations` can be iterated, then of the items
  -- there each is either a row of the result or a reason in `dropped`: their numbers add up.
  pub read_answer-total :
      (result : GatewayResult F) (listed : Value) (raws : List Value) (r : DomainResult F)
      → truthy result.parsed ≡ true
      → get_or result.parsed "observations" (arr nil) ≡ ok listed
      → iterate listed ≡ ok raws
      → read_answer rt run_id agent domain evidence assets result ≡ ok r
      → length r.observations + length r.dropped ≡ length raws
  read_answer-total result listed raws r t e l = (read_answer-all result listed raws t e l).at r

  -- A gateway that keeps `P` can only be used to keep it, and the rows are sourced.
  pub run_domain-Ensures {κ} :
      {W : Type 0} {P : W → Type κ} (gateway : GatewayClient F W) (settings : CallSettings)
      → ((r : Request) → Ensures P (gateway r) (λ _. Unit {0}))
      → Ensures P (run_domain rt gateway run_id agent domain evidence assets settings) AllSourced
  unfolding run_domain
  run_domain-Ensures gateway settings keep = Ensures-bind (gateway _) _ (keep _) λ result _.
      Ensures-lift (read_answer rt run_id agent domain evidence assets result)
        (read_answer-AllSourced result)

  -- Whatever the gateway answers, each row of a result that `run_domain` returns is of the run and
  -- the domain, names the agent with its version and the answer's model, cites at least one item
  -- of evidence and only evidence that was given, and its asset and its related assets are among
  -- the assets that were given.
  pub run_domain-AllSourced :
      {W : Type 0} (gateway : GatewayClient F W) (settings : CallSettings) (w : W)
      (r : DomainResult F)
      → (run_domain rt gateway run_id agent domain evidence assets settings w).0 ≡ ok r
      → AllSourced r
  run_domain-AllSourced {W} gateway settings w r =
      ((run_domain-Ensures {P = λ (v : W). Unit {0}} gateway settings
            (λ q. record { keeps = λ v h. tt; gives = λ v h. record { at = λ a e. tt } })).gives
          w tt).at
        r
