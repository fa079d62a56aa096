-- ===== src/Orchestrator/Discovery/Answer.antt =====
-- discovery.py: what `run_domain` makes of the gateway's answer.
use auditcore.Base.{String, List, [], ◌∷◌, ◌++◌, map, if◌then◌else◌}
use auditcore.Base.Text.{Text, codes, join}
use auditcore.Base.Json.{arr, nil, Runtime, get_or, iterate, truthy, py_str}
use auditcore.Base.Error.{Result, ok, ◌>>=◌}
use auditcore.Base.Uuid.{Uuid}
use auditcore.Agents.Definition.{AgentDefinition}
use auditcore.Orchestrator.Rows.{EvidenceRow, AssetRow, ObservationWrite, GatewayResult}
use auditcore.Orchestrator.Discovery.Validate.{Context, observe_all}

pub record DomainResult (F : Type 0) : Type 0 where
  pub agent : Text
  pub observations : List ObservationWrite
  pub dropped : List Text
  pub coverage_notes : List Text
  pub model_used : String
  pub cost_usd : F

-- `"; ".join(errors) or "no JSON returned"`
unfoldable pub schema_failure : List Text → Text
schema_failure errors = elim (join (codes "; ") errors) [
  | [] ↦ codes "no JSON returned"
  | c ∷ s ↦ c ∷ s
]

unfoldable pub produced_by : AgentDefinition → Text
produced_by agent = agent.name ++ (codes "@" ++ agent.version)

-- The sets that the cited ids are checked against, and what every row is given.
unfoldable pub context :
    Uuid → AgentDefinition → String → List EvidenceRow → List AssetRow → String → Context
unfolding produced_by
context run_id agent domain evidence assets model = record {
  run_id = run_id;
  domain = domain;
  produced_by = produced_by agent;
  model = model;
  valid_evidence = map (λ e. e.id) evidence;
  valid_assets = map (λ a. a.id) assets;
}

module _ {F : Type 0} (rt : Runtime) where
  no_answer : AgentDefinition → GatewayResult F → DomainResult F
  unfolding schema_failure
  no_answer agent result = record {
    agent = agent.name;
    observations = [];
    dropped =
        (codes "agent output failed schema validation: " ++ schema_failure result.schema_errors)
        ∷ [];
    coverage_notes = [];
    model_used = result.model;
    cost_usd = result.cost_usd;
  }

  answer : Context → AgentDefinition → GatewayResult F → Result (DomainResult F)
  answer c agent result = do
    listed ← get_or result.parsed "observations" (arr nil)
    raws ← iterate listed
    (writes, dropped) ← observe_all rt c 0 raws ([], [])
    notes ← get_or result.parsed "coverage_notes" (arr nil)
    coverage ← iterate notes
    ok (record {
      agent = agent.name;
      observations = writes;
      dropped = dropped;
      coverage_notes = map (py_str rt) coverage;
      model_used = result.model;
      cost_usd = result.cost_usd;
    })

  -- The rest of `run_domain` once the gateway has answered.
  unfoldable pub read_answer :
      Uuid
      → AgentDefinition
      → String
      → List EvidenceRow
      → List AssetRow
      → GatewayResult F
      → Result (DomainResult F)
  unfolding no_answer answer context
  read_answer run_id agent domain evidence assets result =
      if truthy result.parsed
      then answer (context run_id agent domain evidence assets result.model) agent result
      else ok (no_answer agent result)
