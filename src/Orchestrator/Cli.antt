-- ===== src/Orchestrator/Cli.antt =====
-- main.py of the orchestrator: its two commands, up to the printing of their lines.
use auditcore.Base.{
  ℕ, String, Option, none, some, List, [], ◌∷◌, ◌++◌, length, map, str_eq, if◌then◌else◌,
}
use auditcore.Base.Text.{Text, codes, decimal, join}
use auditcore.Base.Json.{Runtime}
use auditcore.Base.Error.{Result, ok, raised, value_error}
use auditcore.Base.Exec.{Exec, pure, lift, ◌>>=◌}
use auditcore.Base.Uuid.{Uuid, parse_uuid, print_uuid}
use auditcore.Agents.Definition.{FileSystem, Parsers}
use auditcore.Agents.Registry.{load}
use auditcore.Database.{Fresh}
use auditcore.Orchestrator.Discovery.{GatewayClient, CallSettings}
use auditcore.Orchestrator.Runner.Discover.{Costs, RunReport, discover_run}
use auditcore.Orchestrator.Runner.Assemble.{ReportRunResult, assemble_run_report}
use auditcore.Orchestrator.PgRepo.{World, pg_repo}

pub record Settings : Type 0 where
  -- as UUID prints it
  pub default_tenant_id : String
  pub budget_hint : String
  pub privacy : String

-- An option of the command line, or what the settings say.
abbrev option_or : Option String → String → String
option_or none d = d
option_or (some s) d = if str_eq s "" then d else s

-- `UUID(s)`
unfoldable pub uuid : Text → Result Uuid
uuid s = elim (parse_uuid s) [ none ↦ raised value_error | some u ↦ ok u ]

abbrev drop_lines : List Text → List Text
drop_lines dropped = map (λ d. codes "    - " ++ d) dropped

abbrev agents_run : List String → Text
agents_run [] = codes "(none)"
agents_run (d ∷ ds) = join (codes ", ") (map codes (d ∷ ds))

-- `usd` prints a cost with four places.
module _ {F : Type 0} (usd : F → Text) where
  unfoldable pub run_lines : RunReport F → List Text
  run_lines report =
      (codes "run " ++ print_uuid report.run_id)
      ∷ (codes "  agents run:    " ++ agents_run report.domains_run)
      ∷ (codes "  observations:  " ++ decimal report.observations_written)
      ∷ (codes "  dropped:       " ++ decimal (length report.dropped))
      ∷ (drop_lines report.dropped ++ (codes "  cost (USD):    " ++ usd report.cost_usd) ∷ [])

  unfoldable pub report_lines : ReportRunResult F → List Text
  report_lines result =
      (codes "run " ++ print_uuid result.run_id)
      ∷ (codes "  sections:     " ++ decimal result.sections_written)
      ∷ (codes "  unknown refs: " ++ decimal (length result.unknown_refs))
      ∷ (codes "  dropped:      " ++ decimal (length result.dropped))
      ∷ (drop_lines result.dropped ++ (codes "  cost (USD):   " ++ usd result.cost_usd) ∷ [])

  module _ {N : Type 0} (rt : Runtime) (costs : Costs F) (fs : FileSystem) (ps : Parsers)
      (fresh : ℕ → Fresh) (gateway : GatewayClient F (World F N)) (settings : Settings)
      (run_id : Text) (budget privacy : Option String) where
    abbrev call_settings : CallSettings
    call_settings = record {
      tenant_id = settings.default_tenant_id;
      budget_hint = option_or budget settings.budget_hint;
      privacy = option_or privacy settings.privacy;
    }

    unfoldable pub run_command : Exec (World F N) (List Text)
    unfolding load uuid discover_run pg_repo run_lines
    run_command = do
      registry ← lift (load fs ps)
      tenant ← lift (uuid (codes settings.default_tenant_id))
      id ← lift (uuid run_id)
      report ←
          discover_run rt costs (pg_repo settings.default_tenant_id fresh) registry gateway
            call_settings id
      pure (run_lines report)

    unfoldable pub report_command : Exec (World F N) (List Text)
    unfolding load uuid assemble_run_report pg_repo report_lines
    report_command = do
      registry ← lift (load fs ps)
      tenant ← lift (uuid (codes settings.default_tenant_id))
      id ← lift (uuid run_id)
      result ←
          assemble_run_report rt costs (pg_repo settings.default_tenant_id fresh) registry gateway
            call_settings id
      pure (report_lines result)
