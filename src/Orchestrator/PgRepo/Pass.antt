-- ===== src/Orchestrator/PgRepo/Pass.antt =====
-- A whole discovery pass over Postgres.
use auditcore.Base.{ℕ, ◌≡◌, refl, sym, String, []}
use mathlib.Core.Path.{subst}
use mathlib.Core.List.{append-nil}
use auditcore.Base.Json.{Runtime}
use auditcore.Base.Exec.Ensures.{Ensures}
use auditcore.Base.Uuid.{Uuid}
use auditcore.Agents.Registry.{AgentRegistry}
use auditcore.Database.{Fresh, Tables}
use auditcore.Orchestrator.Discovery.{Request, GatewayClient, CallSettings}
use auditcore.Orchestrator.Runner.Discover.{Costs, discover_run}
use auditcore.Orchestrator.Runner.Discover.Safe.{discover_run-keeps}
use auditcore.Orchestrator.PgRepo.{World, pg_repo}
use auditcore.Orchestrator.PgRepo.Sound.{Holds, Kept, IsSound, pg_repo-RepoKeeps}

Holds-start : {F : Type 0} (t : Tables F) → IsSound t → Holds t t
Holds-start t h = record {
  evidence_same = refl;
  assets_same = refl;
  sections_same = refl;
  sound = h;
  added = [];
  grown = sym (append-nil t.observations);
}

Holds-IsSound : {F : Type 0} (t0 t : Tables F) → Holds t0 t → IsSound t
Holds-IsSound t0 t h = rw (h.evidence_same, h.assets_same) h.sound

-- The tables after a pass, beside those before it.
pub discover_run-Holds :
    {F N : Type 0} (rt : Runtime) (costs : Costs F) (tenant_id : String) (fresh : ℕ → Fresh)
    (registry : AgentRegistry) (gateway : GatewayClient F (World F N)) (settings : CallSettings)
    (run_id : Uuid) (w : World F N)
    → ((r : Request) (v : World F N) → (gateway r v).1.db ≡ v.db)
    → IsSound w.db.tables
    → Holds w.db.tables
        (discover_run rt costs
          (pg_repo tenant_id fresh)
          registry
          gateway
          settings
          run_id
          w).1.db.tables
discover_run-Holds {F} {N} rt costs tenant_id fresh registry gateway settings run_id w alone sound =
    (discover_run-keeps rt costs (pg_repo tenant_id fresh) registry gateway settings run_id _ _
        (pg_repo-RepoKeeps {N = N} tenant_id fresh t0 run_id) quiet).keeps
      w (Holds-start t0 sound)
  where
    t0 : Tables F
    t0 = w.db.tables

    quiet :
        (r : Request)
        → Ensures (Kept {F = F} {N = N} tenant_id fresh t0 run_id) (gateway r) (λ _. Unit {0})
    quiet r = record {
      keeps = λ v h. subst (λ d. Holds t0 d.tables) (sym (alone r v)) h;
      gives = λ v h. record { at = λ a e. tt };
    }

-- If each observation in the table cites at least one item of evidence, only normalized evidence of
-- its own run, and assets of its run, then so does each observation after a discovery pass,
-- whatever the gateway answers and whichever call fails. The gateway is taken to leave the database
-- alone.
pub discover_run-IsSound :
    {F N : Type 0} (rt : Runtime) (costs : Costs F) (tenant_id : String) (fresh : ℕ → Fresh)
    (registry : AgentRegistry) (gateway : GatewayClient F (World F N)) (settings : CallSettings)
    (run_id : Uuid) (w : World F N)
    → ((r : Request) (v : World F N) → (gateway r v).1.db ≡ v.db)
    → IsSound w.db.tables
    → IsSound
        (discover_run rt costs
          (pg_repo tenant_id fresh)
          registry
          gateway
          settings
          run_id
          w).1.db.tables
discover_run-IsSound rt costs tenant_id fresh registry gateway settings run_id w alone sound =
    Holds-IsSound w.db.tables _
      (discover_run-Holds rt costs tenant_id fresh registry gateway settings run_id w alone sound)
