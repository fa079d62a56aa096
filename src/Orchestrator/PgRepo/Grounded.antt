-- ===== src/Orchestrator/PgRepo/Grounded.antt =====
-- PgRepo and `assemble_run_report`: the observations that the table of sections refers to.
use auditcore.Base.{
  ℕ, ◌≡◌, refl, sym, String, List, [], ◌∷◌, map, filter, filter-Mem_imp, All, All-append, All-map,
  Option-cases, inl, inr, ◌==◌,
}
use mathlib.Core.Path.{subst}
use mathlib.Core.List.{Mem}
use auditcore.Base.Sort.{sorted-All}
use auditcore.Base.Json.{Runtime}
use auditcore.Base.Error.{OnOk-ok}
use auditcore.Base.Exec.Ensures.{Ensures, Ensures-pure}
use auditcore.Base.Uuid.{Uuid}
use auditcore.Agents.Registry.{AgentRegistry}
use auditcore.Database.{Fresh, ObservationRecord, SectionRecord, Tables}
use auditcore.Orchestrator.Rows.{ReportSectionWrite}
use auditcore.Orchestrator.Discovery.{Request, GatewayClient, CallSettings}
use auditcore.Orchestrator.Runner.Discover.{Costs}
use auditcore.Orchestrator.Runner.Assemble.{assemble_run_report}
use auditcore.Orchestrator.Runner.Assemble.Safe.{
  IsGrounded, ReportRepoKeeps, assemble_run_report-keeps,
}
use auditcore.Orchestrator.PgRepo.Statements.{
  observation_row, observation_le, section_violation, insert_section, insert_sections,
}
use auditcore.Orchestrator.PgRepo.Sound.{OnTables, in_db-Ensures}
use auditcore.Orchestrator.PgRepo.{
  World, read, change, observations_for_run, write_report_sections, pg_repo,
}

-- The ids of a run's observations.
abbrev pub observed : Uuid → List ObservationRecord → List Uuid
observed run_id rows = map (λ o. o.id) (filter (λ o. o.run_id == run_id) rows)

abbrev GroundedIn : List ObservationRecord → SectionRecord → Type 0
GroundedIn os s = IsGrounded s.run_id (observed s.run_id os) s.row

-- Each section in the table is for an audience that there is, and embeds observations of its run.
abbrev pub AllGrounded : {F : Type 0} → Tables F → Type 0
AllGrounded t = All (GroundedIn t.observations) t.report_sections

-- What a report keeps of the tables: all but the sections as at its start, `t0`, and those grounded.
pub record Holds {F : Type 0} (t0 t : Tables F) : Type 0 where
  pub same : t.observations ≡ t0.observations
  pub evidence_same : t.evidence_items ≡ t0.evidence_items
  pub assets_same : t.assets ≡ t0.assets
  pub grounded : All (GroundedIn t0.observations) t.report_sections

module _ {F : Type 0} (tenant_id : String) (fresh : ℕ → Fresh) (t0 : Tables F) (run_id : Uuid) where
  insert_sections-Holds :
      (ss : List ReportSectionWrite) (t : Tables F)
      → All (IsGrounded run_id (observed run_id t0.observations)) ss
      → Holds t0 t
      → Holds t0 (insert_sections tenant_id fresh ss t).1
  unfolding insert_sections insert_section
  insert_sections-Holds [] t hs h = h
  insert_sections-Holds (s ∷ ss) t (g, hs) h = elim (Option-cases (section_violation t s)) [
    | inr (code, e) ↦ rw (e, insert_sections) h
    | inl e ↦
        rw (e, insert_sections)
          (insert_sections-Holds ss (insert_section tenant_id fresh s t) hs (record {
            same = h.same;
            evidence_same = h.evidence_same;
            assets_same = h.assets_same;
            grounded = All-append _ t.report_sections _ h.grounded (own, tt);
          }))
  ]
    where
      own : IsGrounded s.run_id (observed s.run_id t0.observations) s
      own = subst (λ r. IsGrounded r (observed r t0.observations) s) (sym g.run) g

module _ {F : Type 0} (t0 : Tables F) (run_id : Uuid) where
  selected-observed :
      (t : Tables F)
      → Holds t0 t
      → All
          (λ o. Mem o.id (observed run_id t0.observations))
          (filter (λ o. o.run_id == run_id) t.observations)
  selected-observed t h = rw (h.same) (filter-Mem_imp (λ o. o.id) _ _ (λ o e. e) t0.observations)

module _ {F N : Type 0} (tenant_id : String) (fresh : ℕ → Fresh) (t0 : Tables F)
    (run_id : Uuid) where
  abbrev Kept : World F N → Type 0
  Kept = OnTables tenant_id fresh (Holds t0)

  change-Ensures :
      (f : Tables F → Tables F)
      → ((t : Tables F) → Holds t0 t → Holds t0 (f t))
      → Ensures Kept (change tenant_id fresh f) (λ _. Unit {0})
  unfolding change
  change-Ensures f k = in_db-Ensures tenant_id fresh (Holds t0) _ k (λ t h. OnOk-ok tt tt)

  observations_for_run-Ensures :
      Ensures Kept
        (observations_for_run tenant_id fresh run_id)
        (All (λ o. Mem o.id (observed run_id t0.observations)))
  unfolding observations_for_run read
  observations_for_run-Ensures =
      in_db-Ensures tenant_id fresh (Holds t0) _ (λ t h. h)
        λ t h. OnOk-ok _ (
          All-map _ observation_row _ (
            sorted-All observation_le (λ o. Mem o.id (observed run_id t0.observations))
              (filter (λ o. o.run_id == run_id) t.observations) (selected-observed t0 run_id t h)))

  write_report_sections-Ensures :
      (ss : List ReportSectionWrite)
      → All (IsGrounded run_id (observed run_id t0.observations)) ss
      → Ensures Kept (write_report_sections tenant_id fresh ss) (λ _. Unit {0})
  unfolding write_report_sections
  write_report_sections-Ensures [] hs = Ensures-pure 0 tt
  write_report_sections-Ensures (s ∷ ss) hs =
      in_db-Ensures tenant_id fresh (Holds t0) _
        (λ t h. insert_sections-Holds tenant_id fresh t0 run_id (s ∷ ss) t hs h)
        (λ t h. record { at = λ n e. tt })

  pg_repo-ReportRepoKeeps :
      ReportRepoKeeps
        (pg_repo {F = F} {N = N} tenant_id fresh)
        Kept
        run_id
        (observed run_id t0.observations)
  unfolding pg_repo
  pg_repo-ReportRepoKeeps = record {
    reads_observations = observations_for_run-Ensures;
    writes = write_report_sections-Ensures;
    sets_status = λ status. change-Ensures _ (λ t h. record {
      same = h.same;
      evidence_same = h.evidence_same;
      assets_same = h.assets_same;
      grounded = h.grounded;
    });
    audits = λ entry. change-Ensures _ (λ t h. record {
      same = h.same;
      evidence_same = h.evidence_same;
      assets_same = h.assets_same;
      grounded = h.grounded;
    });
  }

-- The tables after a report, beside those before it.
pub assemble_run_report-Holds :
    {F N : Type 0} (rt : Runtime) (costs : Costs F) (tenant_id : String) (fresh : ℕ → Fresh)
    (registry : AgentRegistry) (gateway : GatewayClient F (World F N)) (settings : CallSettings)
    (run_id : Uuid) (w : World F N)
    → ((r : Request) (v : World F N) → (gateway r v).1.db ≡ v.db)
    → AllGrounded w.db.tables
    → Holds w.db.tables
        (assemble_run_report rt costs
          (pg_repo tenant_id fresh)
          registry
          gateway
          settings
          run_id
          w).1.db.tables
assemble_run_report-Holds {F} {N} rt costs tenant_id fresh registry gateway settings run_id w alone
      grounded =
    (assemble_run_report-keeps rt costs (pg_repo tenant_id fresh) registry gateway settings run_id _
        (pg_repo-ReportRepoKeeps {N = N} tenant_id fresh t0 run_id) quiet).keeps
      w (record { same = refl; evidence_same = refl; assets_same = refl; grounded = grounded })
  where
    t0 : Tables F
    t0 = w.db.tables

    quiet :
        (r : Request)
        → Ensures (Kept {F = F} {N = N} tenant_id fresh t0 run_id) (gateway r) (λ _. Unit {0})
    quiet r = record {
      keeps = λ v h. subst (λ d. Holds t0 d.tables) (sym (alone r v)) h;
      gives = λ v h. record { at = λ a e. tt };
    }

Holds-AllGrounded : {F : Type 0} (t0 t : Tables F) → Holds t0 t → AllGrounded t
Holds-AllGrounded t0 t h = rw (h.same) h.grounded

-- If each section in the table is for the audience technical or summary and embeds only
-- observations of its own run, then so does each section after a report pass, whatever the gateway
-- answers and whichever call fails. The gateway is taken to leave the database alone.
pub assemble_run_report-AllGrounded :
    {F N : Type 0} (rt : Runtime) (costs : Costs F) (tenant_id : String) (fresh : ℕ → Fresh)
    (registry : AgentRegistry) (gateway : GatewayClient F (World F N)) (settings : CallSettings)
    (run_id : Uuid) (w : World F N)
    → ((r : Request) (v : World F N) → (gateway r v).1.db ≡ v.db)
    → AllGrounded w.db.tables
    → AllGrounded
        (assemble_run_report rt costs
          (pg_repo tenant_id fresh)
          registry
          gateway
          settings
          run_id
          w).1.db.tables
assemble_run_report-AllGrounded rt costs tenant_id fresh registry gateway settings run_id w alone
      grounded =
    Holds-AllGrounded w.db.tables _ (
      assemble_run_report-Holds rt costs tenant_id fresh registry gateway settings run_id w alone
        grounded)
