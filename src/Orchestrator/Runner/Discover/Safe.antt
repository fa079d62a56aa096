-- ===== src/Orchestrator/Runner/Discover/Safe.antt =====
-- runner.py: `discover_run` over any persistence layer, and what it asks of one.
use auditcore.Base.{
  ◌≡◌, ◌≢◌, sym, String, Option, none, some, List, [], ◌∷◌, ◌++◌, All, All-append, All-imp, map,
}
use mathlib.Core.Path.{subst}
use mathlib.Core.List.{Mem, mem-cons, not-mem-nil}
use mathlib.Core.Logic.{∥∥₁_prop}
use mathlib.Core.Logic.Or
use auditcore.Base.Text.{codes}
use auditcore.Base.Json.{Runtime}
use auditcore.Base.Exec.Ensures.{Ensures, Ensures-pure, Ensures-bind}
use auditcore.Base.Uuid.{Uuid}
use auditcore.Agents.Definition.{AgentDefinition}
use auditcore.Agents.Registry.{AgentRegistry, lookup}
use auditcore.Orchestrator.Rows.{EvidenceRow, AssetRow, ObservationWrite}
use auditcore.Orchestrator.Repo.{Repo, AuditEntry}
use auditcore.Orchestrator.Discovery.{Request, GatewayClient, CallSettings}
use auditcore.Orchestrator.Discovery.Answer.{context}
use auditcore.Orchestrator.Discovery.Validate.Sourced.{IsSourced}
use auditcore.Orchestrator.Discovery.Results.{run_domain-Ensures}
use auditcore.Orchestrator.Runner.Grouping.{Group, group_categories}
use auditcore.Orchestrator.Runner.Discover.{
  Costs, RunReport, gather, run_agent, run_group, run_groups, empty_report, discover_run,
}

-- A row of the run that cites evidence, and assets, among those that are known.
pub record HasProvenance (run_id : Uuid) (evidence assets : List Uuid) (w : ObservationWrite)
    : Type 0 where
  pub run : w.run_id ≡ run_id
  pub cites : w.evidence_ids ≢ []
  pub cited : All (λ u. Mem u evidence) w.evidence_ids
  pub asset : Mem w.asset_id assets
  pub related : All (λ u. Mem u assets) w.related_asset_ids

pub Mem_trans :
    {u : Uuid} (xs known : List Uuid) → All (λ x. Mem x known) xs → Mem u xs → Mem u known
Mem_trans [] known h m = absurd (not-mem-nil m)
Mem_trans (x ∷ xs) known (hx, h) m =
    Or.elim ∥∥₁_prop (mem-cons.0 m) (λ e. subst (λ v. Mem v known) (sym e) hx)
      (λ m'. Mem_trans xs known h m')

pub All-ids {ℓ} :
    {A : Type ℓ} (id : A → Uuid) (known : List Uuid) (rows : List A)
    → All (λ r. Mem (id r) known) rows
    → All (λ u. Mem u known) (map id rows)
All-ids id known [] h = tt
All-ids id known (r ∷ rows) (hr, h) = (hr, All-ids id known rows h)

-- What is asked of the persistence layer: `P` is kept by every call, where only rows with
-- provenance are written, and reads give known evidence and known assets.
pub record RepoKeeps {F W : Type 0} (repo : Repo F W) (P : W → Type 0) (run_id : Uuid)
    (evidence assets : List Uuid) : Type 0 where
  pub reads_evidence :
      (category : String)
      → Ensures P (repo.evidence_for_category run_id category) (All (λ e. Mem e.id evidence))
  pub reads_assets : Ensures P (repo.assets_for_run run_id) (All (λ a. Mem a.id assets))
  pub reads_categories : Ensures P (repo.categories_present run_id) (λ _. Unit {0})
  pub writes :
      (ws : List ObservationWrite)
      → All (HasProvenance run_id evidence assets) ws
      → Ensures P (repo.write_observations ws) (λ _. Unit {0})
  pub sets_status :
      (status : String) → Ensures P (repo.set_run_status run_id status) (λ _. Unit {0})
  pub audits : (entry : AuditEntry F) → Ensures P (repo.audit run_id entry) (λ _. Unit {0})

module _ {F W : Type 0} {P : W → Type 0} (rt : Runtime) (costs : Costs F) (repo : Repo F W)
    (registry : AgentRegistry) (gateway : GatewayClient F W) (settings : CallSettings)
    (run_id : Uuid) (evidence assets : List Uuid) (keeps : RepoKeeps repo P run_id evidence assets)
    (answers : (r : Request) → Ensures P (gateway r) (λ _. Unit {0})) where
  gather-keeps :
      (categories : List String)
      → Ensures P
          (gather rt costs repo registry gateway settings run_id categories)
          (All (λ e. Mem e.id evidence))
  unfolding gather
  gather-keeps [] = Ensures-pure [] tt
  gather-keeps (c ∷ cs) =
      Ensures-bind (repo.evidence_for_category run_id c) _ (keeps.reads_evidence c) λ found hf.
        Ensures-bind _ _ (gather-keeps cs)
          λ more hm. Ensures-pure (found ++ more) (All-append _ found more hf hm)

  sourced-HasProvenance :
      (agent : AgentDefinition) (domain model : String) (es : List EvidenceRow)
      (as' : List AssetRow)
      → All (λ e. Mem e.id evidence) es
      → All (λ a. Mem a.id assets) as'
      → (w : ObservationWrite) → IsSourced (context run_id agent domain es as' model) w
      → HasProvenance run_id evidence assets w
  unfolding context
  sourced-HasProvenance agent domain model es as' he ha w s = record {
    run = s.run;
    cites = s.cites;
    cited =
        All-imp _ _ w.evidence_ids
          (λ u m. Mem_trans (map (λ e. e.id) es) evidence (All-ids (λ e. e.id) evidence es he) m)
          s.evidence;
    asset = Mem_trans (map (λ a. a.id) as') assets (All-ids (λ a. a.id) assets as' ha) s.asset;
    related =
        All-imp _ _ w.related_asset_ids
          (λ u m. Mem_trans (map (λ a. a.id) as') assets (All-ids (λ a. a.id) assets as' ha) m)
          s.related;
  }

  run_agent-keeps :
      (agent : AgentDefinition) (g : Group) (as' : List AssetRow) (report : RunReport F)
      (es : List EvidenceRow)
      → All (λ a. Mem a.id assets) as'
      → All (λ e. Mem e.id evidence) es
      → Ensures P
          (run_agent rt costs repo registry gateway settings run_id agent g as' report es)
          (λ _. Unit {0})
  unfolding run_agent
  run_agent-keeps agent g as' report [] ha he = Ensures-pure report tt
  run_agent-keeps agent g as' report (e ∷ es) ha he =
      Ensures-bind _ _
        (run_domain-Ensures rt run_id agent g.domain (e ∷ es) as' gateway settings answers)
        λ result hr.
          Ensures-bind _ _
            (keeps.writes result.observations (
              All-imp _ _ result.observations
                (sourced-HasProvenance agent g.domain result.model_used (e ∷ es) as' he ha) hr))
            λ written _. Ensures-bind _ _ (keeps.audits _) λ _ _. Ensures-pure _ tt

  run_group-keeps :
      (g : Group) (o : Option AgentDefinition) (as' : List AssetRow) (report : RunReport F)
      → All (λ a. Mem a.id assets) as'
      → Ensures P
          (run_group rt costs repo registry gateway settings run_id g o as' report)
          (λ _. Unit {0})
  unfolding run_group
  run_group-keeps g none as' report ha = Ensures-pure _ tt
  run_group-keeps g (some agent) as' report ha =
      Ensures-bind _ _ (gather-keeps g.categories)
        λ es he. run_agent-keeps agent g as' report es ha he

  run_groups-keeps :
      (gs : List Group) (as' : List AssetRow) (report : RunReport F)
      → All (λ a. Mem a.id assets) as'
      → Ensures P
          (run_groups rt costs repo registry gateway settings run_id gs as' report)
          (λ _. Unit {0})
  unfolding run_groups
  run_groups-keeps [] as' report ha = Ensures-pure report tt
  run_groups-keeps (g ∷ gs) as' report ha =
      Ensures-bind _ _ (run_group-keeps g (lookup (codes g.agent) registry) as' report ha)
        λ next _. run_groups-keeps gs as' next ha

  -- A pass keeps whatever the persistence layer keeps when only rows with provenance are written,
  -- on every path, also where a call raises.
  pub discover_run-keeps :
      Ensures P (discover_run rt costs repo registry gateway settings run_id) (λ _. Unit {0})
  unfolding discover_run
  discover_run-keeps = Ensures-bind _ _ (keeps.sets_status "discovering") λ _ _.
      Ensures-bind _ _ keeps.reads_categories λ categories _.
        Ensures-bind _ _ keeps.reads_assets λ as' ha.
          Ensures-bind _ _
            (run_groups-keeps (group_categories rt categories ([], [])).0 as'
              (empty_report rt costs repo registry gateway settings run_id
                (group_categories rt categories ([], [])).1)
              ha)
            λ report _.
              Ensures-bind _ _ (keeps.sets_status "reporting")
                λ _ _. Ensures-bind _ _ (keeps.audits _) λ _ _. Ensures-pure report tt
