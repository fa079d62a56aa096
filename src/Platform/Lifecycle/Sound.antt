-- ===== src/Platform/Lifecycle/Sound.antt =====
-- What every sequence of calls keeps true of the tables.
use auditcore.Base.{ℕ, ◌≡◌, sym, ap, ◌∙◌, List}
use mathlib.Core.Path.{subst}
use auditcore.Base.Json.{Value}
use auditcore.Base.Error.{ok}
use auditcore.Base.Exec.Returns.{Returns, Returns-elim, state_of}
use auditcore.Database.{RunRecord, AuditRecord, Tables, run_create}
use auditcore.Orchestrator.PgRepo.Sound.{IsSound}
use auditcore.Orchestrator.PgRepo.Pass.{discover_run-Holds, discover_run-IsSound}
use auditcore.Orchestrator.PgRepo.Grounded.{
  AllGrounded, assemble_run_report-Holds, assemble_run_report-AllGrounded,
}
use auditcore.Ingestion.Site.{Site, on_tables, connection}
use auditcore.Ingestion.Runs.{CreateRunResponse, insert_run, audit, add_entry, create_run}
use auditcore.Ingestion.Runs.Ingested.{connection-IsRun}
use auditcore.Ingestion.Runs.Stored.{on_tables-Returns}
use auditcore.Ingestion.Runs.Rejected.{create_run_rolls_back}
use auditcore.Ingestion.Runs.Kept.{either_way, ingest_bundle-IsSound}
use auditcore.Orchestrator.Runner.Discover.{discover_run}
use auditcore.Orchestrator.PgRepo.{pg_repo}
use auditcore.Platform.Normalizer.{upsert_asset, write_parsed}
use auditcore.Platform.Lifecycle.Within.{
  Within, AllSourced-Within, AllGrounded-grown, upsert-Within, parse-Within,
}
use auditcore.Platform.Lifecycle.{
  Setup, Step, create, ingest, upsert, parse, discover, report, Reachable, start, next,
}

module _ {F : Type 0} where
  abbrev pub IsKept : Tables F → Type 0
  IsKept t = IsSound t × AllGrounded t

  -- Beside the log, `create_run` changes only the runs.
  create_run-Returns :
      (p : Setup F) (scope : Value) (s t : Site F) {r : CreateRunResponse}
      → Returns (create_run p.config p.services scope) s r t
      → (runs : List RunRecord) × (log : List (AuditRecord F)) × (drawn : ℕ) × (t.db.tables
          ≡ record s.db.tables { runs = runs; audit_log = log; drawn = drawn })
  unfolding create_run insert_run audit
  create_run-Returns p scope s t h = Returns-elim (connection _) _ s t h λ run s1 connected done.
      let body = connection-IsRun _ s s1 connected in
      Returns-elim (on_tables (insert_run p.config p.services scope)) _ body.start s1 body.returned
        λ row a inserted h1.
          Returns-elim (audit p.config p.services (run_create row.id)) _ a s1 h1
            λ _ b audited ended.
              let (put_in, _) =
                on_tables-Returns (insert_run p.config p.services scope) body.start a inserted in
              let (logged, _) =
                on_tables-Returns
                  (λ u. (ok tt, add_entry p.config p.services (run_create row.id) u)) a b audited in
              let tables =
                ap (λ x. x.db.tables) (sym (state_of done))
                ∙ (ap (λ x. x.db.tables) (sym (state_of ended))
                    ∙ (sym (state_of logged)
                        ∙ (ap (add_entry p.config p.services (run_create row.id))
                              (sym (state_of put_in))
                            ∙ ap
                                (λ u.
                                  add_entry p.config p.services (run_create row.id)
                                    (insert_run p.config p.services scope u).1)
                                body.tables))) in
              (_, _, _, tables)

  create_run-IsKept :
      (p : Setup F) (scope : Value) (s : Site F)
      → IsKept s.db.tables
      → IsKept (create_run p.config p.services scope s).1.db.tables
  create_run-IsKept p scope s h =
      either_way IsKept (create_run p.config p.services scope) s returns
        (create_run_rolls_back p.config p.services scope s) h
    where
      returns :
          (r : CreateRunResponse) (t : Site F)
          → create_run p.config p.services scope s ≡ (ok r, t)
          → IsKept t.db.tables
      returns r t e =
          let (rs, log, drawn, same) = create_run-Returns p scope s t e in subst IsKept (sym same) h

  Step-IsKept : {N : Type 0} (p : Setup F) {t u : Tables F} → Step N p t u → IsKept t → IsKept u
  unfolding upsert_asset write_parsed Within
  Step-IsKept p (create scope s) h = create_run-IsKept p scope s h
  Step-IsKept p (ingest run_id stamp contents s) h =
      ingest_bundle-IsSound p.config p.services run_id stamp contents s h
  Step-IsKept p (upsert run_id hint t) (sound, grounded) = (
    AllSourced-Within _ _ _ _ t.observations (λ run u m. m)
        (λ run. upsert-Within run p.tenant_id p.merge hint _ _ t.assets) sound,
    grounded,
  )
  Step-IsKept p (parse evidence_id asset_id parsed confidence t) (sound, grounded) = (
    AllSourced-Within _ _ _ _ t.observations
        (λ run. parse-Within run evidence_id asset_id parsed confidence t.evidence_items)
        (λ run u m. m) sound,
    grounded,
  )
  Step-IsKept p (discover registry gateway settings run_id w alone) (sound, grounded) =
      let kept =
        discover_run-Holds p.runtime p.costs p.tenant_id p.fresh registry gateway settings run_id w
          alone sound in
      let (_, end) =
        discover_run p.runtime p.costs (pg_repo p.tenant_id p.fresh) registry gateway settings
          run_id w in
      let after = end.db.tables in
      (
        discover_run-IsSound p.runtime p.costs p.tenant_id p.fresh registry gateway settings run_id
            w alone sound,
        AllGrounded-grown w.db.tables after kept.added kept.sections_same kept.grown grounded,
      )
  Step-IsKept p (report registry gateway settings run_id w alone) (sound, grounded) =
      let kept =
        assemble_run_report-Holds p.runtime p.costs p.tenant_id p.fresh registry gateway settings
          run_id w alone grounded in
      (
        rw (kept.evidence_same, kept.assets_same, kept.same) sound,
        assemble_run_report-AllGrounded p.runtime p.costs p.tenant_id p.fresh registry gateway
            settings run_id w alone grounded,
      )

  -- From empty tables, however many calls of the services there are, in whatever order, whatever they
  -- are given, whichever requests and connections fail and whatever the gateway answers: each
  -- observation cites at least one item of evidence, only normalized evidence of its own run, and
  -- assets of its run; and each section is for the audience technical or summary and embeds only
  -- observations of its own run. The gateway is taken to leave the database alone.
  pub Reachable-IsKept : {N : Type 0} (p : Setup F) (t : Tables F) → Reachable N p t → IsKept t
  Reachable-IsKept p t start = (tt, tt)
  Reachable-IsKept p t (next before after reached step) =
      Step-IsKept p step (Reachable-IsKept p before reached)
