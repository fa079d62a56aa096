-- ===== src/Ingestion/Runs/Rejected.antt =====
-- main.py: an endpoint that raises leaves the tables as they were.
use auditcore.Base.{
  ℕ, ◌≡◌, refl, ◌∙◌, ltb, Option, none, some, List, [], ◌∷◌, length, Bool-cases, inl, inr,
}
use auditcore.Base.Text.{Text}
use auditcore.Base.Json.{Value}
use auditcore.Base.Error.{PyError, Result, ok, raised}
use auditcore.Base.Exec.{Exec, pure, raise, lift, continue, ◌>>=◌}
use auditcore.Base.Uuid.{Uuid}
use auditcore.Database.{Tables}
use auditcore.Ingestion.Bundle.{Bytes}
use auditcore.Ingestion.Item.{Settings, Services, bundle_key_of}
use auditcore.Ingestion.Site.{
  Site, request, send, write_object, put_bytes, settle, connected, connection,
}
use auditcore.Ingestion.Runs.{take_in, create_run, ingest_bundle, store_bundle}

-- Whatever comes of the action, the tables are as before.
record IsQuiet {F A : Type 0} (m : Exec (Site F) A) : Type 0 where
  at : (s : Site F) → (m s).1.db.tables ≡ s.db.tables

-- If the action raises, the tables are as before.
pub record RollsBack {F A : Type 0} (m : Exec (Site F) A) : Type 0 where
  pub at : (s : Site F) (e : PyError) → (m s).0 ≡ raised e → (m s).1.db.tables ≡ s.db.tables

module _ {F A B : Type 0} where
  -- Before the last action that writes to the tables.
  quiet_then :
      (m : Exec (Site F) A) (f : A → Exec (Site F) B)
      → IsQuiet m
      → ((a : A) → RollsBack (f a))
      → RollsBack (m >>= f)
  unfolding ◌>>=◌
  quiet_then m f quiet rolls = record { at = λ s e h. from s e (m s) (quiet.at s) h }
    where
      from :
          (s : Site F) (e : PyError) (p : Result A × Site F)
          → p.1.db.tables ≡ s.db.tables
          → (continue p.0 f p.1).0 ≡ raised e
          → (continue p.0 f p.1).1.db.tables ≡ s.db.tables
      from s e (ok a, u) same h = (rolls a).at u e h ∙ same
      from s e (raised e', u) same h = same

  -- After it.
  then_pure : (m : Exec (Site F) A) (f : A → B) → RollsBack m → RollsBack (m >>= λ a. pure (f a))
  unfolding ◌>>=◌
  then_pure m f rolls = record { at = λ s e h. from s e (m s) (rolls.at s) h }
    where
      from :
          (s : Site F) (e : PyError) (p : Result A × Site F)
          → ((x : PyError) → p.0 ≡ raised x → p.1.db.tables ≡ s.db.tables)
          → (continue p.0 (λ a. pure (f a)) p.1).0 ≡ raised e
          → (continue p.0 (λ a. pure (f a)) p.1).1.db.tables ≡ s.db.tables
      from s e (ok a, u) back h = cc
      from s e (raised e', u) back h = back e' refl

  IsQuiet-bind :
      (m : Exec (Site F) A) (f : A → Exec (Site F) B)
      → IsQuiet m
      → ((a : A) → IsQuiet (f a))
      → IsQuiet (m >>= f)
  unfolding ◌>>=◌
  IsQuiet-bind m f quiet next = record { at = λ s. from s (m s) (quiet.at s) }
    where
      from :
          (s : Site F) (p : Result A × Site F)
          → p.1.db.tables ≡ s.db.tables
          → (continue p.0 f p.1).1.db.tables ≡ s.db.tables
      from s (ok a, u) same = (next a).at u ∙ same
      from s (raised e, u) same = same

module _ {F A : Type 0} where
  settle_back :
      (old : Tables F) (p : Result A × Site F) (e : PyError)
      → (settle old p).0 ≡ raised e
      → (settle old p).1.db.tables ≡ old
  unfolding settle
  settle_back old (ok a, u) e h = cc
  settle_back old (raised e', u) e h = refl

  connected_back :
      (faults : List (Option ℕ)) (body : Exec (Site F) A) (s : Site F) (e : PyError)
      → (connected faults body s).0 ≡ raised e
      → (connected faults body s).1.db.tables ≡ s.db.tables
  unfolding connected
  connected_back [] body s e h = settle_back s.db.tables (body s) e h
  connected_back (none ∷ fs) body s e h =
      settle_back s.db.tables (body (record s { db = record s.db { faults = fs } })) e h
  connected_back (some c ∷ fs) body s e h = refl

  connection-RollsBack : (body : Exec (Site F) A) → RollsBack (connection body)
  unfolding connection
  connection-RollsBack body = record { at = λ s e h. connected_back s.db.faults body s e h }

module _ {F : Type 0} where
  request_quiet :
      (faults : List (Option ℕ)) (s : Site F) → (request faults s).1.db.tables ≡ s.db.tables
  unfolding request
  request_quiet [] s = refl
  request_quiet (none ∷ fs) s = refl
  request_quiet (some e ∷ fs) s = refl

  put_bytes-IsQuiet :
      (bucket key : Text) (contents : Bytes) → IsQuiet (put_bytes {F = F} bucket key contents)
  unfolding put_bytes send write_object
  put_bytes-IsQuiet bucket key contents =
      IsQuiet-bind _ _ (record { at = λ s. request_quiet s.store_faults s })
        λ _. IsQuiet-bind _ _ (record { at = λ s. refl }) λ _. record { at = λ s. refl }

  lift-IsQuiet : {A : Type 0} (r : Result A) → IsQuiet (lift {S = Site F} r)
  lift-IsQuiet r = record { at = λ s. refl }

  raise-RollsBack : {A : Type 0} (e : PyError) → RollsBack (raise {S = Site F} {A = A} e)
  raise-RollsBack e = record { at = λ s x h. refl }

module _ {F : Type 0} (config : Settings) (sv : Services) where
  create_run-RollsBack : (scope : Value) → RollsBack (create_run {F = F} config sv scope)
  unfolding create_run
  create_run-RollsBack scope = then_pure (connection _) _ (connection-RollsBack _)

  pub ingest_bundle-RollsBack :
      (run_id : Uuid) (stamp : Text) (contents : Bytes)
      → RollsBack (ingest_bundle {F = F} config sv run_id stamp contents)
  unfolding ingest_bundle take_in
  ingest_bundle-RollsBack run_id stamp contents =
      elim (Bool-cases (ltb config.max_bundle_bytes (length contents))) [
        | inl e ↦ rw e (raise-RollsBack _)
        | inr e ↦ rw e (
            quiet_then _ _ (lift-IsQuiet _) λ b. quiet_then _ _ (put_bytes-IsQuiet _ _ _) λ _.
              then_pure _ _ (
                connection-RollsBack
                  (store_bundle config sv run_id b (bundle_key_of run_id stamp))))
      ]

  -- If `create_run` raises, then the tables are as before.
  pub create_run_rolls_back :
      (scope : Value) (s : Site F) (e : PyError)
      → (create_run config sv scope s).0 ≡ raised e
      → (create_run config sv scope s).1.db.tables ≡ s.db.tables
  create_run_rolls_back scope s e h = (create_run-RollsBack scope).at s e h

  -- If `ingest_bundle` raises, whatever the contents and whichever request to the store or connection
  -- fails, then the tables are as before.
  pub ingest_bundle_rolls_back :
      (run_id : Uuid) (stamp : Text) (contents : Bytes) (s : Site F) (e : PyError)
      → (ingest_bundle config sv run_id stamp contents s).0 ≡ raised e
      → (ingest_bundle config sv run_id stamp contents s).1.db.tables ≡ s.db.tables
  ingest_bundle_rolls_back run_id stamp contents s e h =
      (ingest_bundle-RollsBack run_id stamp contents).at s e h
