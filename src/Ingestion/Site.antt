-- ===== src/Ingestion/Site.antt =====
-- storage.py and db.py: the object store beside the database, and a connection that the two are used
-- in.
use auditcore.Base.{ℕ, Option, none, some, List, [], ◌∷◌, ◌++◌}
use auditcore.Base.Text.{Text, codes}
use auditcore.Base.Error.{Result, ok, raised, foreign}
use auditcore.Base.Exec.{Exec, pure, ◌>>◌}
use auditcore.Database.{Tables, Db}
use auditcore.Ingestion.Bundle.{Bytes}

-- A call of `put_object` that returned.
pub record Upload : Type 0 where
  pub bucket : Text
  pub key : Text
  pub contents : Bytes

-- The uploads so far, and what becomes of the requests to the store that are to come: `some e` fails
-- with the code `e`.
pub record Site (F : Type 0) : Type 0 where
  pub db : Db F
  pub uploads : List Upload
  pub store_faults : List (Option ℕ)

unfoldable pub upload : Text → Text → Bytes → List Upload → List Upload
upload bucket key contents uploads =
    uploads ++ record { bucket = bucket; key = key; contents = contents } ∷ []

abbrev pub uri : Text → Text → Text
uri bucket key = codes "s3://" ++ (bucket ++ (codes "/" ++ key))

module _ {F : Type 0} where
  -- A request to the store.
  unfoldable pub request : List (Option ℕ) → Exec (Site F) (Unit {0})
  request [] s = (ok tt, s)
  request (none ∷ rest) s = (ok tt, record s { store_faults = rest })
  request (some e ∷ rest) s = (raised (foreign e), record s { store_faults = rest })

  unfoldable pub send : Exec (Site F) (Unit {0})
  unfolding request
  send s = request s.store_faults s

  unfoldable pub write_object : Text → Text → Bytes → Exec (Site F) (Unit {0})
  write_object bucket key contents s =
      (ok tt, record s { uploads = upload bucket key contents s.uploads })

  unfoldable pub put_bytes : Text → Text → Bytes → Exec (Site F) Text
  unfolding send write_object
  put_bytes bucket key contents = do send; write_object bucket key contents; pure (uri bucket key)

  -- `serve` is what the store answers for a bucket and a key, after the uploads so far.
  unfoldable pub get_bytes :
      (List Upload → Text → Text → Result Bytes) → Text → Text → Exec (Site F) Bytes
  unfolding send
  get_bytes serve bucket key = do send; (λ s. (serve s.uploads bucket key, s))

  -- A statement, on the tables as the transaction sees them.
  unfoldable pub on_tables : {A : Type 0} → (Tables F → Result A × Tables F) → Exec (Site F) A
  on_tables body s =
      let (r, t) = body s.db.tables in (r, record s { db = record s.db { tables = t } })

  -- The end of a connection: a raise takes back what was written to the tables, but not what went to
  -- the store.
  unfoldable pub settle : {A : Type 0} → Tables F → Result A × Site F → Result A × Site F
  settle old (ok a, s) = (ok a, s)
  settle old (raised e, s) = (raised e, record s { db = record s.db { tables = old } })

  unfoldable pub connected : {A : Type 0} → List (Option ℕ) → Exec (Site F) A → Exec (Site F) A
  unfolding settle
  connected [] body s = settle s.db.tables (body s)
  connected (none ∷ rest) body s =
      settle s.db.tables (body (record s { db = record s.db { faults = rest } }))
  connected (some e ∷ rest) body s =
      (raised (foreign e), record s { db = record s.db { faults = rest } })

  -- `with conn() as c, c.cursor() as cur: … c.commit()`
  unfoldable pub connection : {A : Type 0} → Exec (Site F) A → Exec (Site F) A
  unfolding connected
  connection body s = connected s.db.faults body s
