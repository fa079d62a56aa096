-- ===== src/Platform/Normalizer.antt =====
-- services/normalizer-worker/src/db.rs: the two statements by which the worker changes the tables. A
-- statement that the database refuses, for a type, a run, an asset or a confidence that it does not
-- allow, changes nothing. The column of redactions is left out.
use auditcore.Base.{
  ℕ, ◌+◌, String, Option, none, some, List, [], ◌∷◌, Bool, ◌&&◌, map, str_eq, ◌==◌, if◌then◌else◌,
}
use auditcore.Base.Json.{Value, Float}
use auditcore.Base.Uuid.{Uuid}
use auditcore.Database.{Fresh, AssetRecord, EvidenceRecord, Tables}

-- What a parser says of an asset.
pub record AssetHint : Type 0 where
  pub asset_type : String
  pub natural_key : String
  pub name : String
  pub attributes : Value

-- `COALESCE($2, asset_id)`
abbrev coalesce : Option Uuid → Option Uuid → Option Uuid
coalesce none old = old
coalesce (some u) old = some u

-- `merge` is `||` of the type JSONB, and `now` the time of the statement.
module _ (tenant_id : String) (merge : Value → Value → Value) where
  abbrev pub is_known : AssetHint → AssetRecord → Bool
  is_known hint a = str_eq a.tenant_id tenant_id && str_eq a.natural_key hint.natural_key

  -- The row that ON CONFLICT updates.
  abbrev pub seen_again : AssetHint → ℕ → AssetRecord → AssetRecord
  seen_again hint now a = record a {
    row = record a.row { attributes = merge a.attributes hint.attributes };
    last_seen = now;
  }

  -- The rows after the upsert, where `new` is the row that would be inserted.
  unfoldable pub upsert_row : AssetHint → ℕ → AssetRecord → List AssetRecord → List AssetRecord
  upsert_row hint now new [] = new ∷ []
  upsert_row hint now new (a ∷ rest) =
      let others = upsert_row hint now new rest in
      if is_known hint a then seen_again hint now a ∷ rest else a ∷ others

  abbrev new_asset : Uuid → AssetHint → Fresh → AssetRecord
  new_asset run_id hint (id, now) = record {
    tenant_id = tenant_id;
    run_id = run_id;
    row = record {
      id = id;
      type = hint.asset_type;
      natural_key = hint.natural_key;
      name = hint.name;
      attributes = hint.attributes;
    };
    first_seen = now;
    last_seen = now;
  }

  unfoldable pub upsert_asset : {F : Type 0} → (ℕ → Fresh) → Uuid → AssetHint → Tables F → Tables F
  unfolding upsert_row
  upsert_asset fresh run_id hint t =
      let (id, now) = fresh t.drawn in
      record t {
        assets = upsert_row hint now (new_asset run_id hint (id, now)) t.assets;
        drawn = t.drawn + 1;
      }

abbrev pub parsed_row : Uuid → Option Uuid → Value → Float → EvidenceRecord → EvidenceRecord
parsed_row evidence_id asset_id parsed confidence e =
    if e.id == evidence_id
    then record e {
      parsed = some parsed;
      asset_id = coalesce asset_id e.asset_id;
      confidence = confidence;
    }
    else e

unfoldable pub write_parsed :
    {F : Type 0} → Uuid → Option Uuid → Value → Float → Tables F → Tables F
write_parsed evidence_id asset_id parsed confidence t = record t {
  evidence_items = map (parsed_row evidence_id asset_id parsed confidence) t.evidence_items;
}
