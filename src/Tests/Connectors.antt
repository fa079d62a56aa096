-- ===== src/Tests/Connectors.antt =====
-- A run of a connector.
use auditcore.Base.{ℕ, ◌+◌, ◌≡◌, refl, none, some, List, [], map, false}
use auditcore.Base.Text.{codes}
use auditcore.Base.Json.{end}
use auditcore.Base.Error.{ok, raised}
use auditcore.Base.Exec.Returns.{Returns}
use auditcore.Orchestrator.Domains.{DomainBinding, binding_for}
use auditcore.Connectors.{
  Target, EvidenceBlob, Runtime, Connector, postgres, name, category, collect, init_subclass,
}
use auditcore.Connectors.Labelled.{label, labels, has_tool, collect-labels}

-- The clock is the state.
abbrev runtime : Runtime ℕ
runtime = record {
  import_package = λ p n. (ok tt, n);
  now = λ n. (ok n, n + 1);
  uuid4 = λ n. (ok n, n + 1);
  dumps = λ v. [];
  isoformat = λ t. [];
}

abbrev target : Target
target = record { identifier = codes "db"; credentials_ref = none; metadata = end }

abbrev blobs : List EvidenceBlob
blobs = elim (collect runtime postgres target 0).0 [ ok bs ↦ bs | raised e ↦ [] ]

collected : Returns (collect runtime postgres target) 0 blobs 8
unfolding collect auditcore.Base.Exec.◌>>=◌
collected = refl

collect-labels_example :
    (map label blobs ≡ labels postgres)
    × (has_tool (codes (name postgres)) (map label blobs) ≡ false)
    × (b : DomainBinding) × (binding_for (category postgres) ≡ some b)
collect-labels_example = collect-labels runtime postgres target 0 8 blobs collected

-- The classes are well formed.
class_is_checked : (c : Connector) → init_subclass {W = ℕ} (name c) (category c) 0 ≡ (ok tt, 0)
unfolding init_subclass
class_is_checked Connector.aws = refl
class_is_checked Connector.kubernetes = refl
class_is_checked Connector.postgres = refl
class_is_checked Connector.prometheus = refl
