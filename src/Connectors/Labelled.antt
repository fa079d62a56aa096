-- ===== src/Connectors/Labelled.antt =====
-- connectors: what a collected blob is called, and who describes it.
use auditcore.Base.{
  ℕ, ◌-◌, ltb, ◌≡◌, refl, sym, ap, ◌∙◌, inl, inr, Bool-cases, String, some, List, [], ◌∷◌, ◌++◌,
  map, Bool, false, ◌||◌,
}
use auditcore.Base.Text.{Text, codes, text_eq}
use auditcore.Base.Json.{Value}
use auditcore.Base.Exec.{Exec}
use auditcore.Base.Exec.Returns.{Returns, Returns-elim, value_of, outcome_of}
use auditcore.Orchestrator.Domains.{DomainBinding, binding_for}
use auditcore.Connectors.{
  Target, EvidenceBlob, Runtime, Connector, aws, kubernetes, postgres, prometheus, category, name,
  services, resources, query_names, default_queries, window, collect_each, make_blob, aws_blob,
  k8s_blob, postgres_blob, prometheus_blob, prometheus_queries, collect,
}

-- The tool and the category of a blob.
abbrev pub label : EvidenceBlob → Text × String
label b = (b.source_tool, b.category)

-- What the blobs of a connector are called: one for each artifact, of the category of the class.
abbrev pub labels : Connector → List (Text × String)
labels aws = map (λ n. (codes "aws." ++ codes n, category aws)) services
labels kubernetes = map (λ n. (codes "k8s." ++ codes n, category kubernetes)) resources
labels postgres = map (λ n. (codes "postgres." ++ codes n, category postgres)) query_names
labels prometheus =
    map (λ q. (codes "prometheus." ++ codes q.0, category prometheus)) default_queries

-- A blob has this tool.
pub has_tool : Text → List (Text × String) → Bool
unfolding text_eq
has_tool tool [] = false
has_tool tool ((t, c) ∷ rest) = text_eq t tool || has_tool tool rest

labels-unnamed : (c : Connector) → has_tool (codes (name c)) (labels c) ≡ false
unfolding has_tool codes
labels-unnamed aws = refl
labels-unnamed kubernetes = refl
labels-unnamed postgres = refl
labels-unnamed prometheus = refl

-- The orchestrator knows the category of each connector.
bound : (c : Connector) → (b : DomainBinding) × (binding_for (category c) ≡ some b)
unfolding binding_for
bound aws = (_, refl)
bound kubernetes = (_, refl)
bound postgres = (_, refl)
bound prometheus = (_, refl)

module _ {W : Type 0} (rt : Runtime W) where
  collect_each-Returns :
      {N : Type 0} (blob : N → Exec W EvidenceBlob) (named : N → Text × String) (ns : List N)
      → ((n : N) (s t : W) (b : EvidenceBlob) → Returns (blob n) s b t → label b ≡ named n)
      → (s t : W) (bs : List EvidenceBlob) → Returns (collect_each rt blob ns) s bs t
      → map label bs ≡ map named ns
  unfolding collect_each
  collect_each-Returns blob named [] each s t bs h = ap (map label) (sym (value_of h))
  collect_each-Returns blob named (n ∷ ns) each s t bs h =
      Returns-elim (blob n) _ s t h λ b s1 first h1.
        Returns-elim (collect_each rt blob ns) _ s1 t h1 λ rest s2 others done.
          ap (map label) (sym (value_of done)) ∙ (λ i.
            each n s s1 b first i ∷ collect_each-Returns blob named ns each s1 s2 rest others i)

  make_blob-Returns :
      (tool : Text) (version blob_category : String) (at : ℕ) (payload scope : Value) (s t : W)
      (b : EvidenceBlob)
      → Returns (make_blob rt tool version blob_category at payload scope) s b t
      → label b ≡ (tool, blob_category)
  unfolding make_blob
  make_blob-Returns tool version blob_category at payload scope s t b h =
      Returns-elim (rt.uuid4) _ s t h λ id s1 drawn done. ap label (sym (value_of done))

  collect-labelled :
      (c : Connector) (target : Target) (s t : W) (bs : List EvidenceBlob)
      → Returns (collect rt c target) s bs t
      → map label bs ≡ labels c
  unfolding collect aws_blob k8s_blob postgres_blob prometheus_blob prometheus_queries
  collect-labelled aws target s t bs h =
      Returns-elim (rt.import_package "boto3") _ s t h λ _ s1 _ h1.
        collect_each-Returns (aws_blob rt target) _ services
          (λ n u v b ran.
            Returns-elim (rt.now) _ u v ran
              λ now u1 _ made. make_blob-Returns _ _ _ now _ _ u1 v b made)
          s1 t bs h1
  collect-labelled kubernetes target s t bs h =
      Returns-elim (rt.import_package "kubernetes") _ s t h λ _ s1 _ h1.
        collect_each-Returns (k8s_blob rt target) _ resources
          (λ n u v b ran.
            Returns-elim (rt.now) _ u v ran
              λ now u1 _ made. make_blob-Returns _ _ _ now _ _ u1 v b made)
          s1 t bs h1
  collect-labelled postgres target s t bs h =
      Returns-elim (rt.import_package "psycopg") _ s t h λ _ s1 _ h1.
        collect_each-Returns (postgres_blob rt target) _ query_names
          (λ n u v b ran.
            Returns-elim (rt.now) _ u v ran
              λ now u1 _ made. make_blob-Returns _ _ _ now _ _ u1 v b made)
          s1 t bs h1
  collect-labelled prometheus target s t bs h =
      Returns-elim (rt.import_package "httpx") _ s t h λ _ s1 _ h1.
        Returns-elim (rt.now) _ s1 t h1 λ end_ s2 _ h2. elim (Bool-cases (ltb end_ window)) [
          | inl e ↦ let h3 = (rw e at h2) in let wrong = outcome_of h3 in cc
          | inr e ↦
              collect_each-Returns (prometheus_blob rt target (end_ - window) end_) _
                default_queries (λ q u v b ran. make_blob-Returns _ _ _ end_ _ _ u v b ran) s2 t bs
                (rw e at h2)
        ]

  -- If `collect` of a connector returns, then there is one blob for each artifact that the connector
  -- reads, in their order, named for it, and each is of the category of the class; no blob's tool is
  -- the name of the class; and the orchestrator binds that category to an agent.
  pub collect-labels :
      (c : Connector) (target : Target) (s t : W) (bs : List EvidenceBlob)
      → Returns (collect rt c target) s bs t
      → (map label bs ≡ labels c)
        × (has_tool (codes (name c)) (map label bs) ≡ false)
        × (b : DomainBinding) × (binding_for (category c) ≡ some b)
  collect-labels c target s t bs h =
      let labelled = collect-labelled c target s t bs h in
      let (b, is_bound) = bound c in
      (labelled, ap (has_tool (codes (name c))) labelled ∙ labels-unnamed c, b, is_bound)
