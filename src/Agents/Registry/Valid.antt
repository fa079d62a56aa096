-- ===== src/Agents/Registry/Valid.antt =====
-- registry.py: what a registry that loads says of its agents.
use auditcore.Base.{
  ◌≡◌, refl, sym, inl, inr, Bool-cases, String, some, List, [], ◌∷◌, Bool, true, false, All,
  Option-cases, map, if◌then◌else◌,
}
use mathlib.Core.Path.{subst}
use mathlib.Core.Option.{some-injective}
use auditcore.Base.Text.{Text, codes, text_eq, text_eq_iff}
use auditcore.Base.Sort.{sorted, text_le}
use auditcore.Base.Json.{
  Value, null, str, arr, obj, nil, Fields, lookup as key, iterate, or_default,
}
use auditcore.Base.Error.{PyError, ok, raised, OnOk, OnOk-ok, OnOk-raised, OnOk-bind}
use auditcore.Agents.Definition.{AgentDefinition, FileSystem, Parsers}
use auditcore.Agents.Registry.LoadOne.{
  one_of, valid_task_kinds, valid_budgets, valid_privacy, allowed, or_given, spec_error,
  require_text, resolve_prompt, resolve_schema, check_name, definition, from_yaml, load_one,
}
use auditcore.Agents.Registry.{
  AgentRegistry, find, put, lookup, skipped, load_child, load_all, checked, load,
}
use auditcore.Gateway.Types.{
  TaskKind, kind_value, summarize, classify, reason, long_context, code, BudgetTier, budget_value,
  low, normal, high, PrivacyTier, privacy_value, standard, sensitive, air_gapped,
}

-- An agent in the directory `child`, whose routing the gateway understands.
pub record IsValid (child : Text) (d : AgentDefinition) : Type 0 where
  pub named : d.name ≡ child
  pub directory : d.directory ≡ child
  pub kind : TaskKind
  pub task_kind : d.task_kind ≡ codes (kind_value kind)
  pub budget : BudgetTier
  pub budget_hint : d.budget_hint ≡ codes (budget_value budget)
  pub tier : PrivacyTier
  pub privacy : d.privacy ≡ codes (privacy_value tier)

allowed-one_of :
    (names : List String) (v : Value) (e : PyError)
    → OnOk (λ t. one_of names t ≡ true) (allowed names v (raised e))
unfolding allowed
allowed-one_of names (str t) e = elim (Bool-cases (one_of names t)) [
  | inl h ↦ rw h (OnOk-ok t h)
  | inr h ↦ rw h (OnOk-raised e)
]
allowed-one_of names (arr vs) e = OnOk-raised _
allowed-one_of names (obj fs) e = OnOk-raised _
allowed-one_of names _ e = OnOk-raised e

-- A text among the values of some things is the value of one of them.
one_of-value :
    {K : Type 0} (value : K → String) (ks : List K) (t : Text)
    → one_of (map value ks) t ≡ true
    → (k : K) × (t ≡ codes (value k))
unfolding one_of
one_of-value value [] t h = cc
one_of-value value (k ∷ ks) t h = elim (Bool-cases (text_eq (codes (value k)) t)) [
  | inl e ↦ (k, sym ((text_eq_iff (codes (value k)) t).0 e))
  | inr e ↦ one_of-value value ks t (rw e at h)
]

abbrev task_kinds : List TaskKind
task_kinds = summarize ∷ classify ∷ reason ∷ long_context ∷ code ∷ []

abbrev budgets : List BudgetTier
budgets = low ∷ normal ∷ high ∷ []

abbrev privacies : List PrivacyTier
privacies = standard ∷ sensitive ∷ air_gapped ∷ []

module _ (fs : FileSystem) (ps : Parsers) (child : Text) where
  check_name-same : (name : Text) {u : Unit {0}} → check_name fs ps child name ≡ ok u → name ≡ child
  unfolding check_name spec_error
  check_name-same name h = elim (Bool-cases (text_eq name child)) [
    | inl e ↦ (text_eq_iff name child).0 e
    | inr e ↦ let h' = (rw e at h) in cc
  ]

  definition-IsValid : (raw : Fields) → OnOk (IsValid child) (definition fs ps child raw)
  unfolding definition spec_error
  definition-IsValid raw = OnOk-bind (require_text fs ps child (key "name" raw) "name") _ λ name _.
      OnOk-bind (check_name fs ps child name) _ λ _ hn.
        OnOk-bind (require_text fs ps child (key "task_kind" raw) "task_kind") _ λ required _.
          OnOk-bind (allowed valid_task_kinds (str required) _) _ λ task_kind hk.
            OnOk-bind
              (allowed valid_budgets (or_given (key "budget_hint" raw) (str (codes "normal"))) _) _
              λ budget_hint hb.
                OnOk-bind
                  (allowed valid_privacy (or_given (key "privacy" raw) (str (codes "standard"))) _)
                  _
                  λ privacy hp.
                    OnOk-bind (resolve_prompt fs ps child (or_given (key "system_prompt" raw) null))
                      _
                      λ prompt _.
                        OnOk-bind
                          (resolve_schema fs ps child (or_given (key "output_schema" raw) null)) _
                          λ schema _.
                            OnOk-bind
                              (iterate
                                (or_default (or_given (key "contract" raw) (arr nil)) (arr nil)))
                              _
                              λ contract _.
                                let (k, is_kind) = one_of-value kind_value task_kinds task_kind (
                                  (allowed-one_of valid_task_kinds (str required) _).at task_kind
                                    hk) in
                                let (b, is_budget) =
                                  one_of-value budget_value budgets budget_hint
                                    ((allowed-one_of valid_budgets _ _).at budget_hint hb) in
                                let (p, is_privacy) =
                                  one_of-value privacy_value privacies privacy
                                    ((allowed-one_of valid_privacy _ _).at privacy hp) in
                                OnOk-ok _ (record {
                                  named = check_name-same name hn;
                                  directory = refl;
                                  kind = k;
                                  task_kind = is_kind;
                                  budget = b;
                                  budget_hint = is_budget;
                                  tier = p;
                                  privacy = is_privacy;
                                })

  from_yaml-IsValid : (v : Value) → OnOk (IsValid child) (from_yaml fs ps child v)
  unfolding from_yaml spec_error
  from_yaml-IsValid (obj raw) = definition-IsValid raw
  from_yaml-IsValid _ = OnOk-raised _

  load_one-IsValid : (text : Text) → OnOk (IsValid child) (load_one fs ps child text)
  unfolding load_one
  load_one-IsValid text = OnOk-bind (ps.safe_load text) _ λ v _. from_yaml-IsValid v

-- Each name has a valid definition of that name.
abbrev AllValid : List (Text × AgentDefinition) → Type 0
AllValid = All (λ (k, d). IsValid k d)

put-AllValid :
    (k : Text) (d : AgentDefinition) (agents : List (Text × AgentDefinition))
    → IsValid k d
    → AllValid agents
    → AllValid (put k d agents)
unfolding put
put-AllValid k d [] v h = (v, tt)
put-AllValid k d ((j, e) ∷ rest) v (hj, h) = elim (Bool-cases (text_eq j k)) [
  | inl same ↦ rw same (subst (λ x. IsValid x d) (sym ((text_eq_iff j k).0 same)) v, h)
  | inr other ↦ rw other (hj, put-AllValid k d rest v h)
]

find-IsValid :
    (k : Text) (agents : List (Text × AgentDefinition)) {d : AgentDefinition}
    → AllValid agents
    → find k agents ≡ some d
    → IsValid k d
unfolding find
find-IsValid k [] h e = cc
find-IsValid k ((j, x) ∷ rest) {d} (hj, h) e = elim (Bool-cases (text_eq j k)) [
  | inl same ↦
      subst (λ (p : Text × AgentDefinition). IsValid p.0 p.1)
        (λ i. ((text_eq_iff j k).0 same i, some-injective x d (rw same at e) i)) hj
  | inr other ↦ find-IsValid k rest h (rw other at e)
]

module _ (fs : FileSystem) (ps : Parsers) where
  load_child-AllValid :
      (child : Text) (agents : List (Text × AgentDefinition))
      → AllValid agents
      → OnOk AllValid (load_child fs ps child agents)
  unfolding load_child
  load_child-AllValid child agents h = elim (Option-cases (fs.spec_text child)) [
    | inl e ↦ rw (e, load_child) (OnOk-ok agents h)
    | inr (text, e) ↦
        rw (e, load_child)
          (OnOk-bind (load_one fs ps child text) _ λ d hd.
            let valid = (load_one-IsValid fs ps child text).at d hd in
            OnOk-ok _
              (put-AllValid d.name d agents (subst (λ k. IsValid k d) (sym valid.named) valid) h))
  ]

  load_all-AllValid :
      (children : List Text) (agents : List (Text × AgentDefinition))
      → AllValid agents
      → OnOk AllValid (load_all fs ps children agents)
  unfolding load_all
  load_all-AllValid [] agents h = OnOk-ok agents h
  load_all-AllValid (child ∷ rest) agents h =
      OnOk-bind (if skipped fs ps child then ok agents else load_child fs ps child agents) _
        λ next e. load_all-AllValid rest next ((turn (skipped fs ps child)).at next e)
    where
      turn : (b : Bool) → OnOk AllValid (if b then ok agents else load_child fs ps child agents)
      turn true = OnOk-ok agents h
      turn false = load_child-AllValid child agents h

  checked-AllValid :
      (agents : List (Text × AgentDefinition))
      → AllValid agents
      → OnOk (λ r. AllValid r.agents) (checked fs ps agents)
  unfolding checked
  checked-AllValid [] h = OnOk-raised _
  checked-AllValid (a ∷ as') h = OnOk-ok _ h

  -- If `load` returns a registry that has an agent under a name, then the definition is of that name
  -- and of the directory of that name, and its task kind, its budget and its privacy are values of
  -- the gateway's TaskKind, BudgetTier and PrivacyTier.
  pub load-IsValid :
      (r : AgentRegistry) (name : Text) (d : AgentDefinition)
      → load fs ps ≡ ok r
      → lookup name r ≡ some d
      → IsValid name d
  unfolding load lookup
  load-IsValid r name d loaded there = find-IsValid name r.agents (whole.at r loaded) there
    where
      whole : OnOk (λ r. AllValid r.agents) (load fs ps)
      whole = elim (Option-cases fs.children) [
        | inl e ↦ rw (e, load) (OnOk-raised _)
        | inr (children, e) ↦
            rw (e, load)
              (OnOk-bind (load_all fs ps (sorted text_le children) []) _ λ agents h.
                checked-AllValid agents
                  ((load_all-AllValid (sorted text_le children) [] tt).at agents h))
      ]
