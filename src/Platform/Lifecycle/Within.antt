-- ===== src/Platform/Lifecycle/Within.antt =====
-- Tables that only gain: what is sourced or grounded in them stays so.
use auditcore.Base.{
  ℕ, ◌≡◌, refl, sym, ◌∙◌, inl, inr, Bool-cases, String, Option, List, [], ◌∷◌, ◌++◌, Bool, true,
  false, ◌&&◌, filter, map, All, All-imp, ◌==◌, if◌then◌else◌,
}
use mathlib.Core.Path.{subst}
use mathlib.Core.List.{Mem, mem-cons, not-mem-nil}
use mathlib.Core.Logic.{∥∥₁_prop}
use mathlib.Core.Logic.Or
use auditcore.Base.Json.{Value, Float}
use auditcore.Base.Uuid.{Uuid}
use auditcore.Database.{AssetRecord, EvidenceRecord, ObservationRecord, Tables}
use auditcore.Orchestrator.Rows.{ObservationWrite}
use auditcore.Orchestrator.Runner.Discover.Safe.{HasProvenance}
use auditcore.Orchestrator.PgRepo.Statements.{is_parsed}
use auditcore.Orchestrator.PgRepo.Sound.{normalized, assets_of, SourcedIn}
use auditcore.Orchestrator.PgRepo.Grounded.{AllGrounded}
use auditcore.Platform.Normalizer.{AssetHint, upsert_row, is_known, seen_again, parsed_row}

-- Each id of the one list is in the other.
unfoldable pub Within : List Uuid → List Uuid → Type 0
Within xs ys = (u : Uuid) → Mem u xs → Mem u ys

module _ {A : Type 0} (id : A → Uuid) where
  -- What is known of the first row and of the others is known of both.
  cons-Within :
      (x y : A) (b c : Bool) (xs ys : List Uuid)
      → id y ≡ id x
      → (b ≡ true → c ≡ true)
      → Within xs ys
      → Within (if b then id x ∷ xs else xs) (if c then id y ∷ ys else ys)
  unfolding Within
  cons-Within x y true true xs ys same imp w u m =
      Or.elim ∥∥₁_prop (mem-cons.0 m) (λ e. mem-cons.1 (Or.inl (e ∙ sym same)))
        (λ m'. mem-cons.1 (Or.inr (w u m')))
  cons-Within x y true false xs ys same imp w u m = let wrong = imp refl in cc
  cons-Within x y false true xs ys same imp w u m = mem-cons.1 (Or.inr (w u m))
  cons-Within x y false false xs ys same imp w u m = w u m

  selected-cons :
      (p : A → Bool) (x : A) (xs : List A)
      → map id (filter p (x ∷ xs))
        ≡ (if p x then id x ∷ map id (filter p xs) else map id (filter p xs))
  selected-cons p x xs = elim (Bool-cases (p x)) [ inl e ↦ rw e refl | inr e ↦ rw e refl ]

  heads-Within :
      (p : A → Bool) (x y : A) (xs ys : List A)
      → id y ≡ id x
      → (p x ≡ true → p y ≡ true)
      → Within (map id (filter p xs)) (map id (filter p ys))
      → Within (map id (filter p (x ∷ xs))) (map id (filter p (y ∷ ys)))
  heads-Within p x y xs ys same imp w =
      subst (λ (l : List Uuid × List Uuid). Within l.0 l.1)
        (λ i. (sym (selected-cons p x xs) i, sym (selected-cons p y ys) i))
        (cons-Within x y (p x) (p y) _ _ same imp w)

  -- Rows that are mapped to rows of the same id, and stay selected.
  map-Within :
      (p : A → Bool) (f : A → A) (xs : List A)
      → ((x : A) → id (f x) ≡ id x)
      → ((x : A) → p x ≡ true → p (f x) ≡ true)
      → Within (map id (filter p xs)) (map id (filter p (map f xs)))
  unfolding Within
  map-Within p f [] same imp = λ u m. m
  map-Within p f (x ∷ xs) same imp =
      heads-Within p x (f x) xs (map f xs) (same x) (imp x) (map-Within p f xs same imp)

  append-Within :
      (p : A → Bool) (xs ys : List A) → Within (map id (filter p xs)) (map id (filter p (xs ++ ys)))
  unfolding Within
  append-Within p [] ys = λ u m. absurd (not-mem-nil m)
  append-Within p (x ∷ xs) ys =
      heads-Within p x x xs (xs ++ ys) refl (λ e. e) (append-Within p xs ys)

All-Within : (xs ys us : List Uuid) → Within xs ys → All (λ u. Mem u xs) us → All (λ u. Mem u ys) us
unfolding Within
All-Within xs ys us w h = All-imp _ _ us w h

HasProvenance-Within :
    (run : Uuid) (es es' as' as'' : List Uuid) (w : ObservationWrite)
    → Within es es'
    → Within as' as''
    → HasProvenance run es as' w
    → HasProvenance run es' as'' w
unfolding Within
HasProvenance-Within run es es' as' as'' w we wa h = record {
  run = h.run;
  cites = h.cites;
  cited = All-Within es es' w.evidence_ids we h.cited;
  asset = wa w.asset_id h.asset;
  related = All-Within as' as'' w.related_asset_ids wa h.related;
}

-- Evidence and assets may join, and become normalized.
pub AllSourced-Within :
    (es es' : List EvidenceRecord) (as' as'' : List AssetRecord) (os : List ObservationRecord)
    → ((run : Uuid) → Within (normalized run es) (normalized run es'))
    → ((run : Uuid) → Within (assets_of run as') (assets_of run as''))
    → All (SourcedIn es as') os
    → All (SourcedIn es' as'') os
AllSourced-Within es es' as' as'' os we wa h =
    All-imp _ _ os
      (λ o p. HasProvenance-Within o.run_id _ _ _ _ o.row (we o.run_id) (wa o.run_id) p) h

pub AllGrounded-grown :
    {F : Type 0} (t u : Tables F) (added : List ObservationRecord)
    → u.report_sections ≡ t.report_sections
    → u.observations ≡ t.observations ++ added
    → AllGrounded t
    → AllGrounded u
unfolding Within
AllGrounded-grown t u added same grown h =
    rw (same, grown)
      (All-imp _ _ t.report_sections
        (λ s g. record {
          run = g.run;
          audience = g.audience;
          embedded =
              All-Within _ _ s.embedded_observations
                (append-Within (λ o. o.id) (λ o. o.run_id == s.run_id) t.observations added)
                g.embedded;
        })
        h)

pub upsert-Within :
    (run : Uuid) (tenant_id : String) (merge : Value → Value → Value) (hint : AssetHint) (now : ℕ)
    (new : AssetRecord) (as' : List AssetRecord)
    → Within (assets_of run as') (assets_of run (upsert_row tenant_id merge hint now new as'))
unfolding upsert_row Within
upsert-Within run tenant_id merge hint now new [] = λ u m. absurd (not-mem-nil m)
upsert-Within run tenant_id merge hint now new (a ∷ rest) =
    elim (Bool-cases (is_known tenant_id merge hint a)) [
      | inl e ↦ rw e (
          heads-Within (λ x. x.id) (λ x. x.run_id == run) a (seen_again tenant_id merge hint now a)
            rest rest refl (λ h. h) (λ u m. m))
      | inr e ↦ rw e (
          heads-Within (λ x. x.id) (λ x. x.run_id == run) a a rest _ refl (λ h. h)
            (upsert-Within run tenant_id merge hint now new rest))
    ]

module _ (run evidence_id : Uuid) (asset_id : Option Uuid) (parsed : Value)
    (confidence : Float) where
  parsed_row-id :
      (e : EvidenceRecord) → (parsed_row evidence_id asset_id parsed confidence e).id ≡ e.id
  parsed_row-id e = elim (Bool-cases (e.id == evidence_id)) [
    | inl h ↦ rw h refl
    | inr h ↦ rw h refl
  ]

  parsed_row-normalized :
      (e : EvidenceRecord)
      → (e.run_id == run && is_parsed e.parsed) ≡ true
      → ((parsed_row evidence_id asset_id parsed confidence e).run_id == run
          && is_parsed (parsed_row evidence_id asset_id parsed confidence e).parsed)
        ≡ true
  parsed_row-normalized e h = elim (Bool-cases (e.id == evidence_id)) [
    | inl i ↦ rw i (selected (e.run_id == run) (is_parsed e.parsed) h)
    | inr i ↦ rw i h
  ]
    where
      selected : (a b : Bool) → a && b ≡ true → a && true ≡ true
      selected true b h = refl
      selected false b h = h

  pub parse-Within :
      (es : List EvidenceRecord)
      → Within
          (normalized run es)
          (normalized run (map (parsed_row evidence_id asset_id parsed confidence) es))
  parse-Within es =
      map-Within (λ e. e.id) (λ e. e.run_id == run && is_parsed e.parsed)
        (parsed_row evidence_id asset_id parsed confidence) es parsed_row-id parsed_row-normalized
