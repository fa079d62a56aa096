-- ===== src/Ingestion/Runs/Merge.antt =====
-- The table of evidence as a map from ids to rows.
use auditcore.Base.{
  ℕ, ◌≡◌, refl, sym, ap, ◌∙◌, inl, inr, Option, none, some, List, [], ◌∷◌, ◌++◌, Bool, true, false,
  Bool-cases, map, contains, ==_iff, ==_refl, ◌==◌, arith, if◌then◌else◌, ◌||◌, All,
}
use mathlib.Core.List.{append_assoc, append-nil}
use auditcore.Base.Uuid.{Uuid}
use auditcore.Database.{EvidenceRecord}
use auditcore.Ingestion.Runs.Rows.{add_row, merge}

unfoldable pub find_row : Uuid → List EvidenceRecord → Option EvidenceRecord
find_row id [] = none
find_row id (e ∷ es) = if e.id == id then some e else find_row id es

abbrev ids : List EvidenceRecord → List Uuid
ids es = map (λ e. e.id) es

abbrev first_of : Option EvidenceRecord → Option EvidenceRecord → Option EvidenceRecord
first_of none o = o
first_of (some e) o = some e

first_of_if :
    (b : Bool) (e : EvidenceRecord) (o p : Option EvidenceRecord)
    → (if b then some e else first_of o p) ≡ first_of (if b then some e else o) p
first_of_if true e o p = refl
first_of_if false e o p = refl

find_row-append :
    (id : Uuid) (xs ys : List EvidenceRecord)
    → find_row id (xs ++ ys) ≡ first_of (find_row id xs) (find_row id ys)
unfolding find_row
find_row-append id [] ys = refl
find_row-append id (x ∷ xs) ys =
    rw (find_row-append id xs ys) (first_of_if (x.id == id) x (find_row id xs) (find_row id ys))

-- A row that is found makes no difference to what comes after it.
first_of_found :
    (id : Uuid) (xs : List EvidenceRecord) (o : Option EvidenceRecord)
    → contains (ids xs) id ≡ true
    → first_of (find_row id xs) o ≡ find_row id xs
unfolding find_row contains
first_of_found id [] o h = cc
first_of_found id (x ∷ xs) o h = elim (Bool-cases (x.id == id)) [
  | inl e ↦ rw e refl
  | inr e ↦ rw e (first_of_found id xs o (rw e at h))
]

first_of-none : (o : Option EvidenceRecord) → first_of o none ≡ o
first_of-none none = refl
first_of-none (some e) = refl

find_row-other :
    (id : Uuid) (e : EvidenceRecord) → (e.id == id) ≡ false → find_row id (e ∷ []) ≡ none
unfolding find_row
find_row-other id e other = rw other refl

find_row-add_row :
    (id : Uuid) (old : List EvidenceRecord) (e : EvidenceRecord)
    → find_row id (add_row old e) ≡ find_row id (old ++ e ∷ [])
unfolding add_row
find_row-add_row id old e = elim (Bool-cases (contains (ids old) e.id)) [
  | inr new ↦ rw new refl
  | inl there ↦ rw (there, find_row-append) (sym (stays there))
]
  where
    stays :
        contains (ids old) e.id ≡ true
        → first_of (find_row id old) (find_row id (e ∷ [])) ≡ find_row id old
    stays there = elim (Bool-cases (e.id == id)) [
      | inl same ↦ first_of_found id old _ (rw (sym ((==_iff e.id id).0 same)) there)
      | inr other ↦ rw (find_row-other id e other) (first_of-none (find_row id old))
    ]

pub find_row-merge :
    (id : Uuid) (old rows : List EvidenceRecord)
    → find_row id (merge old rows) ≡ find_row id (old ++ rows)
unfolding merge
find_row-merge id old [] = ap (find_row id) (sym (append-nil old))
find_row-merge id old (e ∷ es) =
    find_row-merge id (add_row old e) es
    ∙ (find_row-append id (add_row old e) es
        ∙ (ap (λ o. first_of o (find_row id es)) (find_row-add_row id old e)
            ∙ (sym (find_row-append id (old ++ e ∷ []) es)
                ∙ ap (find_row id) (append_assoc old (e ∷ []) es))))

-- No two rows have the same id.
abbrev pub HasUniqueIds : List EvidenceRecord → Type 0
HasUniqueIds [] = Unit
HasUniqueIds (e ∷ es) = (contains (ids es) e.id ≡ false) × HasUniqueIds es

contains-append_one :
    (a : ℕ) (es : List EvidenceRecord) (e : EvidenceRecord)
    → contains (ids (es ++ e ∷ [])) a ≡ (contains (ids es) a || e.id == a)
unfolding contains
contains-append_one a [] e = elim (Bool-cases (e.id == a)) [ inl h ↦ rw h refl | inr h ↦ rw h refl ]
contains-append_one a (x ∷ es) e = ground (arith, contains-append_one a es e)

append_one-HasUniqueIds :
    (es : List EvidenceRecord) (e : EvidenceRecord)
    → contains (ids es) e.id ≡ false
    → HasUniqueIds es
    → HasUniqueIds (es ++ e ∷ [])
unfolding contains
append_one-HasUniqueIds [] e new h = (refl, tt)
append_one-HasUniqueIds (x ∷ es) e new (first, h) =
    (contains-append_one x.id es e ∙ ground arith, append_one-HasUniqueIds es e (ground arith) h)

add_row-HasUniqueIds :
    (old : List EvidenceRecord) (e : EvidenceRecord)
    → HasUniqueIds old
    → HasUniqueIds (add_row old e)
unfolding add_row
add_row-HasUniqueIds old e h = elim (Bool-cases (contains (ids old) e.id)) [
  | inl there ↦ rw there h
  | inr new ↦ rw new (append_one-HasUniqueIds old e new h)
]

pub merge-HasUniqueIds :
    (old rows : List EvidenceRecord) → HasUniqueIds old → HasUniqueIds (merge old rows)
unfolding merge
merge-HasUniqueIds old [] h = h
merge-HasUniqueIds old (e ∷ es) h =
    merge-HasUniqueIds (add_row old e) es (add_row-HasUniqueIds old e h)

-- What the table knows it keeps.
add_row-keeps :
    (a : ℕ) (old : List EvidenceRecord) (e : EvidenceRecord)
    → contains (ids old) a ≡ true
    → contains (ids (add_row old e)) a ≡ true
unfolding add_row
add_row-keeps a old e h = elim (Bool-cases (contains (ids old) e.id)) [
  | inl there ↦ rw there h
  | inr new ↦ rw (new, contains-append_one, h) refl
]

add_row-has :
    (old : List EvidenceRecord) (e : EvidenceRecord) → contains (ids (add_row old e)) e.id ≡ true
unfolding add_row
add_row-has old e = elim (Bool-cases (contains (ids old) e.id)) [
  | inl there ↦ rw there there
  | inr new ↦ rw (new, contains-append_one, new) (==_refl e.id)
]

merge-keeps :
    (a : ℕ) (old rows : List EvidenceRecord)
    → contains (ids old) a ≡ true
    → contains (ids (merge old rows)) a ≡ true
unfolding merge
merge-keeps a old [] h = h
merge-keeps a old (e ∷ es) h = merge-keeps a (add_row old e) es (add_row-keeps a old e h)

pub merge-has :
    (old rows : List EvidenceRecord) → All (λ e. contains (ids (merge old rows)) e.id ≡ true) rows
unfolding merge
merge-has old [] = tt
merge-has old (e ∷ es) =
    (merge-keeps e.id (add_row old e) es (add_row-has old e), merge-has (add_row old e) es)

-- Rows that are there change nothing.
pub merge-there :
    (old rows : List EvidenceRecord)
    → All (λ e. contains (ids old) e.id ≡ true) rows
    → merge old rows ≡ old
unfolding merge add_row
merge-there old [] h = refl
merge-there old (e ∷ es) (there, h) = rw there (merge-there old es h)
