-- ===== src/Rendering/Grouping.antt =====
-- render.py: what the deterministic report is given of observations and evidence.
pub mod Complete
use auditcore.Base.{
  ℕ, ◌+◌, String, Option, none, some, List, [], ◌∷◌, ◌++◌, Bool, false, ◌||◌, not, filter,
  if◌then◌else◌,
}
use auditcore.Base.Json.{Value, str, obj, lookup}
use auditcore.Base.Error.{Result, ok, raised, value_error}
use auditcore.Rendering.Loader.{ReportData}
use auditcore.Base.Text.{Text, codes, text_eq}
use auditcore.Base.Sort.{sorted, text_le}

-- DOMAIN_ORDER, which are the keys of DOMAIN_LABELS too.
abbrev domain_order : List Text
domain_order =
    codes "hardware"
    ∷ codes "software"
    ∷ codes "network"
    ∷ codes "security"
    ∷ codes "performance"
    ∷ codes "cloud"
    ∷ codes "k8s"
    ∷ codes "db"
    ∷ []

is_labelled : Text → List Text → Bool
is_labelled domain [] = false
is_labelled domain (d ∷ ds) = text_eq d domain || is_labelled domain ds

abbrev or_text : Option Text → Text → Text
or_text none d = d
or_text (some t) d = t

-- A row is a dict; `column` gives the texts in it.
module _ {A : Type 0} (column : A → String → Option Text) where
  -- `grouped.setdefault(domain, []).append(obs)`
  unfoldable pub add_to_domain : Text → A → List (Text × List A) → List (Text × List A)
  add_to_domain domain obs [] = (domain, obs ∷ []) ∷ []
  add_to_domain domain obs ((d, rows) ∷ rest) =
      let more = add_to_domain domain obs rest in
      if text_eq d domain then (d, rows ++ obs ∷ []) ∷ rest else (d, rows) ∷ more

  unfoldable pub group_by_domain : List A → List (Text × List A) → List (Text × List A)
  unfolding add_to_domain
  group_by_domain [] grouped = grouped
  group_by_domain (obs ∷ rest) grouped =
      group_by_domain rest
        (add_to_domain (or_text (column obs "domain") (codes "software")) obs grouped)

  -- The entry of a domain that has observations.
  in_domain : Text → List (Text × List A) → List (Text × List A)
  in_domain domain [] = []
  in_domain domain ((d, rows) ∷ rest) =
      let more = in_domain domain rest in if text_eq d domain then (d, rows) ∷ [] else more

  in_order : List Text → List (Text × List A) → List (Text × List A)
  unfolding in_domain
  in_order [] grouped = []
  in_order (d ∷ ds) grouped = in_domain d grouped ++ in_order ds grouped

  -- `_observations_by_domain`
  unfoldable pub observations_by_domain : List A → List (Text × List A)
  unfolding group_by_domain in_order is_labelled
  observations_by_domain observations =
      let grouped = group_by_domain observations [] in
      in_order domain_order grouped
      ++ filter (λ (d, rows). not (is_labelled d domain_order)) grouped

  -- `out[k] = out.get(k, 0) + 1`
  count_one : Text → List (Text × ℕ) → List (Text × ℕ)
  count_one k [] = (k, 1) ∷ []
  count_one k ((j, n) ∷ rest) =
      let more = count_one k rest in if text_eq j k then (j, n + 1) ∷ rest else (j, n) ∷ more

  count_all : List A → String → List (Text × ℕ) → List (Text × ℕ)
  unfolding count_one
  count_all [] key out = out
  count_all (r ∷ rs) key out =
      count_all rs key (count_one (or_text (column r key) (codes "unknown")) out)

  -- `_count_by`
  unfoldable pub count_by : List A → String → List (Text × ℕ)
  unfolding count_all
  count_by rows key = sorted (λ (j, n) (k, m). text_le j k) (count_all rows key [])

-- The text in a column of a row that is a dict.
text_in : Option Value → Option Text
text_in (some (str s)) = some s
text_in _ = none

unfoldable pub text_column : Value → String → Option Text
unfolding text_in
text_column (obj fs) key = text_in (lookup key fs)
text_column _ key = none

-- What the template of `render_html` is given beside the data and the time.
pub record Page : Type 0 where
  pub domains : List (Text × List Value)
  pub evidence_by_category : List (Text × ℕ)

-- `render_html` up to the template.
unfoldable pub page_for : ReportData → Text → Result Page
unfolding observations_by_domain count_by text_column
page_for given audience =
    if text_eq audience (codes "technical") || text_eq audience (codes "summary")
    then ok (record {
      domains = observations_by_domain text_column given.observations;
      evidence_by_category = count_by text_column given.evidence "category";
    })
    else raised value_error
