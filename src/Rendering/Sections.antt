-- ===== src/Rendering/Sections.antt =====
-- sections.py: the sections of a report, with their references to observations written out.
use auditcore.Base.{
  ◌≡◌, ap, Option, none, some, List, [], ◌∷◌, ◌++◌, ◌||◌, map, filter, All, All-imp, if◌then◌else◌,
}
use auditcore.Base.Text.{Text, codes, text_eq}
use auditcore.Base.Json.{ℤ, Value}
use auditcore.Base.Sort.{sorted}
use auditcore.Orchestrator.PgRepo.Statements.{int_le}
use auditcore.Base.Markers.{findall, sub, sub-agree}
use auditcore.Base.Error.{Result, ok, raised, value_error}

-- An entry of `sections`.
pub record SectionEntry : Type 0 where
  pub audience : Text
  pub order : ℤ
  pub title : Text
  pub body_md : Text

pub record SectionsData : Type 0 where
  pub run : Value
  pub sections : List SectionEntry
  pub observation_topics : List (Text × Text)

-- `topics.get(oid)`
unfoldable pub topic_of : Text → List (Text × Text) → Option Text
topic_of oid [] = none
topic_of oid ((k, topic) ∷ rest) = if text_eq k oid then some topic else topic_of oid rest

-- `repl`: an empty topic counts as none.
unfoldable pub cite : Option Text → Text
cite (some (c ∷ s)) = codes "*" ++ ((c ∷ s) ++ codes "*")
cite _ = codes "*(unknown observation)*"

unfoldable pub expand_markers : Text → List (Text × Text) → Text
unfolding topic_of cite
expand_markers body_md topics = sub (λ oid. cite (topic_of oid topics)) body_md

abbrev expanded : List (Text × Text) → SectionEntry → SectionEntry
expanded topics s = record s { body_md = expand_markers s.body_md topics }

-- `render_sections_html`: what the template is given as its sections.
unfoldable pub sections_for : SectionsData → Text → Result (List SectionEntry)
unfolding expand_markers
sections_for given audience =
    if text_eq audience (codes "technical") || text_eq audience (codes "summary")
    then ok (
        map (expanded given.observation_topics) (
          sorted (λ a b. int_le a.order b.order)
            (filter (λ s. text_eq s.audience audience) given.sections)))
    else raised value_error

-- Two tables of topics that agree on each id that a body refers to give the same text.
pub expand_markers-agree :
    (body_md : Text) (topics others : List (Text × Text))
    → All (λ oid. topic_of oid topics ≡ topic_of oid others) (findall body_md)
    → expand_markers body_md topics ≡ expand_markers body_md others
unfolding expand_markers
expand_markers-agree body_md topics others h =
    sub-agree (λ oid. cite (topic_of oid topics)) (λ oid. cite (topic_of oid others)) body_md
      (All-imp _ _ (findall body_md) (λ oid e. ap cite e) h)
