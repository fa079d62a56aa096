-- ===== src/Orchestrator/Report/Section.antt =====
-- report.py: one section that the report agent returned.
pub mod Traceable
use auditcore.Base.{
  ℕ, ◌+◌, String, Option, none, some, List, [], ◌∷◌, ◌++◌, Bool, true, false, ◌||◌, contains,
  if◌then◌else◌,
}
use auditcore.Base.Text.{Text, codes, decimal, text_eq}
use auditcore.Base.Json.{Value, null, int, pos, str, arr, nil, Runtime, get_or, iterate, py_str}
use auditcore.Base.Int.{int_of}
use auditcore.Base.Markers.{findall}
use auditcore.Base.Error.{Result, ok, ◌>>=◌}
use auditcore.Base.Uuid.{Uuid, parse_uuid}
use auditcore.Orchestrator.Rows.{ReportSectionWrite}
use auditcore.Orchestrator.Discovery.Validate.{as_uuid, known}

-- The lists of `out`.
pub record Output : Type 0 where
  pub sections : List ReportSectionWrite
  pub dropped : List Text
  pub unknown_refs : List Text

-- What `assemble_report` has before the loop.
pub record Context : Type 0 where
  pub run_id : Uuid
  pub produced_by : Text
  pub model : String
  pub valid_obs : List Uuid

-- `v in ("technical", "summary")`
abbrev pub audience_of : Value → Option Text
audience_of (str s) =
    if text_eq s (codes "technical") || text_eq s (codes "summary") then some s else none
audience_of _ = none

module _ (rt : Runtime) (valid : List Uuid) where
  -- The loop over `embedded_observations`.
  unfoldable pub embed : List Value → List Uuid × List Text → List Uuid × List Text
  embed [] kept = kept
  embed (ref ∷ rest) (embedded, unknown) = elim (known valid (as_uuid ref)) [
    | some u ↦ embed rest (embedded ++ u ∷ [], unknown)
    | none ↦ embed rest (embedded, unknown ++ py_str rt ref ∷ [])
  ]

-- The loop over the markers of the body.
unfoldable pub flag_markers : List Uuid → List Text → List Text → List Text
flag_markers valid [] unknown = unknown
flag_markers valid (m ∷ rest) unknown = elim (known valid (parse_uuid m)) [
  | some u ↦ flag_markers valid rest unknown
  | none ↦ flag_markers valid rest (unknown ++ m ∷ [])
]

module _ (rt : Runtime) (c : Context) where
  write_section : ℕ → Value → Text → Output → Result Output
  write_section i raw audience out = do
    body_value ← get_or raw "body_md" (str [])
    let body = py_str rt body_value
    listed ← get_or raw "embedded_observations" (arr nil)
    refs ← iterate listed
    let (embedded, unknown) = embed rt c.valid_obs refs ([], out.unknown_refs)
    order_value ← get_or raw "order" (int (pos i))
    order ← int_of order_value
    title ← get_or raw "title" (str [])
    ok (record {
      sections =
          out.sections
          ++ record {
            run_id = c.run_id;
            audience = audience;
            order = order;
            title = py_str rt title;
            body_md = body;
            embedded_observations = embedded;
            produced_by_agent = c.produced_by;
            model_used = c.model;
          }
            ∷ [];
      dropped = out.dropped;
      unknown_refs = flag_markers c.valid_obs (findall body) unknown;
    })

  -- A section for an audience that there is, or a reason to drop it.
  dispatch : ℕ → Value → Value → Option Text → Output → Result Output
  dispatch i raw audience none out = ok (record out {
    dropped =
        out.dropped
        ++ (codes "section[" ++ (decimal i ++ (codes "]: invalid audience " ++ rt.repr audience)))
          ∷ [];
  })
  dispatch i raw audience (some a) out = write_section i raw a out

  -- One turn of the loop over the sections.
  unfoldable pub add_section : ℕ → Value → Output → Result Output
  unfolding dispatch write_section
  add_section i raw out = do
    audience ← get_or raw "audience" null
    dispatch i raw audience (audience_of audience) out

  unfoldable pub add_sections : ℕ → List Value → Output → Result Output
  unfolding add_section
  add_sections i [] out = ok out
  add_sections i (raw ∷ rest) out = do next ← add_section i raw out; add_sections (i + 1) rest next
