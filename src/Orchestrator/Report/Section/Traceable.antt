-- ===== src/Orchestrator/Report/Section/Traceable.antt =====
-- report.py: what a section refers to.
use auditcore.Base.{
  ℕ, ◌+◌, ◌≡◌, refl, ◌⊎◌, inl, inr, Option, none, some, List, [], ◌∷◌, ◌++◌, contains→Mem, All,
  All-append, All-imp, Option-cases, arith,
}
use mathlib.Core.List.{Mem, mem-append, mem-cons}
use mathlib.Core.Logic.Or
use auditcore.Base.Text.{Text, codes, text_eq_iff}
use auditcore.Base.Json.{Value, str, Runtime, get_or, iterate, py_str}
use auditcore.Base.Int.{int_of}
use auditcore.Base.Markers.{findall}
use auditcore.Base.Error.{OnOk, OnOk-ok, OnOk-bind}
use auditcore.Base.Uuid.{Uuid, parse_uuid}
use auditcore.Orchestrator.Rows.{ReportSectionWrite}
use auditcore.Orchestrator.Discovery.Validate.{as_uuid, known}
use auditcore.Orchestrator.Report.Section.{
  Output, Context, audience_of, embed, flag_markers, write_section, dispatch, add_section,
  add_sections,
}

-- The text is the id of one of the observations.
abbrev pub RefersTo : List Uuid → Text → Type 0
RefersTo valid m = (u : Uuid) × (parse_uuid m ≡ some u) × Mem u valid

-- The section is of the run, for an audience that there is, embeds observations that exist, and each marker in
-- its body refers to one or is among the unknown references.
pub record IsTraceable (run_id : Uuid) (valid : List Uuid) (unknown : List Text)
    (s : ReportSectionWrite) : Type 0 where
  pub run : s.run_id ≡ run_id
  pub audience : (s.audience ≡ codes "technical") ⊎ (s.audience ≡ codes "summary")
  pub embedded : All (λ u. Mem u valid) s.embedded_observations
  pub markers : All (λ m. RefersTo valid m ⊎ Mem m unknown) (findall s.body_md)

-- All that is in the one list is in the other.
abbrev Within : List Text → List Text → Type 0
Within xs ys = (m : Text) → Mem m xs → Mem m ys

Within-append : (xs ys : List Text) → Within xs (xs ++ ys)
Within-append xs ys m h = mem-append.1 (Or.inl h)

last-Mem : (xs : List Text) (m : Text) → Mem m (xs ++ m ∷ [])
last-Mem xs m = mem-append.1 (Or.inr (mem-cons.1 (Or.inl refl)))

IsTraceable-mono :
    (run_id : Uuid) (valid : List Uuid) (xs ys : List Text)
    → Within xs ys
    → (s : ReportSectionWrite) → IsTraceable run_id valid xs s
    → IsTraceable run_id valid ys s
IsTraceable-mono run_id valid xs ys sub s h = record {
  run = h.run;
  audience = h.audience;
  embedded = h.embedded;
  markers = All-imp _ _ (findall s.body_md) (λ m. later m) h.markers;
}
  where
    later : (m : Text) → RefersTo valid m ⊎ Mem m xs → RefersTo valid m ⊎ Mem m ys
    later m (inl r) = inl r
    later m (inr k) = inr (sub m k)

known-Mem :
    (valid : List Uuid) (o : Option Uuid) {u : Uuid}
    → known valid o ≡ some u
    → (o ≡ some u) × Mem u valid
unfolding known
known-Mem valid none h = cc
known-Mem valid (some v) {u} h = (ground arith, contains→Mem valid u (ground arith))

flag_markers-Within :
    (valid : List Uuid) (ms unknown : List Text) → Within unknown (flag_markers valid ms unknown)
unfolding flag_markers
flag_markers-Within valid [] unknown m h = h
flag_markers-Within valid (k ∷ ms) unknown m h = elim (Option-cases (known valid (parse_uuid k))) [
  | inl e ↦
      rw (e, flag_markers)
        (flag_markers-Within valid ms (unknown ++ k ∷ []) m (Within-append unknown (k ∷ []) m h))
  | inr (u, e) ↦ rw (e, flag_markers) (flag_markers-Within valid ms unknown m h)
]

flag_markers-All :
    (valid : List Uuid) (ms unknown final : List Text)
    → Within (flag_markers valid ms unknown) final
    → All (λ m. RefersTo valid m ⊎ Mem m final) ms
unfolding flag_markers
flag_markers-All valid [] unknown final sub = tt
flag_markers-All valid (k ∷ ms) unknown final sub =
    elim (Option-cases (known valid (parse_uuid k))) [
      | inl e ↦
          let more : List Text = unknown ++ k ∷ [] in
          let sub' : Within (flag_markers valid ms more) final =
            λ m h. sub m (rw (e, flag_markers) h) in
          (
            inr (sub' k (flag_markers-Within valid ms more k (last-Mem unknown k))),
            flag_markers-All valid ms more final sub',
          )
      | inr (u, e) ↦ (
        inl (u, (known-Mem valid (parse_uuid k) e).0, (known-Mem valid (parse_uuid k) e).1),
        flag_markers-All valid ms unknown final (λ m h. sub m (rw (e, flag_markers) h)),
      )
    ]

module _ (rt : Runtime) (valid : List Uuid) where
  embed-Mem :
      (refs : List Value) (kept : List Uuid × List Text)
      → All (λ u. Mem u valid) kept.0
      → All (λ u. Mem u valid) (embed rt valid refs kept).0
  unfolding embed
  embed-Mem [] kept h = h
  embed-Mem (r ∷ refs) (us, unknown) h = elim (Option-cases (known valid (as_uuid r))) [
    | inl e ↦ rw (e, embed) (embed-Mem refs (us, unknown ++ py_str rt r ∷ []) h)
    | inr (u, e) ↦
        rw (e, embed)
          (embed-Mem refs (us ++ u ∷ [], unknown)
            (All-append _ us (u ∷ []) h ((known-Mem valid (as_uuid r) e).1, tt)))
  ]

  embed-Within :
      (refs : List Value) (kept : List Uuid × List Text)
      → Within kept.1 (embed rt valid refs kept).1
  unfolding embed
  embed-Within [] kept m h = h
  embed-Within (r ∷ refs) (us, unknown) m h = elim (Option-cases (known valid (as_uuid r))) [
    | inl e ↦
        rw (e, embed)
          (embed-Within refs (us, unknown ++ py_str rt r ∷ []) m
            (Within-append unknown (py_str rt r ∷ []) m h))
    | inr (u, e) ↦ rw (e, embed) (embed-Within refs (us ++ u ∷ [], unknown) m h)
  ]

audience_of-some :
    (v : Value) (a : Text)
    → audience_of v ≡ some a
    → (a ≡ codes "technical") ⊎ (a ≡ codes "summary")
audience_of-some (str s) a h =
    ground (arith, text_eq_iff s (codes "technical"), text_eq_iff s (codes "summary"))
audience_of-some _ a h = cc

-- The invariant of the loop.
abbrev pub AllTraceable : Uuid → List Uuid → Output → Type 0
AllTraceable run_id valid out = All (IsTraceable run_id valid out.unknown_refs) out.sections

module _ (rt : Runtime) (c : Context) where
  write_section-AllTraceable :
      (i : ℕ) (raw : Value) (a : Text) (out : Output)
      → (a ≡ codes "technical") ⊎ (a ≡ codes "summary")
      → AllTraceable c.run_id c.valid_obs out
      → OnOk (AllTraceable c.run_id c.valid_obs) (write_section rt c i raw a out)
  unfolding write_section
  write_section-AllTraceable i raw a out ha h = OnOk-bind (get_or raw "body_md" _) _ λ body _.
      OnOk-bind (get_or raw "embedded_observations" _) _ λ listed _.
        OnOk-bind (iterate listed) _ λ refs _. OnOk-bind (get_or raw "order" _) _ λ order_value _.
          OnOk-bind (int_of order_value) _ λ order _. OnOk-bind (get_or raw "title" _) _ λ title _.
            let first : List Text = (embed rt c.valid_obs refs ([], out.unknown_refs)).1 in
            let last : List Text = flag_markers c.valid_obs (findall (py_str rt body)) first in
            OnOk-ok _ (
              All-append _ out.sections _
                (All-imp _ _ out.sections
                  (IsTraceable-mono c.run_id c.valid_obs out.unknown_refs last (λ m k.
                    flag_markers-Within c.valid_obs (findall (py_str rt body)) first m
                      (embed-Within rt c.valid_obs refs ([], out.unknown_refs) m k)))
                  h)
                (
                  record {
                    run = refl;
                    audience = ha;
                    embedded = embed-Mem rt c.valid_obs refs ([], out.unknown_refs) tt;
                    markers =
                        flag_markers-All c.valid_obs (findall (py_str rt body)) first last
                          (λ m k. k);
                  },
                  tt,
                ))

  dispatch-AllTraceable :
      (i : ℕ) (raw audience : Value) (o : Option Text) (out : Output)
      → audience_of audience ≡ o
      → AllTraceable c.run_id c.valid_obs out
      → OnOk (AllTraceable c.run_id c.valid_obs) (dispatch rt c i raw audience o out)
  unfolding dispatch
  dispatch-AllTraceable i raw audience none out e h = OnOk-ok _ h
  dispatch-AllTraceable i raw audience (some a) out e h =
      write_section-AllTraceable i raw a out (audience_of-some audience a e) h

  add_section-AllTraceable :
      (i : ℕ) (raw : Value) (out : Output)
      → AllTraceable c.run_id c.valid_obs out
      → OnOk (AllTraceable c.run_id c.valid_obs) (add_section rt c i raw out)
  unfolding add_section
  add_section-AllTraceable i raw out h =
      OnOk-bind (get_or raw "audience" _) _
        λ audience _. dispatch-AllTraceable i raw audience (audience_of audience) out refl h

  -- A loop over any sections keeps all of them traceable.
  pub add_sections-AllTraceable :
      (i : ℕ) (raws : List Value) (out : Output)
      → AllTraceable c.run_id c.valid_obs out
      → OnOk (AllTraceable c.run_id c.valid_obs) (add_sections rt c i raws out)
  unfolding add_sections
  add_sections-AllTraceable i [] out h = OnOk-ok out h
  add_sections-AllTraceable i (raw ∷ rest) out h =
      OnOk-bind (add_section rt c i raw out) _ λ next e.
        add_sections-AllTraceable (i + 1) rest next
          ((add_section-AllTraceable i raw out h).at next e)
