-- ===== src/Dashboard/Analyze/Form.antt =====
-- The form of the report editor and the definition that is saved
-- (dashboard/src/pages/Analyze/Analyze.helpers.ts, definitionFromForm and formFromReport).
use trace_ux.Base.{ℕ, ◌≡◌, ◌≢◌, ◌⊎◌, refl, Option, [], ◌∷◌, Str, arith, Bool-cases, inl, inr, ◌==◌}
use trace_ux.Dashboard.Analyze.{
  Window, hours, days, Source, event, log, Report, EditorForm, or_else, given, nonzero,
  stored_window, definition_window, form_from_report, match_of, hours_of, days_of,
  definition_from_form,
}

given-or_else : (s : Str) → given (or_else (given s) []) ≡ given s
given-or_else [] = refl
given-or_else (c ∷ cs) = refl

nonzero-twice : (n : Option ℕ) → nonzero (nonzero n) ≡ nonzero n
nonzero-twice n = ground arith

window_saved : (w : Window) → w ≢ hours 0 → stored_window (hours_of w) (days_of w) ≡ w
window_saved (days n) h = refl
window_saved (hours n) h = elim (Bool-cases (n == 0)) [
  | inl e ↦ absurd (ground (arith, h, e))
  | inr e ↦ ground (arith, e)
]

Source-cases : (s : Source) → (s ≡ event) ⊎ (s ≡ log)
Source-cases event = inl refl
Source-cases log = inr refl

-- The report that a form is saved as.
abbrev pub saved : EditorForm → Report
saved f = record {
  name = f.name;
  description = f.description;
  visibility = f.visibility;
  definition = definition_from_form f;
}

match_saved :
    (s : Source) (f : EditorForm)
    → f.source ≡ s
    → match_of s (form_from_report (saved f)) ≡ match_of s f
unfolding definition_from_form form_from_report
match_saved event f e = ground (arith, e, given-or_else f.track_id)
match_saved log f e =
    ground
      (arith, e, given-or_else f.severity, given-or_else f.environment, nonzero-twice f.service_id)

-- Opening a saved report in the editor and saving it again leaves its definition as it is, unless
-- the form has a window of zero hours.
pub saved_again :
    (f : EditorForm)
    → f.window ≢ hours 0
    → definition_from_form (form_from_report (saved f)) ≡ definition_from_form f
unfolding definition_from_form form_from_report definition_window
saved_again f h = ground (arith, match_saved f.source f refl, window_saved f.window h)

-- A report that is saved from a form and opened again shows the form's name, window, time zone and
-- site, and the source's own fields, unless the window has zero hours; the other source's fields
-- are blank.
pub opened_again :
    (f : EditorForm)
    → f.window ≢ hours 0
    → let g = form_from_report (saved f) in
      (g.name ≡ f.name)
      × (g.window ≡ f.window)
      × (g.timezone ≡ f.timezone)
      × (g.site_id ≡ f.site_id)
      × (match_of f.source g ≡ match_of f.source f)
      × (((f.source ≡ event) × (g.message ≡ []) × (g.severity ≡ []) × (g.environment ≡ []))
          ⊎ (f.source ≡ log) × (g.event_name ≡ []) × (g.track_id ≡ []))
unfolding definition_from_form form_from_report definition_window
opened_again f h = (
  refl,
  window_saved f.window h,
  refl,
  refl,
  match_saved f.source f refl,
  elim (Source-cases f.source) [
    | inl e ↦ inl (ground (arith, e), ground (arith, e), ground (arith, e), ground (arith, e))
    | inr e ↦ inr (ground (arith, e), ground (arith, e), ground (arith, e))
  ],
)
