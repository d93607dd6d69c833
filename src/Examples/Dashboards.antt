-- ===== src/Examples/Dashboards.antt =====
-- The dashboard's helpers: theorems at concrete inputs.
use trace_ux.Base.{
  ◌≡◌, ◌≢◌, refl, true, false, none, some, List, [], ◌∷◌, ◌++◌, Str, arith, if◌then◌else◌, str_eq,
}
use trace_ux.Tracker.Config.{codes}
use trace_ux.Dashboard.CssAssets.{
  text, object, Nodes, nil, cons, entry, end, Assets, get, has, collect_css_refs, rehydrate_css,
  walk_refs, entry_ref, is_css_ref, add, done,
}
use trace_ux.Dashboard.CssAssets.Resolve.{styled_items, covered_rehydrates}
use trace_ux.Dashboard.Text.{trim, trim_end, trim_start, decimal, digits, byte_length, chars}
use trace_ux.Dashboard.Select.{Gesture, key_pressed, trigger_clicked, arrow_down, end_key, enter}
use trace_ux.Dashboard.Analyze.{
  hours, all_digits, number_from, matches_number, window_key, parse_window_key, EditorForm,
  empty_form, log,
}
use trace_ux.Dashboard.Analyze.Validate.{validate_form, no_errors}
use trace_ux.Dashboard.Analyze.Windows.{parse-window_key, within}

-- 64 hex digits.
abbrev sheet_hash : Str
sheet_hash = codes "0123456789abcdef0123456789abcdef0123456789abcdef0123456789abcdef"

abbrev snapshot : Nodes
snapshot =
    cons (object (entry (codes "_cssText") (text (codes "@traceux-css-ref:" ++ sheet_hash)) end))
      nil

abbrev sheets : Assets
sheets = (sheet_hash, codes "a{}") ∷ []

found_one : collect_css_refs snapshot ≡ sheet_hash ∷ []
unfolding collect_css_refs walk_refs entry_ref is_css_ref add str_eq
found_one = refl

sheets_cover : (h : Str) → has h (collect_css_refs snapshot) ≡ true → get h sheets ≢ none
unfolding has get
sheets_cover h e = ground (arith, e, found_one)

covered_rehydrates_example : rehydrate_css sheets snapshot ≡ done (styled_items sheets snapshot)
covered_rehydrates_example = covered_rehydrates sheets snapshot sheets_cover

get_one : (k v h css : Str) → get h ((k, v) ∷ []) ≡ some css → css ≡ v
unfolding get
get_one k v h css e = ground (arith, e)

plain_sheet : is_css_ref (codes "a{}") ≡ false
unfolding is_css_ref str_eq
plain_sheet = refl

plain_sheets : (h css : Str) → get h sheets ≡ some css → is_css_ref css ≡ false
plain_sheets h css e = rw (get_one sheet_hash (codes "a{}") h css e) plain_sheet

abbrev keys : List Gesture
keys =
    trigger_clicked
    ∷ key_pressed arrow_down
    ∷ key_pressed end_key
    ∷ key_pressed arrow_down
    ∷ key_pressed enter
    ∷ []

parse-window_key_example :
    parse_window_key (window_key (hours 24)) ≡ (if within (hours 24) then some (hours 24) else none)
parse-window_key_example = parse-window_key (hours 24)

abbrev draft : EditorForm
draft = record (empty_form (codes "UTC")) {
  name = codes "Errors";
  source = log;
  message = codes "time-out";
  window = hours 24;
}

draft_passes : validate_form (λ z. true) draft ≡ no_errors
unfolding validate_form empty_form chars byte_length trim trim_end trim_start window_key
    parse_window_key decimal digits matches_number all_digits number_from str_eq
draft_passes = refl
