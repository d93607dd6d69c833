-- ===== src/Dashboard/Analyze/Validate.antt =====
-- validateForm of dashboard/src/pages/Analyze/Analyze.helpers.ts. Each message is a constructor;
-- whether the browser knows a time zone is an argument.
use trace_ux.Base.{
  ◌≤◌, ◌≡◌, ◌≢◌, Bool, true, not, ◌&&◌, ◌||◌, Option, none, some, [], Str, str_eq, ltb,
  if◌then◌else◌, length, is_empty, arith,
}
use trace_ux.Tracker.Config.{codes}
use trace_ux.Dashboard.Text.{chars, byte_length, trim}
use trace_ux.Dashboard.Analyze.{
  Window, window_key, parse_window_key, Source, event, log, exact, contains, EditorForm, name_limit,
  description_limit, event_field_limit, log_message_bytes,
}
use trace_ux.Dashboard.Analyze.Windows.{parse-window_key, within}

pub data Complaint : Type 0 where
  name_missing name_long description_long : Complaint
  action_missing action_long track_id_blank track_id_long : Complaint
  text_missing message_missing text_long message_long : Complaint
  timezone_unknown window_out_of_range : Complaint

pub record EditorErrors : Type 0 where
  pub name : Option Complaint
  pub description : Option Complaint
  pub matching : Option Complaint
  pub track_id : Option Complaint
  pub timezone : Option Complaint
  pub window : Option Complaint

abbrev name_error : Str → Option Complaint
name_error name =
    if is_empty name
    then some name_missing
    else if ltb name_limit (length (chars name))
    then some name_long
    else none

abbrev match_error : Source → EditorForm → Option Complaint
match_error event f =
    if is_empty (trim f.event_name)
    then some action_missing
    else if ltb event_field_limit (byte_length f.event_name)
    then some action_long
    else none
match_error log f =
    if is_empty (trim f.message)
    then some (elim f.message_mode [ contains ↦ text_missing | exact ↦ message_missing ])
    else if ltb log_message_bytes (byte_length f.message)
    then some (elim f.message_mode [ contains ↦ text_long | exact ↦ message_long ])
    else none

abbrev track_id_error : Source → EditorForm → Option Complaint
track_id_error event f =
    if not (is_empty f.track_id) && is_empty (trim f.track_id)
    then some track_id_blank
    else if ltb event_field_limit (byte_length f.track_id)
    then some track_id_long
    else none
track_id_error log f = none

abbrev window_error : Option Window → Option Complaint
window_error none = some window_out_of_range
window_error (some w) = none

unfoldable pub validate_form : (Str → Bool) → EditorForm → EditorErrors
validate_form is_known_timezone f = record {
  name = name_error (trim f.name);
  description =
      if ltb description_limit (length (chars (trim f.description)))
      then some description_long
      else none;
  matching = match_error f.source f;
  track_id = track_id_error f.source f;
  timezone =
      if not (is_known_timezone f.timezone) || str_eq f.timezone (codes "Local")
      then some timezone_unknown
      else none;
  window = window_error (parse_window_key (window_key f.window));
}

abbrev pub no_errors : EditorErrors
no_errors = record {
  name = none;
  description = none;
  matching = none;
  track_id = none;
  timezone = none;
  window = none;
}

-- The limits on what a report counts.
abbrev pub Countable : Source → EditorForm → Type 0
Countable event f =
    (trim f.event_name ≢ []) × (byte_length f.event_name ≤ 100) × (byte_length f.track_id ≤ 100)
Countable log f = (trim f.message ≢ []) × (byte_length f.message ≤ 4_096)

match_Countable :
    (s : Source) (f : EditorForm)
    → match_error s f ≡ none
    → track_id_error s f ≡ none
    → Countable s f
match_Countable event f m t =
    ((λ e. absurd (ground (arith, m, e))), ground (arith, m), ground (arith, t))
match_Countable log f m t = ((λ e. absurd (ground (arith, m, e))), ground (arith, m))

-- A form without errors has a name of at most 120 characters that is not blank, a description of at
-- most 1000, something to count within the limits of its source, a time zone that is known, and a
-- window of 1 to 168 hours or 1 to 365 days.
pub validate_form_lem :
    (is_known_timezone : Str → Bool) (f : EditorForm)
    → validate_form is_known_timezone f ≡ no_errors
    → (trim f.name ≢ [])
      × (length (chars (trim f.name)) ≤ 120)
      × (length (chars (trim f.description)) ≤ 1_000)
      × Countable f.source f
      × (is_known_timezone f.timezone ≡ true)
      × (within f.window ≡ true)
unfolding validate_form
validate_form_lem known f h = (
  (λ e. absurd (ground (arith, h, e))),
  ground (arith, h),
  ground (arith, h),
  match_Countable f.source f (ground (arith, h)) (ground (arith, h)),
  ground (arith, h),
  ground (arith, h, parse-window_key f.window),
)
