-- ===== src/Dashboard/Analyze.antt =====
-- The reports of dashboard/src/pages/Analyze/Analyze.helpers.ts: windows and their keys, and the
-- form of the report editor and the definition that is saved. What depends on the browser's time
-- zones is an argument.
pub mod Form
pub mod Windows
pub mod Validate
use trace_ux.Base.{
  ℕ, zero, suc, ◌+◌, ◌-◌, ◌*◌, ◌/◌, ◌%◌, Bool, true, false, not, ◌&&◌, ◌||◌, Option, none, some,
  List, [], ◌∷◌, ◌++◌, Str, ltb, leb, ◌==◌, if◌then◌else◌, length, is_empty,
}
use trace_ux.Tracker.Config.{codes}
use trace_ux.Dashboard.Text.{decimal}

pub data Window : Type 0 where
  hours days : ℕ → Window

pub data Interval : Type 0 where
  day hour five_minutes : Interval

-- LIMITS of Analyze.constants.ts.
abbrev pub name_limit : ℕ
name_limit = 120

abbrev pub description_limit : ℕ
description_limit = 1_000

abbrev pub event_field_limit : ℕ
event_field_limit = 100

abbrev pub log_message_bytes : ℕ
log_message_bytes = 4_096

abbrev pub max_days : ℕ
max_days = 365

abbrev pub max_hours : ℕ
max_hours = 168

abbrev pub five_minute_hours : ℕ
five_minute_hours = 6

unfoldable pub window_key : Window → Str
window_key (days n) = b'd' ∷ decimal n
window_key (hours n) = b'h' ∷ decimal n

abbrev pub is_digit : ℕ → Bool
is_digit c = leb 48 c && leb c 57

unfoldable pub all_digits : Str → Bool
all_digits [] = true
all_digits (c ∷ cs) = is_digit c && all_digits cs

-- `Number` of digits, after those that are worth `n`.
unfoldable pub number_from : ℕ → Str → ℕ
number_from n [] = n
number_from n (c ∷ cs) = number_from (n * 10 + (c - 48)) cs

-- `[1-9]\d{0,2}` up to the end.
unfoldable pub matches_number : Str → Bool
unfolding all_digits
matches_number [] = false
matches_number (c ∷ cs) = leb 49 c && leb c 57 && leb (length cs) 2 && all_digits cs

abbrev pub bounded_window : ℕ → ℕ → Option Window
bounded_window c n =
    if c == b'h'
    then (if leb n max_hours then some (hours n) else none)
    else if leb n max_days
    then some (days n)
    else none

unfoldable pub parse_window_key : Str → Option Window
unfolding matches_number number_from
parse_window_key [] = none
parse_window_key (c ∷ cs) =
    if (c == b'h' || c == b'd') && matches_number cs
    then bounded_window c (number_from 0 cs)
    else none

unfoldable pub interval_for : Window → Interval
interval_for (hours n) =
    if n == 0 then day else if leb n five_minute_hours then five_minutes else hour
interval_for (days n) = day

abbrev pub last_days : ℕ → Str
last_days n = if n == 1 then codes "Last day" else codes "Last " ++ (decimal n ++ codes " days")

abbrev pub last_hours : ℕ → Str
last_hours n =
    if n == 1
    then codes "Last hour"
    else if n % 24 == 0 && ltb 24 n
    then codes "Last " ++ (decimal (n / 24) ++ codes " days")
    else codes "Last " ++ (decimal n ++ codes " hours")

-- A window of zero hours has no `days`, which is then printed as such.
unfoldable pub window_label : Window → Str
window_label (hours n) = if n == 0 then codes "Last undefined days" else last_hours n
window_label (days n) = last_days n

pub data Source : Type 0 where
  event log : Source

pub data MessageMode : Type 0 where
  exact contains : MessageMode

pub data Visibility : Type 0 where
  team only_me : Visibility

pub data Visualization : Type 0 where
  bar line : Visualization

pub record Match : Type 0 where
  pub name : Option Str
  pub track_id : Option Str
  pub message : Option Str
  pub message_mode : Option MessageMode
  pub severity : Option Str
  pub service_id : Option ℕ
  pub environment : Option Str

pub record Definition : Type 0 where
  pub source : Source
  pub site_id : Option ℕ
  pub matching : Match
  pub default_days : Option ℕ
  pub default_hours : Option ℕ
  pub interval : Interval
  pub timezone : Str
  pub visualization : Visualization

pub record Report : Type 0 where
  pub name : Str
  pub description : Str
  pub visibility : Visibility
  pub definition : Definition

pub record EditorForm : Type 0 where
  pub name : Str
  pub description : Str
  pub visibility : Visibility
  pub site_id : Option ℕ
  pub source : Source
  pub event_name : Str
  pub track_id : Str
  pub message : Str
  pub message_mode : MessageMode
  pub severity : Str
  pub service_id : Option ℕ
  pub environment : Str
  pub window : Window
  pub timezone : Str
  pub visualization : Visualization

unfoldable pub empty_form : Str → EditorForm
empty_form browser_timezone = record {
  name = [];
  description = [];
  visibility = team;
  site_id = none;
  source = event;
  event_name = [];
  track_id = [];
  message = [];
  message_mode = contains;
  severity = [];
  service_id = none;
  environment = [];
  window = days 30;
  timezone = browser_timezone;
  visualization = bar;
}

abbrev pub or_else {ℓ} : {A : Type ℓ} → Option A → A → A
or_else none d = d
or_else (some a) d = a

-- `x ? x : undefined`, for a string and for a number.
abbrev pub given : Str → Option Str
given s = if is_empty s then none else some s

abbrev pub nonzero : Option ℕ → Option ℕ
nonzero none = none
nonzero (some n) = if n == 0 then none else some n

-- `def.default_hours ? { hours } : { days: def.default_days ?? 30 }`.
abbrev pub stored_window : Option ℕ → Option ℕ → Window
stored_window none d = days (or_else d 30)
stored_window (some n) d = if n == 0 then days (or_else d 30) else hours n

unfoldable pub definition_window : Definition → Window
definition_window d = stored_window d.default_hours d.default_days

unfoldable pub form_from_report : Report → EditorForm
unfolding definition_window
form_from_report r =
    let m = r.definition.matching in
    record {
      name = r.name;
      description = r.description;
      visibility = r.visibility;
      site_id = r.definition.site_id;
      source = r.definition.source;
      event_name = or_else m.name [];
      track_id = or_else m.track_id [];
      message = or_else m.message [];
      message_mode = or_else m.message_mode exact;
      severity = or_else m.severity [];
      service_id = m.service_id;
      environment = or_else m.environment [];
      window = definition_window r.definition;
      timezone = r.definition.timezone;
      visualization = r.definition.visualization;
    }

abbrev pub empty_match : Match
empty_match = record {
  name = none;
  track_id = none;
  message = none;
  message_mode = none;
  severity = none;
  service_id = none;
  environment = none;
}

abbrev pub match_of : Source → EditorForm → Match
match_of event f = record empty_match { name = some f.event_name; track_id = given f.track_id }
match_of log f = record empty_match {
  message = some f.message;
  message_mode = some f.message_mode;
  severity = given f.severity;
  service_id = nonzero f.service_id;
  environment = given f.environment;
}

abbrev pub hours_of : Window → Option ℕ
hours_of (hours n) = if n == 0 then none else some n
hours_of (days n) = none

abbrev pub days_of : Window → Option ℕ
days_of (hours n) = none
days_of (days n) = some n

unfoldable pub definition_from_form : EditorForm → Definition
unfolding interval_for
definition_from_form f = record {
  source = f.source;
  site_id = f.site_id;
  matching = match_of f.source f;
  default_days = days_of f.window;
  default_hours = hours_of f.window;
  interval = interval_for f.window;
  timezone = f.timezone;
  visualization = f.visualization;
}

abbrev pub has_fields_of : Source → EditorForm → Bool
has_fields_of event f = not (is_empty f.event_name) || not (is_empty f.track_id)
has_fields_of log f =
    not (is_empty f.message)
    || not (is_empty f.severity)
    || not (elim (nonzero f.service_id) [ none ↦ true | some n ↦ false ])
    || not (is_empty f.environment)

unfoldable pub has_source_fields : EditorForm → Bool
has_source_fields f = has_fields_of f.source f

unfoldable pub clear_source_fields : EditorForm → EditorForm
clear_source_fields f = record f {
  event_name = [];
  track_id = [];
  message = [];
  message_mode = contains;
  severity = [];
  service_id = none;
  environment = [];
}
