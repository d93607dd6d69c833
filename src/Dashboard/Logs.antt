-- ===== src/Dashboard/Logs.antt =====
-- The page of logs, dashboard/src/pages/Logs (Logs.helpers.ts and hooks/useLogs.ts): the time window,
-- and the rows on the screen, which live refreshes and older pages are merged into. The requests and
-- the clock are arguments; a time of zero stands for none, as it does in the code.
pub mod Merged
pub mod Gaps
use trace_ux.Base.{
  ℕ, zero, suc, ◌+◌, ◌*◌, ◌-◌, ◌/◌, ◌≤◌, Bool, true, false, not, ◌&&◌, ◌||◌, Option, none, some,
  List, [], ◌∷◌, ◌++◌, ltb, leb, ◌==◌, if◌then◌else◌, length, filter,
}

pub record Log : Type 0 where
  pub id : ℕ
  pub timestamp_ms : ℕ
  pub created_at : ℕ

pub data TimeRange : Type 0 where
  minutes_15 : TimeRange
  hour_1 : TimeRange
  hours_6 : TimeRange
  hours_24 : TimeRange
  days_7 : TimeRange
  custom : TimeRange
  all_time : TimeRange

pub record TimeWindow : Type 0 where
  pub from_ms : ℕ
  pub to_ms : ℕ

-- A date that was typed: nothing, none that can be read, or a time.
pub data DateInput : Type 0 where
  empty : DateInput
  unreadable : DateInput
  time : ℕ → DateInput

unfoldable pub log_timestamp_ms : Log → ℕ
log_timestamp_ms l = if l.timestamp_ms == 0 then l.created_at * 1_000 else l.timestamp_ms

unfoldable pub log_timestamp : Log → ℕ
log_timestamp l = if l.timestamp_ms / 1_000 == 0 then l.created_at else l.timestamp_ms / 1_000

unfoldable pub duration_ms : TimeRange → ℕ
duration_ms minutes_15 = 900_000
duration_ms hour_1 = 3_600_000
duration_ms hours_6 = 21_600_000
duration_ms hours_24 = 86_400_000
duration_ms days_7 = 604_800_000
duration_ms custom = 900_000
duration_ms all_time = 900_000

abbrev pub date_or : DateInput → ℕ
date_or empty = 0
date_or unreadable = 0
date_or (time t) = t

abbrev pub is_unreadable : DateInput → Bool
is_unreadable empty = false
is_unreadable unreadable = true
is_unreadable (time t) = false

-- None where the window is not valid.
unfoldable pub custom_window : DateInput → DateInput → Option TimeWindow
custom_window f t =
    if is_unreadable f || is_unreadable t
    then none
    else if ltb 0 (date_or f) && ltb 0 (date_or t) && ltb (date_or t) (date_or f)
    then none
    else some (record { from_ms = date_or f; to_ms = date_or t })

unfoldable pub resolve_time_window : ℕ → TimeRange → DateInput → DateInput → Option TimeWindow
unfolding duration_ms custom_window
resolve_time_window now all_time f t = some (record { from_ms = 0; to_ms = 0 })
resolve_time_window now custom f t = custom_window f t
resolve_time_window now minutes_15 f t =
    some (record { from_ms = now - duration_ms minutes_15; to_ms = now })
resolve_time_window now hour_1 f t =
    some (record { from_ms = now - duration_ms hour_1; to_ms = now })
resolve_time_window now hours_6 f t =
    some (record { from_ms = now - duration_ms hours_6; to_ms = now })
resolve_time_window now hours_24 f t =
    some (record { from_ms = now - duration_ms hours_24; to_ms = now })
resolve_time_window now days_7 f t =
    some (record { from_ms = now - duration_ms days_7; to_ms = now })

abbrev pub log_page_size : ℕ
log_page_size = 100

unfoldable pub has_log : ℕ → List Log → Bool
has_log n [] = false
has_log n (l ∷ ls) = l.id == n || has_log n ls

unfoldable pub in_window : TimeWindow → Log → Bool
unfolding log_timestamp_ms
in_window w l =
    (w.from_ms == 0 || leb w.from_ms (log_timestamp_ms l))
    && (w.to_ms == 0 || leb (log_timestamp_ms l) w.to_ms)

-- A live refresh puts the newest rows before those of the window that are not among them; an older
-- page is put behind.
unfoldable pub refreshed : TimeWindow → List Log → List Log → List Log
unfolding has_log in_window filter
refreshed w rows current = rows ++ filter (λ l. not (has_log l.id rows) && in_window w l) current

unfoldable pub with_page : List Log → List Log → List Log
unfolding has_log filter
with_page current page = current ++ filter (λ l. not (has_log l.id current)) page

-- `generation` numbers the filters; `first_request` and `fetching` are those of its effect.
pub record Logs : Type 0 where
  pub generation : ℕ
  pub logs : Option (List Log)
  pub has_more : Bool
  pub loading : Bool
  pub loading_more : Bool
  pub fetching : Bool
  pub first_request : Bool
  pub failed : Bool

abbrev pub blank : Logs
blank = record {
  generation = 0;
  logs = none;
  has_more = false;
  loading = true;
  loading_more = false;
  fetching = false;
  first_request = true;
  failed = false;
}

-- The filters change: an invalid window shows nothing, any other is loaded.
unfoldable pub change_filters : Bool → Logs → Logs
change_filters valid s =
    let s' = record s { generation = suc s.generation; has_more = false; loading_more = false } in
    if valid
    then record s' { loading = true; fetching = true; first_request = true }
    else record s' { logs = some []; loading = false }

unfoldable pub tick : Logs → Logs
tick s = record s { fetching = true }

abbrev pub merged : Bool → TimeWindow → List Log → Option (List Log) → List Log
merged replace w rows none = rows
merged replace w rows (some current) = if replace then rows else refreshed w rows current

-- The answers of an earlier generation are dropped.
unfoldable pub on_rows : ℕ → TimeWindow → List Log → Logs → Logs
unfolding refreshed
on_rows g w rows s = if not (g == s.generation) then s else record s {
  logs = some (merged s.first_request w rows s.logs);
  has_more = if s.first_request then length rows == log_page_size else s.has_more;
  loading = false;
  fetching = false;
  first_request = false;
  failed = false;
}

unfoldable pub on_rows_failed : ℕ → Logs → Logs
on_rows_failed g s =
    if not (g == s.generation)
    then s
    else record s { loading = false; fetching = false; failed = true }

abbrev pub some_logs : Option (List Log) → Bool
some_logs none = false
some_logs (some []) = false
some_logs (some (l ∷ ls)) = true

unfoldable pub load_more : Bool → Logs → Logs
load_more valid s =
    if s.loading_more || not s.has_more || not (some_logs s.logs)
    then s
    else if not valid
    then s
    else record s { loading_more = true }

abbrev pub added : List Log → Option (List Log) → List Log
added page none = page
added page (some current) = with_page current page

unfoldable pub on_page : ℕ → List Log → Logs → Logs
unfolding with_page
on_page g page s = if not (g == s.generation) then s else record s {
  logs = some (added page s.logs);
  has_more = length page == log_page_size;
  failed = false;
  loading_more = false;
}

unfoldable pub on_page_failed : ℕ → Logs → Logs
on_page_failed g s =
    if not (g == s.generation)
    then s
    else record s { has_more = false; failed = true; loading_more = false }

pub data Happening : Type 0 where
  filters_change : (valid : Bool) → Happening
  ticks : Happening
  rows_came : ℕ → TimeWindow → List Log → Happening
  rows_failed : ℕ → Happening
  more_asked : (valid : Bool) → Happening
  page_came : ℕ → List Log → Happening
  page_failed : ℕ → Happening

unfoldable pub step : Happening → Logs → Logs
step (filters_change valid) s = change_filters valid s
step ticks s = tick s
step (rows_came g w rows) s = on_rows g w rows s
step (rows_failed g) s = on_rows_failed g s
step (more_asked valid) s = load_more valid s
step (page_came g page) s = on_page g page s
step (page_failed g) s = on_page_failed g s

unfoldable pub run : List Happening → Logs → Logs
run [] s = s
run (h ∷ hs) s = run hs (step h s)
