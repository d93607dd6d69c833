-- ===== src/Tracker/Logs.antt =====
-- Browser logs (tracker/src/main.ts, isLogSeverity to captureLog): which severities a site
-- records, how console arguments are written out, and the bounded buffer.
pub mod Selection
use trace_ux.Base.{
  ℕ, ◌+◌, ◌-◌, Bool, false, ◌&&◌, ◌||◌, Option, none, some, List, [], ◌∷◌, ◌++◌, Str, str_eq, leb,
  ltb, ◌==◌, if◌then◌else◌, length, take, drop, map,
}
use trace_ux.Tracker.Config.{
  LogSeverity, debug, info, warn, error, log_severity_rank, LogCfg, codes,
}

-- `isLogSeverity`, with the severity it narrows to.
unfoldable pub is_log_severity : Str → Option LogSeverity
is_log_severity s =
    if str_eq s (codes "debug")
    then some debug
    else if str_eq s (codes "info")
    then some info
    else if str_eq s (codes "warn")
    then some warn
    else if str_eq s (codes "error")
    then some error
    else none

abbrev pub all_severities : List LogSeverity
all_severities = debug ∷ info ∷ warn ∷ error ∷ []

-- `configured.filter(isLogSeverity)`.
abbrev pub cons_if {ℓ} : {A : Type ℓ} → Option A → List A → List A
cons_if none xs = xs
cons_if (some a) xs = a ∷ xs

unfoldable pub known_severities : List Str → List LogSeverity
unfolding is_log_severity
known_severities [] = []
known_severities (s ∷ ss) = cons_if (is_log_severity s) (known_severities ss)

unfoldable pub at_least : LogSeverity → List LogSeverity → List LogSeverity
unfolding log_severity_rank
at_least m [] = []
at_least m (s ∷ ss) =
    if leb (log_severity_rank m) (log_severity_rank s) then s ∷ at_least m ss else at_least m ss

abbrev pub or_severity : Option LogSeverity → LogSeverity → LogSeverity
or_severity none d = d
or_severity (some s) d = s

abbrev pub parsed : Option Str → Option LogSeverity
unfolding is_log_severity
parsed none = none
parsed (some s) = is_log_severity s

unfoldable pub log_severities : LogCfg → List LogSeverity
unfolding known_severities at_least is_log_severity
log_severities cfg = elim cfg.severities [
  | some configured ↦ known_severities configured
  | none ↦ at_least (or_severity (parsed cfg.minimum_severity) error) all_severities
]

-- `.includes(severity)`; two severities are the same where their ranks are.
unfoldable pub includes : List LogSeverity → LogSeverity → Bool
unfolding log_severity_rank
includes [] s = false
includes (x ∷ xs) s = (log_severity_rank x == log_severity_rank s) || includes xs s

-- What `JSON.stringify` did with a value.
pub data Json : Type 0 where
  text : Str → Json
  undefined threw : Json

-- A console argument, as far as the code looks at it. `other` is any other value: the outcome of
-- `JSON.stringify`, and what `String(value)` gives.
pub data ConsoleValue : Type 0 where
  string : Str → ConsoleValue
  failure : Str → Str → ConsoleValue
  element : Str → ConsoleValue
  undefined_value null_value : ConsoleValue
  other : Json → Str → ConsoleValue

abbrev lower : ℕ → ℕ
lower c = if leb b'A' c && leb c b'Z' then c + 32 else c

unfoldable pub format_console_value : ConsoleValue → Str
format_console_value (string s) = s
format_console_value (failure name message) = name ++ (codes ": " ++ message)
format_console_value (element tag) = codes "[Element " ++ (map lower tag ++ codes "]")
format_console_value undefined_value = codes "undefined"
format_console_value null_value = codes "null"
format_console_value (other (text s) str) = s
format_console_value (other undefined str) = str
format_console_value (other threw str) = str

-- `args.map(formatConsoleValue).join(' ')`.
unfoldable pub join_args : List ConsoleValue → Str
unfolding format_console_value
join_args [] = []
join_args (v ∷ []) = format_console_value v
join_args (v ∷ w ∷ vs) = format_console_value v ++ (b' ' ∷ join_args (w ∷ vs))

pub record PendingLog : Type 0 where
  pub client_seq : ℕ
  pub timestamp_ms : ℕ
  pub severity : LogSeverity
  pub message : Str
  pub url : Str

abbrev pub max_buffer_logs : ℕ
max_buffer_logs = 100

abbrev pub max_message : ℕ
max_message = 8192

abbrev pub max_url : ℕ
max_url = 2048

-- Keep the newest `cap` entries: `splice(0, length - cap)` where the length is over the cap.
unfoldable pub keep_newest {ℓ} : {A : Type ℓ} → ℕ → List A → List A
keep_newest cap xs = if ltb cap (length xs) then drop (length xs - cap) xs else xs

unfoldable pub pending_log : ℕ → ℕ → LogSeverity → List ConsoleValue → Str → PendingLog
unfolding join_args
pending_log client_seq now severity args href = record {
  client_seq = client_seq;
  timestamp_ms = now;
  severity = severity;
  message = take max_message (join_args args);
  url = take max_url href;
}
