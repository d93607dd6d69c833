-- ===== src/Tracker/Config.antt =====
-- The configuration of a site, and how the tracker gets it (tracker/src/main.ts, fetchConfig).
-- The request itself is the browser's: what each attempt came back with is an argument.
pub mod Fetch
use Prim.Native.Char.{code}
use Prim.Native.String.{String}
use trace_ux.Base.{
  ℕ, suc, ◌+◌, ◌*◌, Bool, true, false, Option, none, some, List, [], ◌∷◌, Str, leb, if◌then◌else◌,
}

-- The code units of a text constant.
abbrev pub codes : String → Str
codes String.[] = []
codes (String.◌∷◌ c s) = code c ∷ codes s

pub data LogSeverity : Type 0 where
  debug info warn error : LogSeverity

unfoldable pub log_severity_rank : LogSeverity → ℕ
log_severity_rank debug = 0
log_severity_rank info = 1
log_severity_rank warn = 2
log_severity_rank error = 3

pub record LogCfg : Type 0 where
  pub enabled : Bool
  pub severities : Option (List Str)
  pub minimum_severity : Option Str

-- `sample_rate` counts parts of `sample_unit`.
pub record Config : Type 0 where
  pub sample_rate : ℕ
  pub checkout_interval_ms : ℕ
  pub inline_stylesheet : Bool
  pub slim_dom : Bool
  pub mask_inputs : Bool
  pub flush_interval_ms : ℕ
  pub recording_enabled : Bool
  pub logs : LogCfg

abbrev pub sample_unit : ℕ
sample_unit = 1_000_000

unfoldable pub defaults : Config
defaults = record {
  sample_rate = sample_unit;
  checkout_interval_ms = 30_000;
  inline_stylesheet = true;
  slim_dom = true;
  mask_inputs = true;
  flush_interval_ms = 5_000;
  recording_enabled = true;
  logs = record { enabled = false; severities = none; minimum_severity = some (codes "error") };
}

-- What the server sent: every field may be missing.
pub record RemoteLogs : Type 0 where
  pub enabled : Option Bool
  pub severities : Option (List Str)
  pub minimum_severity : Option Str

pub record Remote : Type 0 where
  pub sample_rate : Option ℕ
  pub checkout_interval_ms : Option ℕ
  pub inline_stylesheet : Option Bool
  pub slim_dom : Option Bool
  pub mask_inputs : Option Bool
  pub flush_interval_ms : Option ℕ
  pub recording_enabled : Option Bool
  pub logs : Option RemoteLogs

-- A field of `{...base, ...over}`.
abbrev pub over {ℓ} : {A : Type ℓ} → Option A → A → A
over none d = d
over (some a) d = a

abbrev pub over_option {ℓ} : {A : Type ℓ} → Option A → Option A → Option A
over_option none d = d
over_option (some a) d = some a

abbrev pub merge_logs : Option RemoteLogs → LogCfg → LogCfg
merge_logs none d = d
merge_logs (some r) d = record {
  enabled = over r.enabled d.enabled;
  severities = over_option r.severities d.severities;
  minimum_severity = over_option r.minimum_severity d.minimum_severity;
}

-- `{ ...DEFAULTS, ...remote, logs: { ...DEFAULTS.logs, ...(remote.logs || {}) } }`.
unfoldable pub merge : Remote → Config
unfolding defaults
merge r = record {
  sample_rate = over r.sample_rate defaults.sample_rate;
  checkout_interval_ms = over r.checkout_interval_ms defaults.checkout_interval_ms;
  inline_stylesheet = over r.inline_stylesheet defaults.inline_stylesheet;
  slim_dom = over r.slim_dom defaults.slim_dom;
  mask_inputs = over r.mask_inputs defaults.mask_inputs;
  flush_interval_ms = over r.flush_interval_ms defaults.flush_interval_ms;
  recording_enabled = over r.recording_enabled defaults.recording_enabled;
  logs = merge_logs r.logs defaults.logs;
}

-- What one request came back with: a status and the parsed body (`none` where the body is not
-- JSON), or no answer within the attempt's time.
pub data Answer : Type 0 where
  replied : ℕ → Option Remote → Answer
  no_reply : Answer

-- The `try` block of one attempt; `none` is its `catch`.
unfoldable pub accept : Answer → Option Config
unfolding merge
accept no_reply = none
accept (replied status none) = none
accept (replied status (some r)) = if leb 500 status then none else some (merge r)

abbrev pub attempt_timeouts_ms : List ℕ
attempt_timeouts_ms = 3000 ∷ 5000 ∷ 8000 ∷ []

-- The loop over the attempts that are left, from number `attempt` on. `answers` tells how each
-- attempt ends and after how many milliseconds (at most its timeout, where the request is aborted).
-- The result is the configuration, the number of requests and the time spent.
unfoldable pub fetch_from : List ℕ → ℕ → (ℕ → Answer × ℕ) → ℕ → ℕ → Config × ℕ × ℕ
unfolding accept defaults
fetch_from [] attempt answers requests ms = (defaults, requests, ms)
fetch_from (timeout ∷ []) attempt answers requests ms = elim (accept (answers attempt).0) [
  | some cfg ↦ (cfg, suc requests, ms + (answers attempt).1)
  | none ↦ (defaults, suc requests, ms + (answers attempt).1)
]
fetch_from (timeout ∷ next ∷ rest) attempt answers requests ms = elim (accept (answers attempt).0) [
  | some cfg ↦ (cfg, suc requests, ms + (answers attempt).1)
  | none ↦
      fetch_from (next ∷ rest) (suc attempt) answers (suc requests)
        (ms + (answers attempt).1 + 400 * (attempt + 1))
]

unfoldable pub fetch_config : (ℕ → Answer × ℕ) → Config × ℕ × ℕ
unfolding fetch_from
fetch_config answers = fetch_from attempt_timeouts_ms 0 answers 0 0
