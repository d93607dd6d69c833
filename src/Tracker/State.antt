-- ===== src/Tracker/State.antt =====
-- The variables of `start` in tracker/src/main.ts that the visit's life cycle reads and writes,
-- and the environment that a handler sees when it runs.
--
-- `page_count` is the source's pageIdx + 1, which starts at 0. The storage keys hold decimal
-- numbers; a missing one reads as 0 here, as it does there (-1 for the page index). `sent` lists
-- the calls of `send`, the newest first. Of the recorder only the calls are kept: each successful
-- `record(…)` gives its stop function a number, and `open_recorders` holds those not yet called.
-- `console_patched` lists the methods that restoreConsole will put back; it is empty where
-- restoreConsole is undefined.
use trace_ux.Base.{ℕ, Bool, Option, List, [], ◌∷◌, ◌==◌, Str, if◌then◌else◌}
use trace_ux.Tracker.Config.{Config}
use trace_ux.Tracker.Logs.{PendingLog}
use trace_ux.Tracker.Message.{RrwebEvent, Identity, Page, Message, Sent}

pub data ConsoleMethod : Type 0 where
  console_debug console_info console_log console_warn console_error : ConsoleMethod

-- The session storage. A `set` that throws (a full quota, a private window) is swallowed.
pub record Store : Type 0 where
  pub writable : Bool
  pub sid : Str
  pub sid_ts : ℕ
  pub seq : ℕ
  pub log_seq : ℕ
  pub page_count : ℕ
  pub active : ℕ

pub record Tracker : Type 0 where
  pub cfg : Config
  pub store : Store
  pub session_id : Str
  pub seq : ℕ
  pub log_seq : ℕ
  pub page_count : ℕ
  pub active_ms : ℕ
  pub started_at : ℕ
  pub stopped : Bool
  pub disposed : Bool
  pub skipping_idle : Bool
  pub resync_queued : Bool
  pub stop_recording : Option ℕ
  pub open_recorders : List ℕ
  pub next_recorder : ℕ
  pub buffer : List RrwebEvent
  pub log_buffer : List PendingLog
  pub last_tick : ℕ
  pub last_event_at : ℕ
  pub wake_armed : Bool
  pub console_patched : List ConsoleMethod
  pub hide_timer : Bool
  pub resize_timer : Bool
  pub last_sent_viewport : ℕ × ℕ
  pub last_tracked_url : Str
  pub identity : Identity
  pub sent : List Sent

-- How a call of rrweb's `record` ends.
pub data RecordOutcome : Type 0 where
  gives_stop gives_nothing throws : RecordOutcome

-- What the browser answers while a handler runs: the clock, the next identifier (empty without a
-- random source), the outcome of `record`, and which console methods can be replaced.
pub record Env : Type 0 where
  pub now : ℕ
  pub new_id : Str
  pub record_outcome : RecordOutcome
  pub replaceable : ConsoleMethod → Bool
  pub page : Page

-- `store.set(key, value)`.
abbrev pub set_sid : Str → Store → Store
set_sid v s = if s.writable then record s { sid = v } else s

abbrev pub set_sid_ts : ℕ → Store → Store
set_sid_ts v s = if s.writable then record s { sid_ts = v } else s

abbrev pub set_seq : ℕ → Store → Store
set_seq v s = if s.writable then record s { seq = v } else s

abbrev pub set_log_seq : ℕ → Store → Store
set_log_seq v s = if s.writable then record s { log_seq = v } else s

abbrev pub set_page_count : ℕ → Store → Store
set_page_count v s = if s.writable then record s { page_count = v } else s

abbrev pub set_active : ℕ → Store → Store
set_active v s = if s.writable then record s { active = v } else s

unfoldable pub send : Message → Bool → Tracker → Tracker
send m beacon t = record t { sent = record { message = m; beacon = beacon } ∷ t.sent }

-- `stop()` of one recorder: its number leaves the open ones.
unfoldable pub remove_recorder : ℕ → List ℕ → List ℕ
remove_recorder r [] = []
remove_recorder r (x ∷ xs) = if x == r then remove_recorder r xs else x ∷ remove_recorder r xs
