-- ===== src/Tracker/Session/Record.antt =====
-- Recording and sending: isUserInteraction, emit, startRecording, flush, flushLogs, captureLog,
-- startLogTracking, ping, sendCustom, trackPage and sendHello of tracker/src/main.ts.
use trace_ux.Base.{
  ℕ, suc, ◌-◌, ◌/◌, Bool, true, false, not, ◌||◌, Option, none, some, List, [], ◌∷◌, Str, ltb, ◌==◌,
  if◌then◌else◌, take, push, is_empty,
}
use trace_ux.Tracker.Config.{LogSeverity, debug, info, warn, error, codes}
use trace_ux.Tracker.Logs.{
  ConsoleValue, is_log_severity, log_severities, includes, pending_log, keep_newest,
  max_buffer_logs,
}
use trace_ux.Tracker.Message.{RrwebEvent, events, logs, ping, custom, page, hello}
use trace_ux.Tracker.State.{
  Tracker, Env, ConsoleMethod, console_debug, console_info, console_log, console_warn,
  console_error, gives_stop, gives_nothing, throws, set_seq, set_log_seq, set_page_count, send,
  remove_recorder,
}

abbrev pub idle_record_grace_ms : ℕ
idle_record_grace_ms = 60_000

abbrev pub max_buffer_events : ℕ
max_buffer_events = 5_000

unfoldable pub interaction_sources : List ℕ
interaction_sources = 1 ∷ 2 ∷ 3 ∷ 4 ∷ 5 ∷ 6 ∷ 7 ∷ 12 ∷ 14 ∷ []

unfoldable pub has : List ℕ → ℕ → Bool
has [] n = false
has (x ∷ xs) n = (x == n) || has xs n

abbrev has_source : Option ℕ → Bool
unfolding interaction_sources has
has_source none = false
has_source (some s) = has interaction_sources s

unfoldable pub is_user_interaction : RrwebEvent → Bool
unfolding interaction_sources has
is_user_interaction e = if not (e.kind == 3) then false else has_source e.source

-- The end of `emit`: store the event, and keep the newest where the buffer is over its cap.
unfoldable pub store_event : RrwebEvent → Tracker → Tracker
store_event e t = record t { buffer = keep_newest max_buffer_events (push t.buffer e) }

-- `emit`, without the time-out that takes the full snapshot.
unfoldable pub emit : Env → RrwebEvent → Tracker → Tracker
unfolding store_event
emit env e t =
    if is_user_interaction e
    then store_event e (record t {
      last_event_at = env.now;
      resync_queued = t.resync_queued || t.skipping_idle;
      skipping_idle = false;
    })
    else if ltb idle_record_grace_ms (env.now - t.last_event_at)
    then record t { skipping_idle = true }
    else store_event e t

-- The time-out of `emit`; the snapshot itself comes as further events.
unfoldable pub resync_fired : Tracker → Tracker
resync_fired t = record t { resync_queued = false }

unfoldable pub start_recording : Env → Tracker → Tracker
start_recording env t = if not t.cfg.recording_enabled then t else elim env.record_outcome [
  | gives_stop ↦ record t {
    stop_recording = some t.next_recorder;
    open_recorders = t.next_recorder ∷ t.open_recorders;
    next_recorder = suc t.next_recorder;
  }
  | gives_nothing ↦ record t { stop_recording = none }
  | throws ↦ t
]

-- `stopRecording?.()`.
unfoldable pub call_stop_recording : Tracker → Tracker
unfolding remove_recorder
call_stop_recording t = elim t.stop_recording [
  | none ↦ t
  | some r ↦ record t { open_recorders = remove_recorder r t.open_recorders }
]

unfoldable pub flush : Bool → Tracker → Tracker
unfolding send
flush use_beacon t =
    if is_empty t.buffer
    then t
    else send (events t.session_id t.seq t.buffer) use_beacon
        (record t { buffer = []; seq = suc t.seq; store = set_seq (suc t.seq) t.store })

unfoldable pub flush_logs : Bool → Tracker → Tracker
unfolding send
flush_logs use_beacon t =
    if is_empty t.log_buffer
    then t
    else send (logs t.session_id t.log_buffer) use_beacon (record t { log_buffer = [] })

unfoldable pub capture_log : Env → LogSeverity → List ConsoleValue → Tracker → Tracker
capture_log env severity args t =
    if t.stopped || not t.cfg.recording_enabled || not t.cfg.logs.enabled
    then t
    else if not (includes (log_severities t.cfg.logs) severity)
    then t
    else record t {
      log_seq = suc t.log_seq;
      store = set_log_seq (suc t.log_seq) t.store;
      log_buffer =
          keep_newest max_buffer_logs
            (push t.log_buffer (pending_log (suc t.log_seq) env.now severity args env.page.href));
    }

-- `log(severity, …)` of the handle: an unknown severity is ignored.
unfoldable pub log_call : Env → Str → List ConsoleValue → Tracker → Tracker
unfolding capture_log
log_call env name args t = elim (is_log_severity name) [
  | none ↦ t
  | some severity ↦ capture_log env severity args t
]

abbrev pub console_methods : List ConsoleMethod
console_methods = console_debug ∷ console_info ∷ console_log ∷ console_warn ∷ console_error ∷ []

abbrev pub method_severity : ConsoleMethod → LogSeverity
method_severity console_debug = debug
method_severity console_info = info
method_severity console_log = info
method_severity console_warn = warn
method_severity console_error = error

unfoldable pub patched : (ConsoleMethod → Bool) → List ConsoleMethod → List ConsoleMethod
patched ok [] = []
patched ok (m ∷ ms) = if ok m then m ∷ patched ok ms else patched ok ms

unfoldable pub start_log_tracking : Env → Tracker → Tracker
unfolding patched
start_log_tracking env t =
    if not t.cfg.recording_enabled || not t.cfg.logs.enabled || not (is_empty t.console_patched)
    then t
    else record t { console_patched = patched env.replaceable console_methods }

-- `restoreConsole?.()`.
unfoldable pub call_restore_console : Tracker → Tracker
call_restore_console t = record t { console_patched = [] }

unfoldable pub send_ping : Bool → Tracker → Tracker
unfolding send
send_ping use_beacon t = send (ping t.session_id t.active_ms t.page_count) use_beacon t

abbrev or_default : Str → Str → Str
or_default [] d = d
or_default (c ∷ cs) d = c ∷ cs

unfoldable pub send_custom : Env → Str → Str → Bool → Option Str → Tracker → Tracker
unfolding send
send_custom env name track_id notify details t =
    if t.stopped || t.disposed
    then t
    else send
        (custom t.session_id (record {
          ts = env.now;
          name = take 100 (or_default name (codes "event"));
          track_id = take 100 track_id;
          notify = notify;
          details = details;
        }))
        false t

unfoldable pub track_page : Env → Tracker → Tracker
unfolding send
track_page env t =
    send (page t.session_id t.page_count env.page.href env.page.title (env.now / 1000)) false
      (record t {
        page_count = suc t.page_count;
        store = set_page_count (suc t.page_count) t.store;
      })

unfoldable pub send_hello : Env → Tracker → Tracker
unfolding send
send_hello env t = send (hello t.session_id env.page t.identity) false t
