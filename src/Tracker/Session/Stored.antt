-- ===== src/Tracker/Session/Stored.antt =====
-- What tracker/src/main.ts keeps in the session storage, so that the next page load goes on with
-- the visit: the storage names the running visit, and its counters are not behind.
use trace_ux.Base.{
  ℕ, ◌≤◌, ◌≡◌, inl, inr, Bool, true, false, some, List, [], ◌∷◌, arith, Str, Option-cases,
}
use trace_ux.Tracker.Config.{Config, LogSeverity}
use trace_ux.Tracker.Logs.{ConsoleValue, is_log_severity}
use trace_ux.Tracker.Message.{Identity}
use trace_ux.Tracker.State.{Tracker, Store, Env, send}
use trace_ux.Tracker.Session.Record.{
  emit, store_event, capture_log, log_call, resync_fired, send_custom, flush, flush_logs, send_ping,
  send_hello, track_page, start_recording, start_log_tracking, call_stop_recording,
  call_restore_console,
}
use trace_ux.Tracker.Session.Visit.{
  on_wake, flush_tick, heartbeat, count_active, on_page_hide, on_visibility_change, hide_elapsed,
  on_url_maybe_changed, on_resize, resize_elapsed, apply_identity, on_tracked_click,
  set_user_status, claim_replay, shutdown, end_session, new_session, open_visit, reset_visit,
  wake_on_interaction, disarm_wake, ship, ship_open,
}
use trace_ux.Tracker.Session.Start.{initial, load, bootstrap, start}
use trace_ux.Tracker.Session.Run.{
  Event, recorded, resync, console, log, flush_timer, heartbeat_timer, page_hide, visibility,
  hide_timer, wake, url_changed, resized, resize_timer, clicked, track, user_status, identify,
  claim, stop, step, run,
}

-- With a storage that takes writes. The stored `seq` may be ahead: a new visit starts at 0 and
-- stores its `seq` with its first batch.
pub record Stored (t : Tracker) : Type 0 where
  pub writable : t.store.writable ≡ true
  pub same_visit : t.store.sid ≡ t.session_id
  pub seq_reached : t.seq ≤ t.store.seq
  pub same_log_seq : t.store.log_seq ≡ t.log_seq
  pub same_page : t.store.page_count ≡ t.page_count

flush-Stored : (b : Bool) (t : Tracker) → Stored t → Stored (flush b t)
unfolding flush send
flush-Stored b t v = ground arith

flush_logs-Stored : (b : Bool) (t : Tracker) → Stored t → Stored (flush_logs b t)
unfolding flush_logs send
flush_logs-Stored b t v = ground arith

ship-Stored : (b : Bool) (t : Tracker) → Stored t → Stored (ship b t)
unfolding ship flush flush_logs send_ping send
ship-Stored b t v = ground arith

end_session-Stored : (t : Tracker) → Stored t → Stored (end_session t)
unfolding end_session ship flush flush_logs send_ping send call_stop_recording call_restore_console
    wake_on_interaction
end_session-Stored t v = ground arith

reset_visit-Stored : (env : Env) (t : Tracker) → Stored t → Stored (reset_visit env t)
unfolding reset_visit
reset_visit-Stored env t v = ground (arith, v.writable)

start_recording-Stored : (env : Env) (t : Tracker) → Stored t → Stored (start_recording env t)
unfolding start_recording
start_recording-Stored env t v = ground arith

start_log_tracking-Stored : (env : Env) (t : Tracker) → Stored t → Stored (start_log_tracking env t)
unfolding start_log_tracking
start_log_tracking-Stored env t v = ground arith

greet-Stored : (env : Env) (t : Tracker) → Stored t → Stored (track_page env (send_hello env t))
unfolding track_page send_hello send
greet-Stored env t v = ground arith

open_visit-Stored : (env : Env) (t : Tracker) → Stored t → Stored (open_visit env t)
unfolding open_visit
open_visit-Stored env t v =
    let w : Stored (disarm_wake (record t { stopped = false })) =
      unfold disarm_wake in ground arith in
    greet-Stored env _
      (start_log_tracking-Stored env _ (start_recording-Stored env _ (reset_visit-Stored env _ w)))

new_session-Stored : (b : Bool) (env : Env) (t : Tracker) → Stored t → Stored (new_session b env t)
unfolding new_session
new_session-Stored b env t v =
    ground
      (arith, ship-Stored true t v, open_visit-Stored env (ship true t), open_visit-Stored env t v)

heartbeat-Stored :
    (visible : Bool) (env : Env) (t : Tracker) → Stored t → Stored (heartbeat visible env t)
unfolding heartbeat count_active send_ping send
heartbeat-Stored visible env t v =
    ground (arith, end_session-Stored t v, new_session-Stored true env t v)

ship_open-Stored : (t : Tracker) → Stored t → Stored (ship_open t)
unfolding ship_open flush flush_logs send_ping send
ship_open-Stored t v = ground arith

on_visibility_change-Stored :
    (visible : Bool) (env : Env) (t : Tracker)
    → Stored t
    → Stored (on_visibility_change visible env t)
unfolding on_visibility_change
on_visibility_change-Stored visible env t v =
    ground
      (arith, ship_open-Stored t v, new_session-Stored false env (record t { hide_timer = false }))

shutdown-Stored : (t : Tracker) → Stored t → Stored (shutdown t)
unfolding shutdown disarm_wake call_restore_console call_stop_recording flush flush_logs send
shutdown-Stored t v = ground (arith, end_session-Stored t v)

capture_log-Stored :
    (env : Env) (s : LogSeverity) (args : List ConsoleValue) (t : Tracker)
    → Stored t
    → Stored (capture_log env s args t)
unfolding capture_log
capture_log-Stored env s args t v = ground arith

log_call-Stored :
    (env : Env) (name : Str) (args : List ConsoleValue) (t : Tracker)
    → Stored t
    → Stored (log_call env name args t)
unfolding log_call
log_call-Stored env name args t v = elim (Option-cases (is_log_severity name)) [
  | inl e ↦ rw (e, log_call) v
  | inr (s, e) ↦ rw (e, log_call) (capture_log-Stored env s args t v)
]

pub step-Stored : (env : Env) (e : Event) (t : Tracker) → Stored t → Stored (step env e t)
unfolding step
step-Stored env (recorded e) t v = unfold emit store_event in ground arith
step-Stored env resync t v = unfold resync_fired in ground arith
step-Stored env (console m args) t v = capture_log-Stored env _ args t v
step-Stored env (log name args) t v = log_call-Stored env name args t v
step-Stored env flush_timer t v = unfold flush_tick flush flush_logs send in ground arith
step-Stored env (heartbeat_timer visible) t v = heartbeat-Stored visible env t v
step-Stored env page_hide t v = unfold on_page_hide in ground (arith, ship_open-Stored t v)
step-Stored env (visibility visible) t v = on_visibility_change-Stored visible env t v
step-Stored env hide_timer t v =
    unfold hide_elapsed in ground (arith, end_session-Stored (record t { hide_timer = false }))
step-Stored env wake t v =
    unfold on_wake disarm_wake in
    ground (arith, new_session-Stored false env (record t { wake_armed = false }))
step-Stored env url_changed t v = unfold on_url_maybe_changed track_page send in ground arith
step-Stored env resized t v = unfold on_resize in ground arith
step-Stored env resize_timer t v = unfold resize_elapsed send_hello send in ground arith
step-Stored env (clicked i n) t v = unfold on_tracked_click send_custom send in ground arith
step-Stored env (track n i y d) t v = unfold send_custom send in ground arith
step-Stored env (user_status s) t v = unfold set_user_status send_custom send in ground arith
step-Stored env (identify f) t v = unfold apply_identity send_hello send in ground arith
step-Stored env claim t v = unfold claim_replay flush send_ping send in ground arith
step-Stored env stop t v = shutdown-Stored t v

pub run-Stored : (es : List (Env × Event)) (t : Tracker) → Stored t → Stored (run es t)
unfolding run
run-Stored [] t v = v
run-Stored ((env, e) ∷ es) t v = run-Stored es (step env e t) (step-Stored env e t v)

bootstrap-Stored :
    (env : Env) (t : Tracker)
    → t.store.writable ≡ true
    → t.seq ≤ t.store.seq
    → Stored (bootstrap env t)
unfolding bootstrap send_hello send start_recording start_log_tracking track_page
bootstrap-Stored env t w s = ground arith

load-Stored :
    (cfg : Config) (i : Identity) (s : Store) (env : Env) {t : Tracker}
    → s.writable ≡ true
    → load cfg i s env ≡ some t
    → (t.store.writable ≡ true) × (t.seq ≤ t.store.seq)
unfolding load initial
load-Stored cfg i s env w h = ground arith

pub start-Stored :
    (cfg : Config) (random : ℕ) (failed : Bool) (i : Identity) (s : Store) (env : Env) {t : Tracker}
    → s.writable ≡ true
    → start cfg random failed i s env ≡ some t
    → Stored t
unfolding start
start-Stored cfg random failed i s env w h = elim (Option-cases (load cfg i s env)) [
  | inl e ↦ ground (arith, e)
  | inr (t, e) ↦
      let v = load-Stored cfg i s env w e in ground (arith, e, bootstrap-Stored env t v.0 v.1)
]

-- Where the storage takes writes, at every moment of a page load the storage names the running
-- visit and its log and page counters, and the stored `seq` is at least the number of the batch that
-- is sent next.
pub start-run-Stored :
    (cfg : Config) (random : ℕ) (failed : Bool) (i : Identity) (s : Store) (env : Env)
    (es : List (Env × Event)) {t : Tracker}
    → s.writable ≡ true
    → start cfg random failed i s env ≡ some t
    → Stored (run es t)
start-run-Stored cfg random failed i s env es {t} w h =
    run-Stored es t (start-Stored cfg random failed i s env w h)
