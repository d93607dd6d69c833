-- ===== src/Tracker/Session/Bounds.antt =====
-- The buffers of tracker/src/main.ts stay within their caps, and the flags of a tracker agree.
use trace_ux.Base.{
  ℕ, ◌-◌, ◌≤◌, ◌≡◌, Bool, true, false, List, [], arith, length, length-drop, Str, inl, inr,
  Option-cases,
}
use trace_ux.Tracker.Config.{LogSeverity}
use trace_ux.Tracker.Logs.{ConsoleValue, is_log_severity, keep_newest, max_buffer_logs}
use trace_ux.Tracker.Message.{RrwebEvent}
use trace_ux.Tracker.State.{Tracker, Env, send}
use trace_ux.Tracker.Session.Record.{
  max_buffer_events, emit, capture_log, log_call, resync_fired, send_custom, flush, flush_logs,
  send_ping, send_hello, track_page, start_recording, call_stop_recording, start_log_tracking,
  call_restore_console,
}
use trace_ux.Tracker.Session.Visit.{
  on_wake, flush_tick, heartbeat, count_active, on_page_hide, on_visibility_change, hide_elapsed,
  on_url_maybe_changed, on_resize, resize_elapsed, apply_identity, on_tracked_click,
  set_user_status, claim_replay, shutdown, end_session, new_session, open_visit, reset_visit,
  wake_on_interaction, disarm_wake, ship, ship_open,
}
use trace_ux.Tracker.Session.Run.{
  Event, recorded, resync, console, log, flush_timer, heartbeat_timer, page_hide, visibility,
  hide_timer, wake, url_changed, resized, resize_timer, clicked, track, user_status, identify,
  claim, stop, step,
}

pub length-keep_newest {ℓ} :
    {A : Type ℓ} (cap : ℕ) (xs : List A) → length (keep_newest cap xs) ≤ cap
unfolding keep_newest
length-keep_newest cap xs = ground (arith, length-drop (length xs - cap) xs)

-- The caps of the buffers, and what the flags say of one another: the wake listeners stand only
-- while the visit is over, and after `stop` nothing is left that could start one.
pub record Inv (t : Tracker) : Type 0 where
  pub events_bounded : length t.buffer ≤ max_buffer_events
  pub logs_bounded : length t.log_buffer ≤ max_buffer_logs
  pub wake_stopped : t.wake_armed ≡ true → t.stopped ≡ true
  pub disposed_stopped : t.disposed ≡ true → t.stopped ≡ true
  pub disposed_asleep : t.disposed ≡ true → t.wake_armed ≡ false
  pub disposed_timers : t.disposed ≡ true → (t.hide_timer ≡ false) × (t.resize_timer ≡ false)
  pub disposed_console : t.disposed ≡ true → t.console_patched ≡ []

emit-Inv : (env : Env) (e : RrwebEvent) (t : Tracker) → Inv t → Inv (emit env e t)
unfolding emit
emit-Inv env e t b = grind (arith, length-keep_newest)

capture_log-Inv :
    (env : Env) (s : LogSeverity) (args : List ConsoleValue) (t : Tracker)
    → Inv t
    → Inv (capture_log env s args t)
unfolding capture_log
capture_log-Inv env s args t b = grind (arith, length-keep_newest)

log_call-Inv :
    (env : Env) (name : Str) (args : List ConsoleValue) (t : Tracker)
    → Inv t
    → Inv (log_call env name args t)
unfolding log_call
log_call-Inv env name args t v = elim (Option-cases (is_log_severity name)) [
  | inl e ↦ rw (e, log_call) v
  | inr (s, e) ↦ rw (e, log_call) (capture_log-Inv env s args t v)
]

-- What ships and closes touches no flag.
flush-Inv : (b : Bool) (t : Tracker) → Inv t → Inv (flush b t)
unfolding flush send
flush-Inv b t v = ground arith

flush_logs-Inv : (b : Bool) (t : Tracker) → Inv t → Inv (flush_logs b t)
unfolding flush_logs send
flush_logs-Inv b t v = ground arith

send_ping-Inv : (b : Bool) (t : Tracker) → Inv t → Inv (send_ping b t)
unfolding send_ping send
send_ping-Inv b t v = ground arith

ship-Inv : (b : Bool) (t : Tracker) → Inv t → Inv (ship b t)
unfolding ship
ship-Inv b t v = send_ping-Inv b _ (flush_logs-Inv b _ (flush-Inv b t v))

end_session-Inv : (t : Tracker) → Inv t → Inv (end_session t)
unfolding end_session ship flush flush_logs send_ping send call_stop_recording call_restore_console
    wake_on_interaction
end_session-Inv t v = ground arith

open_visit-Inv : (env : Env) (t : Tracker) → t.disposed ≡ false → Inv t → Inv (open_visit env t)
unfolding open_visit track_page send_hello send start_log_tracking start_recording reset_visit
    disarm_wake
open_visit-Inv env t d v = ground arith

ship_same :
    (b : Bool) (t : Tracker) → ((ship b t).disposed ≡ t.disposed) × ((ship b t).stopped ≡ t.stopped)
unfolding ship flush flush_logs send_ping send
ship_same b t = ground arith

new_session-Inv : (b : Bool) (env : Env) (t : Tracker) → Inv t → Inv (new_session b env t)
unfolding new_session
new_session-Inv b env t v = ground (
  arith,
  ship-Inv true t v,
  ship_same true t,
  open_visit-Inv env (ship true t),
  open_visit-Inv env t,
)

on_wake-Inv : (env : Env) (t : Tracker) → Inv t → Inv (on_wake env t)
unfolding on_wake disarm_wake
on_wake-Inv env t v = ground (arith, new_session-Inv false env (record t { wake_armed = false }))

flush_tick-Inv : (t : Tracker) → Inv t → Inv (flush_tick t)
unfolding flush_tick
flush_tick-Inv t v = ground (arith, flush_logs-Inv false (flush false t), flush-Inv false t)

count_active-Inv : (env : Env) (t : Tracker) → Inv t → Inv (count_active env t)
unfolding count_active send_ping send
count_active-Inv env t v = ground arith

heartbeat-Inv : (visible : Bool) (env : Env) (t : Tracker) → Inv t → Inv (heartbeat visible env t)
unfolding heartbeat
heartbeat-Inv visible env t v =
    ground (arith, end_session-Inv t v, new_session-Inv true env t v, count_active-Inv env t v)

ship_open-Inv : (t : Tracker) → Inv t → Inv (ship_open t)
unfolding ship_open flush flush_logs send_ping send
ship_open-Inv t v = ground arith

ship_open_same :
    (t : Tracker) → ((ship_open t).disposed ≡ t.disposed) × ((ship_open t).stopped ≡ t.stopped)
unfolding ship_open flush flush_logs send_ping send
ship_open_same t = ground arith

hide_timer-Inv :
    (b : Bool) (t : Tracker) → t.disposed ≡ false → Inv t → Inv (record t { hide_timer = b })
hide_timer-Inv b t d v = ground arith

on_visibility_change-Inv :
    (visible : Bool) (env : Env) (t : Tracker) → Inv t → Inv (on_visibility_change visible env t)
unfolding on_visibility_change
on_visibility_change-Inv visible env t v = ground (
  arith,
  ship_open-Inv t v,
  ship_open_same t,
  hide_timer-Inv true (ship_open t),
  hide_timer-Inv false t,
  new_session-Inv false env (record t { hide_timer = false }),
)

hide_elapsed-Inv : (t : Tracker) → Inv t → Inv (hide_elapsed t)
unfolding hide_elapsed
hide_elapsed-Inv t v = ground (arith, end_session-Inv (record t { hide_timer = false }))

end_session_flags :
    (t : Tracker)
    → ((end_session t).disposed ≡ t.disposed)
      × (t.disposed ≡ false → (end_session t).stopped ≡ true)
      × (t.stopped ≡ false → t.disposed ≡ false → (end_session t).console_patched ≡ [])
unfolding end_session ship flush flush_logs send_ping send call_stop_recording call_restore_console
    wake_on_interaction
end_session_flags t = ground arith

closed-Inv :
    (t : Tracker)
    → t.stopped ≡ true
    → t.console_patched ≡ []
    → Inv t
    → Inv
        (record t { disposed = true; hide_timer = false; resize_timer = false; wake_armed = false })
closed-Inv t s c v = ground arith

close_stopped-Inv :
    (t : Tracker)
    → t.stopped ≡ true
    → Inv t
    → let t' = call_restore_console (call_stop_recording (flush_logs true (flush true t))) in
      Inv t' × (t'.stopped ≡ true) × (t'.console_patched ≡ [])
unfolding flush flush_logs send call_stop_recording call_restore_console
close_stopped-Inv t s v = ground arith

shutdown-Inv : (t : Tracker) → Inv t → Inv (shutdown t)
unfolding shutdown disarm_wake
shutdown-Inv t v = ground (
  arith,
  end_session-Inv t v,
  end_session_flags t,
  closed-Inv (end_session t),
  close_stopped-Inv t,
  closed-Inv (call_restore_console (call_stop_recording (flush_logs true (flush true t)))),
)

-- Every event, whatever the browser answers, keeps the invariant.
pub step-Inv : (env : Env) (e : Event) (t : Tracker) → Inv t → Inv (step env e t)
unfolding step
step-Inv env (recorded e) t v = emit-Inv env e t v
step-Inv env resync t v = unfold resync_fired in ground arith
step-Inv env (console m args) t v = capture_log-Inv env _ args t v
step-Inv env (log name args) t v = log_call-Inv env name args t v
step-Inv env flush_timer t v = flush_tick-Inv t v
step-Inv env (heartbeat_timer visible) t v = heartbeat-Inv visible env t v
step-Inv env page_hide t v = unfold on_page_hide in ground (arith, ship_open-Inv t v)
step-Inv env (visibility visible) t v = on_visibility_change-Inv visible env t v
step-Inv env hide_timer t v = hide_elapsed-Inv t v
step-Inv env wake t v = on_wake-Inv env t v
step-Inv env url_changed t v = unfold on_url_maybe_changed track_page send in ground arith
step-Inv env resized t v = unfold on_resize in ground arith
step-Inv env resize_timer t v = unfold resize_elapsed send_hello send in ground arith
step-Inv env (clicked i n) t v = unfold on_tracked_click send_custom send in ground arith
step-Inv env (track n i y d) t v = unfold send_custom send in ground arith
step-Inv env (user_status s) t v = unfold set_user_status send_custom send in ground arith
step-Inv env (identify f) t v = unfold apply_identity send_hello send in ground arith
step-Inv env claim t v = unfold claim_replay flush send_ping send in ground arith
step-Inv env stop t v = shutdown-Inv t v
