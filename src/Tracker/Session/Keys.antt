-- ===== src/Tracker/Session/Keys.antt =====
-- The server stores a batch of recorded events under its session and its `seq`
-- (tracker/src/main.ts, flush). This file says what each event does to the keys of the batches sent.
use trace_ux.Base.{
  ℕ, suc, ◌≡◌, refl, ◌⊎◌, inl, inr, Bool, true, false, List, [], ◌∷◌, arith, Str, Option-cases,
}
use trace_ux.Tracker.Config.{LogSeverity}
use trace_ux.Tracker.Logs.{ConsoleValue, is_log_severity}
use trace_ux.Tracker.Message.{
  RrwebEvent, Message, events, logs, ping, custom, feedback, page, hello, Sent,
}
use trace_ux.Tracker.State.{Tracker, Env, send}
use trace_ux.Tracker.Session.Record.{
  emit, store_event, capture_log, log_call, resync_fired, send_custom, flush, flush_logs, send_ping,
  send_hello, track_page, start_recording, start_log_tracking, call_stop_recording,
  call_restore_console,
}
use trace_ux.Tracker.Session.Visit.{
  on_wake, flush_tick, heartbeat, count_active, on_page_hide, on_visibility_change, hide_elapsed,
  on_url_maybe_changed, on_resize, resize_elapsed, apply_identity, on_tracked_click,
  set_user_status, claim_replay, shutdown, end_session, new_session, open_visit, reset_visit,
  wake_on_interaction, disarm_wake, ship, ship_open,
}
use trace_ux.Tracker.Session.Run.{
  Event, recorded, resync, console, log, flush_timer, heartbeat_timer, page_hide, visibility,
  hide_timer, wake, url_changed, resized, resize_timer, clicked, track, user_status, identify,
  claim, stop, step,
}

abbrev pub Key : Type 0
Key = Str × ℕ

abbrev pub with_key : Message → List Key → List Key
with_key (events sid n es) ks = (sid, n) ∷ ks
with_key (logs sid ls) ks = ks
with_key (ping sid d p) ks = ks
with_key (custom sid e) ks = ks
with_key (feedback sid f) ks = ks
with_key (page sid i u t e) ks = ks
with_key (hello sid p i) ks = ks

-- The keys of the batches among the messages sent, on top of those of earlier page loads.
abbrev pub event_keys : List Key → List Sent → List Key
event_keys old [] = old
event_keys old (s ∷ ss) = with_key s.message (event_keys old ss)

-- What of a tracker the keys depend on.
pub record View : Type 0 where
  pub sid : Str
  pub seq : ℕ
  pub keys : List Key

abbrev pub flushed : View → View
flushed v = record { sid = v.sid; seq = suc v.seq; keys = (v.sid, v.seq) ∷ v.keys }

abbrev pub renewed : Str → View → View
renewed id v = record { sid = id; seq = 0; keys = v.keys }

-- What one event may do to them.
pub data Moves (id : Str) (v w : View) : Type 0 where
  stay : w ≡ v → Moves id v w
  flush_once : w ≡ flushed v → Moves id v w
  renew : w ≡ renewed id v → Moves id v w
  flush_renew : w ≡ renewed id (flushed v) → Moves id v w

-- `old` holds the keys of the page loads before.
module _ (old : List Key) where
  abbrev pub view : Tracker → View
  view t = record { sid = t.session_id; seq = t.seq; keys = event_keys old t.sent }

  flush-view :
      (b : Bool) (t : Tracker) → (view (flush b t) ≡ view t) ⊎ (view (flush b t) ≡ flushed (view t))
  unfolding flush send
  flush-view b t = ground arith

  flush_logs-view : (b : Bool) (t : Tracker) → view (flush_logs b t) ≡ view t
  unfolding flush_logs send
  flush_logs-view b t = ground arith

  send_ping-view : (b : Bool) (t : Tracker) → view (send_ping b t) ≡ view t
  unfolding send_ping send
  send_ping-view b t = refl

  end_session-view :
      (t : Tracker) → (view (end_session t) ≡ view t) ⊎ (view (end_session t) ≡ flushed (view t))
  unfolding end_session ship flush flush_logs send_ping send call_stop_recording
      call_restore_console wake_on_interaction
  end_session-view t = ground arith

  open_visit-view :
      (env : Env) (t : Tracker) → view (open_visit env t) ≡ renewed env.new_id (view t)
  unfolding open_visit track_page send_hello send start_log_tracking start_recording reset_visit
      disarm_wake
  open_visit-view env t = ground arith

  ship-view :
      (b : Bool) (t : Tracker) → (view (ship b t) ≡ view t) ⊎ (view (ship b t) ≡ flushed (view t))
  unfolding ship flush flush_logs send_ping send
  ship-view b t = ground arith

  new_session-Moves :
      (b : Bool) (env : Env) (t : Tracker) → Moves env.new_id (view t) (view (new_session b env t))
  unfolding new_session
  new_session-Moves b env t = grind (
    arith,
    ship-view true t,
    open_visit-view env t,
    open_visit-view env (ship true t),
    stay,
    flush_once,
    renew,
    flush_renew,
  )

  on_wake-Moves : (env : Env) (t : Tracker) → Moves env.new_id (view t) (view (on_wake env t))
  unfolding on_wake disarm_wake
  on_wake-Moves env t =
      grind (arith, new_session-Moves false env (record t { wake_armed = false }), stay)

  flush_tick-Moves : (id : Str) (t : Tracker) → Moves id (view t) (view (flush_tick t))
  unfolding flush_tick flush flush_logs send
  flush_tick-Moves id t = grind (arith, stay, flush_once)

  heartbeat-Moves :
      (visible : Bool) (env : Env) (t : Tracker)
      → Moves env.new_id (view t) (view (heartbeat visible env t))
  unfolding heartbeat count_active send_ping send
  heartbeat-Moves visible env t =
      grind (arith, end_session-view t, new_session-Moves true env t, stay, flush_once)

  ship_open-view :
      (t : Tracker) → (view (ship_open t) ≡ view t) ⊎ (view (ship_open t) ≡ flushed (view t))
  unfolding ship_open flush flush_logs send_ping send
  ship_open-view t = ground arith

  on_visibility_change-Moves :
      (visible : Bool) (env : Env) (t : Tracker)
      → Moves env.new_id (view t) (view (on_visibility_change visible env t))
  unfolding on_visibility_change
  on_visibility_change-Moves visible env t = grind (
    arith,
    ship_open-view t,
    new_session-Moves false env (record t { hide_timer = false }),
    stay,
    flush_once,
  )

  hide_elapsed-Moves : (id : Str) (t : Tracker) → Moves id (view t) (view (hide_elapsed t))
  unfolding hide_elapsed
  hide_elapsed-Moves id t =
      grind (arith, end_session-view (record t { hide_timer = false }), stay, flush_once)

  shutdown-Moves : (id : Str) (t : Tracker) → Moves id (view t) (view (shutdown t))
  unfolding shutdown disarm_wake call_restore_console call_stop_recording flush flush_logs send
  shutdown-Moves id t = grind (arith, end_session-view t, stay, flush_once)

  emit-view : (env : Env) (e : RrwebEvent) (t : Tracker) → view (emit env e t) ≡ view t
  unfolding emit store_event
  emit-view env e t = ground arith

  capture_log-view :
      (env : Env) (s : LogSeverity) (args : List ConsoleValue) (t : Tracker)
      → view (capture_log env s args t) ≡ view t
  unfolding capture_log
  capture_log-view env s args t = ground arith

  log_call-view :
      (env : Env) (name : Str) (args : List ConsoleValue) (t : Tracker)
      → view (log_call env name args t) ≡ view t
  unfolding log_call
  log_call-view env name args t = elim (Option-cases (is_log_severity name)) [
    | inl e ↦ rw (e, log_call) refl
    | inr (s, e) ↦ rw (e, log_call) (capture_log-view env s args t)
  ]

  pub step-Moves :
      (env : Env) (e : Event) (t : Tracker) → Moves env.new_id (view t) (view (step env e t))
  unfolding step
  step-Moves env (recorded e) t = stay (emit-view env e t)
  step-Moves env resync t = unfold resync_fired in stay refl
  step-Moves env (console m args) t = stay (capture_log-view env _ args t)
  step-Moves env (log name args) t = stay (log_call-view env name args t)
  step-Moves env flush_timer t = flush_tick-Moves _ t
  step-Moves env (heartbeat_timer visible) t = heartbeat-Moves visible env t
  step-Moves env page_hide t =
      unfold on_page_hide in grind (arith, ship_open-view t, stay, flush_once)
  step-Moves env (visibility visible) t = on_visibility_change-Moves visible env t
  step-Moves env hide_timer t = hide_elapsed-Moves _ t
  step-Moves env wake t = on_wake-Moves env t
  step-Moves env url_changed t = stay (unfold on_url_maybe_changed track_page send in ground arith)
  step-Moves env resized t = stay (unfold on_resize in ground arith)
  step-Moves env resize_timer t = stay (unfold resize_elapsed send_hello send in ground arith)
  step-Moves env (clicked i n) t = stay (unfold on_tracked_click send_custom send in ground arith)
  step-Moves env (track n i y d) t = stay (unfold send_custom send in ground arith)
  step-Moves env (user_status s) t = stay (unfold set_user_status send_custom send in ground arith)
  step-Moves env (identify f) t = stay (unfold apply_identity send_hello send in ground arith)
  step-Moves env claim t =
      unfold claim_replay send_ping send in grind (arith, flush-view false t, stay, flush_once)
  step-Moves env stop t = shutdown-Moves _ t
