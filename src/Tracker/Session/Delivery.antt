-- ===== src/Tracker/Session/Delivery.antt =====
-- No recorded event is lost or sent twice between the recorder and the network
-- (tracker/src/main.ts, emit and flush).
use mathlib.Core.List.{append_assoc, append-nil}
use trace_ux.Base.{
  ℕ, ◌-◌, ◌<◌, ◌≡◌, refl, sym, ◌∙◌, Bool, true, false, not, ◌||◌, List, [], ◌∷◌, ◌++◌, arith, Str,
  Option-cases, inl, inr, length, length-append, ltb, if◌then◌else◌, push,
}
use trace_ux.Tracker.Config.{LogSeverity}
use trace_ux.Tracker.Logs.{ConsoleValue, is_log_severity, keep_newest}
use trace_ux.Tracker.Message.{
  RrwebEvent, Message, events, logs, ping, custom, feedback, page, hello, Sent,
}
use trace_ux.Tracker.State.{Tracker, Env, send}
use trace_ux.Tracker.Session.Record.{
  emit, store_event, is_user_interaction, idle_record_grace_ms, max_buffer_events, capture_log,
  log_call, resync_fired, send_custom, flush, flush_logs, send_ping, send_hello, track_page,
  start_recording, start_log_tracking, call_stop_recording, call_restore_console,
}
use trace_ux.Tracker.Session.Visit.{
  on_wake, flush_tick, heartbeat, count_active, on_page_hide, on_visibility_change, hide_elapsed,
  on_url_maybe_changed, on_resize, resize_elapsed, apply_identity, on_tracked_click,
  set_user_status, claim_replay, shutdown, end_session, new_session, open_visit, reset_visit,
  wake_on_interaction, disarm_wake, ship, ship_open,
}
use trace_ux.Tracker.Session.Run.{
  Event, recorded, resync, console, log, flush_timer, heartbeat_timer, page_hide, visibility,
  hide_timer, wake, url_changed, resized, resize_timer, clicked, track, user_status, identify,
  claim, stop, step,
}

-- The recorded events of all batches sent, oldest first, and those that wait.
abbrev with_events : Message → List RrwebEvent → List RrwebEvent
with_events (events sid n es) before = before ++ es
with_events (logs sid ls) before = before
with_events (ping sid d p) before = before
with_events (custom sid e) before = before
with_events (feedback sid f) before = before
with_events (page sid i u t e) before = before
with_events (hello sid p i) before = before

abbrev pub sent_events : List Sent → List RrwebEvent
sent_events [] = []
sent_events (s ∷ ss) = with_events s.message (sent_events ss)

abbrev pub all_events : Tracker → List RrwebEvent
all_events t = sent_events t.sent ++ t.buffer

flush-all_events : (b : Bool) (t : Tracker) → all_events (flush b t) ≡ all_events t
unfolding flush send
flush-all_events b t =
    ground (arith, append-nil (sent_events t.sent ++ t.buffer), append-nil (sent_events t.sent))

flush_logs-all_events : (b : Bool) (t : Tracker) → all_events (flush_logs b t) ≡ all_events t
unfolding flush_logs send
flush_logs-all_events b t = ground arith

ship-all_events : (b : Bool) (t : Tracker) → all_events (ship b t) ≡ all_events t
unfolding ship send_ping send
ship-all_events b t = flush_logs-all_events b (flush b t) ∙ flush-all_events b t

end_session-all_events : (t : Tracker) → all_events (end_session t) ≡ all_events t
unfolding end_session call_stop_recording call_restore_console wake_on_interaction
end_session-all_events t = ground (arith, ship-all_events true (record t { stopped = true }))

open_visit-all_events : (env : Env) (t : Tracker) → all_events (open_visit env t) ≡ all_events t
unfolding open_visit track_page send_hello send start_log_tracking start_recording reset_visit
    disarm_wake
open_visit-all_events env t = ground arith

new_session-all_events :
    (b : Bool) (env : Env) (t : Tracker) → all_events (new_session b env t) ≡ all_events t
unfolding new_session
new_session-all_events b env t = ground (
  arith,
  ship-all_events true t,
  open_visit-all_events env t,
  open_visit-all_events env (ship true t),
)

heartbeat-all_events :
    (visible : Bool) (env : Env) (t : Tracker) → all_events (heartbeat visible env t) ≡ all_events t
unfolding heartbeat count_active send_ping send
heartbeat-all_events visible env t =
    ground (arith, end_session-all_events t, new_session-all_events true env t)

ship_open-all_events : (t : Tracker) → all_events (ship_open t) ≡ all_events t
unfolding ship_open send_ping send
ship_open-all_events t =
    ground (arith, flush_logs-all_events true (flush true t), flush-all_events true t)

shutdown-all_events : (t : Tracker) → all_events (shutdown t) ≡ all_events t
unfolding shutdown disarm_wake call_restore_console call_stop_recording
shutdown-all_events t = ground (
  arith,
  end_session-all_events t,
  flush_logs-all_events true (flush true t),
  flush-all_events true t,
)

capture_log-all_events :
    (env : Env) (s : LogSeverity) (args : List ConsoleValue) (t : Tracker)
    → all_events (capture_log env s args t) ≡ all_events t
unfolding capture_log
capture_log-all_events env s args t = ground arith

log_call-all_events :
    (env : Env) (name : Str) (args : List ConsoleValue) (t : Tracker)
    → all_events (log_call env name args t) ≡ all_events t
unfolding log_call
log_call-all_events env name args t = elim (Option-cases (is_log_severity name)) [
  | inl e ↦ rw (e, log_call) refl
  | inr (s, e) ↦ rw (e, log_call) (capture_log-all_events env s args t)
]

-- An event is worth storing where a person acted, or acted within the last minute.
abbrev pub worth_storing : Env → RrwebEvent → Tracker → Bool
worth_storing env e t =
    is_user_interaction e || not (ltb idle_record_grace_ms (env.now - t.last_event_at))

abbrev pub added : Env → Event → Tracker → List RrwebEvent
added env (recorded e) t = if worth_storing env e t then e ∷ [] else []
added env _ t = []

keep_newest_room :
    {A : Type 0} (cap : ℕ) (xs : List A) (x : A)
    → length xs < cap
    → keep_newest cap (push xs x) ≡ push xs x
unfolding keep_newest
keep_newest_room cap xs x h = ground (arith, length-append xs (x ∷ []))

emit-all_events :
    (env : Env) (e : RrwebEvent) (t : Tracker)
    → length t.buffer < max_buffer_events
    → all_events (emit env e t) ≡ all_events t ++ added env (recorded e) t
unfolding emit store_event
emit-all_events env e t room = ground (
  arith,
  keep_newest_room max_buffer_events t.buffer e room,
  append_assoc (sent_events t.sent) t.buffer (e ∷ []),
  append-nil (sent_events t.sent ++ t.buffer),
)

same : {xs ys : List RrwebEvent} → xs ≡ ys → xs ≡ ys ++ []
same {ys = ys} e = e ∙ sym (append-nil ys)

-- Where the buffer has room, an event of the page changes the recorded events, sent and waiting
-- together and in their order, only by adding at the end the one that is worth storing.
pub step-all_events :
    (env : Env) (e : Event) (t : Tracker)
    → length t.buffer < max_buffer_events
    → all_events (step env e t) ≡ all_events t ++ added env e t
unfolding step
step-all_events env (recorded e) t h = emit-all_events env e t h
step-all_events env resync t h = same (unfold resync_fired in refl)
step-all_events env (console m args) t h = same (capture_log-all_events env _ args t)
step-all_events env (log name args) t h = same (log_call-all_events env name args t)
step-all_events env flush_timer t h = same (
    unfold flush_tick in
    ground (arith, flush_logs-all_events false (flush false t), flush-all_events false t))
step-all_events env (heartbeat_timer visible) t h = same (heartbeat-all_events visible env t)
step-all_events env page_hide t h =
    same (unfold on_page_hide in ground (arith, ship_open-all_events t))
step-all_events env (visibility visible) t h = same (
    unfold on_visibility_change in
    ground (
      arith,
      ship_open-all_events t,
      new_session-all_events false env (record t { hide_timer = false }),
    ))
step-all_events env hide_timer t h = same (
    unfold hide_elapsed in ground (arith, end_session-all_events (record t { hide_timer = false })))
step-all_events env wake t h = same (
    unfold on_wake disarm_wake in
    ground (arith, new_session-all_events false env (record t { wake_armed = false })))
step-all_events env url_changed t h =
    same (unfold on_url_maybe_changed track_page send in ground arith)
step-all_events env resized t h = same (unfold on_resize in ground arith)
step-all_events env resize_timer t h = same (unfold resize_elapsed send_hello send in ground arith)
step-all_events env (clicked i n) t h =
    same (unfold on_tracked_click send_custom send in ground arith)
step-all_events env (track n i y d) t h = same (unfold send_custom send in ground arith)
step-all_events env (user_status s) t h =
    same (unfold set_user_status send_custom send in ground arith)
step-all_events env (identify f) t h = same (unfold apply_identity send_hello send in ground arith)
step-all_events env claim t h =
    same (unfold claim_replay send_ping send in ground (arith, flush-all_events false t))
step-all_events env stop t h = same (shutdown-all_events t)
