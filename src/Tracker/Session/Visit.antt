-- ===== src/Tracker/Session/Visit.antt =====
-- The handlers of tracker/src/main.ts: endSession, newSession, onWake, the two timers, pagehide,
-- visibilitychange, the URL and resize handlers, the calls of the handle, and shutdown.
use trace_ux.Base.{
  ℕ, ◌+◌, ◌-◌, Bool, true, false, not, ◌&&◌, ◌||◌, Option, none, some, [], ◌∷◌, Str, str_eq, leb,
  ltb, ◌==◌, if◌then◌else◌, take, is_empty,
}
use trace_ux.Tracker.Config.{codes}
use trace_ux.Tracker.Message.{Identity}
use trace_ux.Tracker.State.{
  Tracker, Env, set_sid, set_sid_ts, set_log_seq, set_page_count, set_active,
}
use trace_ux.Tracker.Session.Record.{
  start_recording, call_stop_recording, flush, flush_logs, start_log_tracking, call_restore_console,
  send_ping, send_custom, track_page, send_hello,
}

abbrev pub session_ttl_ms : ℕ
session_ttl_ms = 1_800_000

abbrev pub idle_timeout_ms : ℕ
idle_timeout_ms = 1_800_000

abbrev pub max_session_ms : ℕ
max_session_ms = 7_200_000

abbrev pub ping_interval_ms : ℕ
ping_interval_ms = 15_000

-- The three sends that close a visit or a page.
unfoldable pub ship : Bool → Tracker → Tracker
ship use_beacon t = send_ping use_beacon (flush_logs use_beacon (flush use_beacon t))

unfoldable pub wake_on_interaction : Tracker → Tracker
wake_on_interaction t = record t { wake_armed = true }

unfoldable pub disarm_wake : Tracker → Tracker
disarm_wake t = record t { wake_armed = false }

unfoldable pub end_session : Tracker → Tracker
end_session t =
    if t.stopped || t.disposed
    then t
    else wake_on_interaction
        (call_restore_console (call_stop_recording (ship true (record t { stopped = true }))))

-- The variables that a new visit resets, and what of them it stores.
unfoldable pub reset_visit : Env → Tracker → Tracker
reset_visit env t = record t {
  session_id = env.new_id;
  seq = 0;
  log_seq = 0;
  page_count = 0;
  active_ms = 0;
  last_event_at = env.now;
  started_at = env.now;
  last_tick = env.now;
  store =
      set_active 0
        (set_page_count 0 (set_log_seq 0 (set_sid_ts env.now (set_sid env.new_id t.store))));
}

-- From `stopped = false` on.
unfoldable pub open_visit : Env → Tracker → Tracker
open_visit env t = track_page env (
    send_hello env (
      start_log_tracking env
        (start_recording env (reset_visit env (disarm_wake (record t { stopped = false }))))))

unfoldable pub new_session : Bool → Env → Tracker → Tracker
new_session finalize env t =
    if t.disposed
    then t
    else let t' = if finalize && not t.stopped then ship true t else t in
      if is_empty env.new_id then record t' { stopped = true } else open_visit env t'

-- The listener stands only while the wake listeners are armed.
unfoldable pub on_wake : Env → Tracker → Tracker
on_wake env t = if t.disposed || not t.wake_armed then t else new_session false env (disarm_wake t)

-- `Math.max(5_000, cfg.flush_interval_ms || 5_000)`.
unfoldable pub flush_interval_ms : ℕ → ℕ
flush_interval_ms configured = if ltb configured 5_000 then 5_000 else configured

unfoldable pub flush_tick : Tracker → Tracker
flush_tick t = if t.disposed then t else flush_logs false (flush false t)

-- Only visible time counts: the last part of the heartbeat.
unfoldable pub count_active : Env → Tracker → Tracker
count_active env t =
    let active = t.active_ms + env.now - t.last_tick in
    let t' =
      send_ping false
        (record t { active_ms = active; store = set_sid_ts env.now (set_active active t.store) }) in
    record t' { last_tick = env.now }

unfoldable pub heartbeat : Bool → Env → Tracker → Tracker
heartbeat visible env t =
    if t.disposed
    then t
    else if t.stopped || not visible
    then record t { last_tick = env.now }
    else if ltb idle_timeout_ms (env.now - t.last_event_at)
    then end_session t
    else if leb max_session_ms t.active_ms
    then new_session true env t
    else count_active env t

unfoldable pub ship_open : Tracker → Tracker
ship_open t = let t' = flush_logs true (flush true t) in if t.stopped then t' else send_ping true t'

unfoldable pub on_page_hide : Tracker → Tracker
on_page_hide t = if t.disposed then t else ship_open t

unfoldable pub on_visibility_change : Bool → Env → Tracker → Tracker
on_visibility_change visible env t =
    if t.disposed
    then t
    else if not visible
    then record (ship_open t) { hide_timer = true }
    else let t' = record t { hide_timer = false } in
      if t.stopped then new_session false env t' else t'

-- The time-out that visibilitychange starts.
unfoldable pub hide_elapsed : Tracker → Tracker
hide_elapsed t =
    if not t.hide_timer then t else let t' = record t { hide_timer = false } in end_session t'

-- `onURLMaybeChanged`, less the mount of the widget (Tracker/Widget).
unfoldable pub on_url_maybe_changed : Env → Tracker → Tracker
on_url_maybe_changed env t =
    if t.disposed
    then t
    else if str_eq env.page.href t.last_tracked_url
    then t
    else track_page env (record t { last_tracked_url = env.page.href })

unfoldable pub on_resize : Tracker → Tracker
on_resize t = if t.disposed then t else record t { resize_timer = true }

-- The time-out of `onResize`.
unfoldable pub resize_elapsed : Env → Tracker → Tracker
resize_elapsed env t =
    if not t.resize_timer
    then t
    else let t' = record t { resize_timer = false } in
      let same =
        (env.page.viewport_w == t.last_sent_viewport.0)
        && (env.page.viewport_h == t.last_sent_viewport.1) in
      if same || t.disposed
      then t'
      else send_hello env
          (record t' { last_sent_viewport = (env.page.viewport_w, env.page.viewport_h) })

-- A field that is empty leaves the old one.
abbrev keep_or : Str → Str → Str
keep_or [] old = old
keep_or (c ∷ cs) old = c ∷ cs

abbrev pub merge_identity : Identity → Identity → Identity
merge_identity f i = record {
  user_id = keep_or f.user_id i.user_id;
  client_id = keep_or f.client_id i.client_id;
  remote_id = keep_or f.remote_id i.remote_id;
}

unfoldable pub apply_identity : Env → Identity → Tracker → Tracker
apply_identity env fields t =
    let t' = record t { identity = merge_identity fields t.identity } in
    if t.disposed || t.stopped then t' else send_hello env t'

-- A click on an element with a track id, less the mount of the widget.
unfoldable pub on_tracked_click : Env → Str → Bool → Tracker → Tracker
on_tracked_click env track_id notify t =
    if t.disposed then t else send_custom env (codes "click") track_id notify none t

unfoldable pub set_user_status : Env → Str → Tracker → Tracker
set_user_status env status = send_custom env (codes "user_status") (take 100 status) false none

-- `claimReplay` up to its request; it throws where the tracker is not active.
unfoldable pub claim_replay : Tracker → Option Tracker
claim_replay t = if t.disposed || t.stopped then none else some (send_ping false (flush false t))

-- `shutdown`, less the widget and the window (Tracker/Widget, Tracker/Init).
unfoldable pub shutdown : Tracker → Tracker
shutdown t =
    if t.disposed
    then t
    else let t' =
        if not t.stopped
        then end_session t
        else call_restore_console (call_stop_recording (flush_logs true (flush true t))) in
      disarm_wake (record t' { disposed = true; hide_timer = false; resize_timer = false })
