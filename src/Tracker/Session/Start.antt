-- ===== src/Tracker/Session/Start.antt =====
-- `start` of tracker/src/main.ts: which visit a page load records into, and the bootstrap.
use trace_ux.Base.{
  ℕ, ◌-◌, Bool, false, ◌||◌, Option, none, some, [], Str, leb, ltb, if◌then◌else◌, is_empty,
}
use trace_ux.Tracker.Config.{Config}
use trace_ux.Tracker.Message.{Identity}
use trace_ux.Tracker.State.{Tracker, Store, Env, set_sid, set_sid_ts, set_log_seq}
use trace_ux.Tracker.Session.Record.{start_recording, start_log_tracking, track_page, send_hello}
use trace_ux.Tracker.Session.Visit.{session_ttl_ms, max_session_ms}

unfoldable pub is_stale : ℕ → Store → Bool
is_stale now s = is_empty s.sid || ltb session_ttl_ms (now - s.sid_ts)

-- A visit that reached the cap is not resumed either.
unfoldable pub starts_afresh : ℕ → Store → Bool
unfolding is_stale
starts_afresh now s = is_stale now s || leb max_session_ms s.active

unfoldable pub initial : Config → Identity → Store → Env → Str → ℕ → ℕ → ℕ → ℕ → Tracker
initial cfg identity store env sid seq log_seq page_count active = record {
  cfg = cfg;
  store = store;
  session_id = sid;
  seq = seq;
  log_seq = log_seq;
  page_count = page_count;
  active_ms = active;
  started_at = env.now;
  stopped = false;
  disposed = false;
  skipping_idle = false;
  resync_queued = false;
  stop_recording = none;
  open_recorders = [];
  next_recorder = 0;
  buffer = [];
  log_buffer = [];
  last_tick = env.now;
  last_event_at = env.now;
  wake_armed = false;
  console_patched = [];
  hide_timer = false;
  resize_timer = false;
  last_sent_viewport = (env.page.viewport_w, env.page.viewport_h);
  last_tracked_url = env.page.href;
  identity = identity;
  sent = [];
}

-- The variables as `start` sets them; `none` where a new visit finds no identifier.
unfoldable pub load : Config → Identity → Store → Env → Option Tracker
unfolding initial starts_afresh
load cfg identity s env =
    if starts_afresh env.now s
    then if is_empty env.new_id then none else some (initial cfg identity s env env.new_id 0 0 0 0)
    else some (initial cfg identity s env s.sid s.seq s.log_seq s.page_count s.active)

-- The section `bootstrap`.
unfoldable pub bootstrap : Env → Tracker → Tracker
bootstrap env t =
    let said = send_hello env t in
    let stored = record said {
      store =
          set_log_seq said.log_seq
            (set_sid_ts said.started_at (set_sid said.session_id said.store));
    } in
    track_page env (start_log_tracking env (start_recording env stored))

-- `random` counts parts of `sample_unit`; `failed` is `handle.isFailed()` once the configuration
-- has arrived. `none`: this page load records nothing.
unfoldable pub start : Config → ℕ → Bool → Identity → Store → Env → Option Tracker
unfolding load bootstrap
start cfg random failed identity s env =
    if ltb cfg.sample_rate random then none else elim (load cfg identity s env) [
      | none ↦ none
      | some t ↦ if failed then none else some (bootstrap env t)
    ]
