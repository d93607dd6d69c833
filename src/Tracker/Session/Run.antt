-- ===== src/Tracker/Session/Run.antt =====
-- The page as a sequence of events: which handler of tracker/src/main.ts runs on which event, and
-- the runs of a tracker after its start. The browser chooses the events and their order.
-- The answers of the network and the retries are events of Tracker/Transport: they change nothing here.
use trace_ux.Base.{Bool, true, Option, none, some, List, [], ◌∷◌, Str}
use trace_ux.Tracker.Config.{log_severity_rank}
use trace_ux.Tracker.Logs.{
  ConsoleValue, keep_newest, log_severities, includes, known_severities, is_log_severity, at_least,
  pending_log,
}
use trace_ux.Tracker.Message.{RrwebEvent, Identity}
use trace_ux.Tracker.State.{Tracker, Env, ConsoleMethod, send, remove_recorder}
use trace_ux.Tracker.Session.Record.{
  emit, store_event, is_user_interaction, interaction_sources, has, resync_fired, capture_log,
  log_call, method_severity, send_custom, send_ping, send_hello, track_page, flush, flush_logs,
  start_recording, call_stop_recording, start_log_tracking, patched, call_restore_console,
}
use trace_ux.Tracker.Session.Visit.{
  on_wake, flush_tick, heartbeat, on_page_hide, on_visibility_change, hide_elapsed,
  on_url_maybe_changed, on_resize, resize_elapsed, apply_identity, on_tracked_click,
  set_user_status, claim_replay, shutdown, count_active, end_session, new_session, open_visit,
  reset_visit, wake_on_interaction, disarm_wake, ship, ship_open,
}

pub data Event : Type 0 where
  recorded : RrwebEvent → Event
  resync : Event
  console : ConsoleMethod → List ConsoleValue → Event
  log : Str → List ConsoleValue → Event
  flush_timer : Event
  heartbeat_timer : Bool → Event
  page_hide : Event
  visibility : Bool → Event
  hide_timer : Event
  wake : Event
  url_changed : Event
  resized : Event
  resize_timer : Event
  clicked : Str → Bool → Event
  track : Str → Str → Bool → Option Str → Event
  user_status : Str → Event
  identify : Identity → Event
  claim : Event
  stop : Event

-- A call that throws leaves the tracker as it was.
abbrev or_same : Option Tracker → Tracker → Tracker
or_same none t = t
or_same (some t') t = t'

unfoldable pub step : Env → Event → Tracker → Tracker
step env (recorded e) t = emit env e t
step env resync t = resync_fired t
step env (console m args) t = capture_log env (method_severity m) args t
step env (log name args) t = log_call env name args t
step env flush_timer t = flush_tick t
step env (heartbeat_timer visible) t = heartbeat visible env t
step env page_hide t = on_page_hide t
step env (visibility visible) t = on_visibility_change visible env t
step env hide_timer t = hide_elapsed t
step env wake t = on_wake env t
step env url_changed t = on_url_maybe_changed env t
step env resized t = on_resize t
step env resize_timer t = resize_elapsed env t
step env (clicked track_id notify) t = on_tracked_click env track_id notify t
step env (track name track_id notify details) t = send_custom env name track_id notify details t
step env (user_status status) t = set_user_status env status t
step env (identify fields) t = apply_identity env fields t
step env claim t = or_same (claim_replay t) t
step env stop t = shutdown t

unfoldable pub run : List (Env × Event) → Tracker → Tracker
run [] t = t
run ((env, e) ∷ es) t = run es (step env e t)

-- Everything that a run computes with, for tests: the line of a test names `all_parts`.
unfoldable pub all_parts : Bool
unfolding step run emit store_event is_user_interaction interaction_sources has keep_newest
    resync_fired capture_log log_severities includes known_severities is_log_severity at_least
    log_severity_rank pending_log log_call send send_custom send_ping send_hello track_page flush
    flush_logs start_recording call_stop_recording remove_recorder start_log_tracking patched
    call_restore_console on_wake flush_tick heartbeat count_active on_page_hide on_visibility_change
    hide_elapsed on_url_maybe_changed on_resize resize_elapsed apply_identity on_tracked_click
    set_user_status claim_replay shutdown end_session new_session open_visit reset_visit
    wake_on_interaction disarm_wake ship ship_open
all_parts = true
