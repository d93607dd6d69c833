-- ===== src/Tracker/Session/Splits.antt =====
-- What the two-hour cap of tracker/src/main.ts leaves behind: newSession starts a recorder beside
-- the one that runs, and start does not store the active time that it resets.
use trace_ux.Base.{
  ℕ, ◌+◌, ◌<◌, ◌≤◌, ◌≡◌, ◌≢◌, inl, inr, Bool, true, false, some, List, [], ◌∷◌, arith, Option-cases,
}
use trace_ux.Tracker.Config.{Config}
use trace_ux.Tracker.Message.{Identity}
use trace_ux.Tracker.State.{Tracker, Store, Env, gives_stop, send, remove_recorder}
use trace_ux.Tracker.Session.Record.{
  has, flush, flush_logs, send_ping, call_stop_recording, call_restore_console, send_hello,
  track_page, start_recording, start_log_tracking,
}
use trace_ux.Tracker.Session.Visit.{
  heartbeat, end_session, new_session, open_visit, reset_visit, ship, shutdown, wake_on_interaction,
  disarm_wake, max_session_ms, idle_timeout_ms,
}
use trace_ux.Tracker.Session.Start.{starts_afresh, initial, load, bootstrap, start}

has-remove : (r x : ℕ) (xs : List ℕ) → r ≢ x → has xs r ≡ true → has (remove_recorder x xs) r ≡ true
unfolding has remove_recorder
has-remove r x [] n h = h
has-remove r x (y ∷ ys) n h = ground (arith, has-remove r x ys n)

has-cons : (r x : ℕ) (xs : List ℕ) → has xs r ≡ true → has (x ∷ xs) r ≡ true
unfolding has
has-cons r x xs h = ground arith

record Recording (open_recorders : List ℕ) (next : ℕ) (u : Tracker) : Type 0 where
  still_open : u.open_recorders ≡ next ∷ open_recorders
  handle : u.stop_recording ≡ some next
  runs : u.stopped ≡ false
  lives : u.disposed ≡ false

ship-Recording :
    (t : Tracker)
    → let u = ship true t in
      (u.open_recorders ≡ t.open_recorders)
      × (u.next_recorder ≡ t.next_recorder)
      × (u.disposed ≡ t.disposed)
      × (u.cfg ≡ t.cfg)
unfolding ship flush flush_logs send_ping send
ship-Recording t = ground arith

open_visit-Recording :
    (env : Env) (t : Tracker)
    → t.disposed ≡ false
    → t.cfg.recording_enabled ≡ true
    → env.record_outcome ≡ gives_stop
    → Recording t.open_recorders t.next_recorder (open_visit env t)
unfolding open_visit track_page send_hello send start_log_tracking start_recording reset_visit
    disarm_wake
open_visit-Recording env t d c o = ground arith

end_session-recorders :
    (t : Tracker) (r : ℕ)
    → t.stopped ≡ false
    → t.disposed ≡ false
    → t.stop_recording ≡ some r
    → (end_session t).open_recorders ≡ remove_recorder r t.open_recorders
unfolding end_session ship flush flush_logs send_ping send call_stop_recording call_restore_console
    wake_on_interaction
end_session-recorders t r s d e = ground arith

splits :
    (env : Env) (t : Tracker)
    → t.stopped ≡ false
    → t.disposed ≡ false
    → env.now ≤ t.last_event_at + idle_timeout_ms
    → max_session_ms ≤ t.active_ms
    → env.new_id ≢ []
    → heartbeat true env t ≡ open_visit env (ship true t)
unfolding heartbeat new_session
splits env t s d i a n = ground arith

shutdown-recorders :
    (u : Tracker) (open_recorders : List ℕ) (next : ℕ)
    → Recording open_recorders next u
    → (shutdown u).open_recorders ≡ remove_recorder next (next ∷ open_recorders)
unfolding shutdown disarm_wake
shutdown-recorders u rs next v =
    ground (arith, v, end_session-recorders u next v.runs v.lives v.handle)

-- When the heartbeat splits a visit at the two-hour cap while the recorder `r` runs, it starts
-- another recorder and never calls the stop function of `r`: not even `stop` ends it.
pub split_leaks_recorder :
    (env : Env) (t : Tracker) (r : ℕ)
    → t.stopped ≡ false
    → t.disposed ≡ false
    → t.cfg.recording_enabled ≡ true
    → has t.open_recorders r ≡ true
    → r < t.next_recorder
    → env.now ≤ t.last_event_at + idle_timeout_ms
    → max_session_ms ≤ t.active_ms
    → env.new_id ≢ []
    → env.record_outcome ≡ gives_stop
    → has (shutdown (heartbeat true env t)).open_recorders r ≡ true
split_leaks_recorder env t r s d c h lt i a n o =
    let v : Recording t.open_recorders t.next_recorder (open_visit env (ship true t)) =
      ground (arith, ship-Recording t, open_visit-Recording env (ship true t)) in
    rw (splits env t s d i a n) (
      rw (shutdown-recorders _ _ _ v)
        (has-remove r t.next_recorder _ (λ e. omega (arith, e)) (has-cons r _ _ h)))

load-capped :
    (cfg : Config) (i : Identity) (s : Store) (env : Env) {t : Tracker}
    → max_session_ms ≤ s.active
    → load cfg i s env ≡ some t
    → (t.session_id ≡ env.new_id) × (t.store.active ≡ s.active)
unfolding load initial starts_afresh
load-capped cfg i s env m h = ground (arith, h)

bootstrap-keeps :
    (env : Env) (t : Tracker)
    → ((bootstrap env t).session_id ≡ t.session_id)
      × ((bootstrap env t).store.active ≡ t.store.active)
unfolding bootstrap send_hello send start_recording start_log_tracking track_page
bootstrap-keeps env t = ground arith

-- A page load that finds the stored visit at the cap starts a new one, and leaves the stored
-- active time as it was: until the first heartbeat any further load starts yet another visit.
pub capped_store_restarts :
    (cfg : Config) (random : ℕ) (failed : Bool) (i : Identity) (s : Store) (env : Env) (later : ℕ)
    {t : Tracker}
    → max_session_ms ≤ s.active
    → start cfg random failed i s env ≡ some t
    → (t.session_id ≡ env.new_id) × (starts_afresh later t.store ≡ true)
unfolding start starts_afresh
capped_store_restarts cfg random failed i s env later m h = elim (Option-cases (load cfg i s env)) [
  | inl e ↦ ground (arith, h, e)
  | inr (u, e) ↦ ground (arith, h, load-capped cfg i s env m e, bootstrap-keeps env u, e)
]
