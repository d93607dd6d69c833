-- ===== src/Tracker/Session/Ends.antt =====
-- When a visit ends, splits and is resumed (tracker/src/main.ts: emit, the heartbeat, start).
use trace_ux.Base.{
  ℕ, ◌+◌, ◌-◌, ◌<◌, ◌≤◌, ◌≡◌, ◌⊎◌, inl, inr, Bool, true, false, some, List, [], ◌∷◌, arith, ◌≢◌,
  ◌↔◌, Bool-cases,
}
use trace_ux.Tracker.Config.{Config}
use trace_ux.Tracker.Message.{RrwebEvent, Identity}
use trace_ux.Tracker.State.{Tracker, Store, Env, send}
use trace_ux.Tracker.Session.Record.{
  emit, store_event, is_user_interaction, flush, flush_logs, send_ping, call_stop_recording,
  call_restore_console,
}
use trace_ux.Tracker.Session.Visit.{
  heartbeat, count_active, end_session, ship, wake_on_interaction, idle_timeout_ms, max_session_ms,
  session_ttl_ms,
}
use trace_ux.Tracker.Session.Start.{is_stale, starts_afresh, initial, load}

-- Events that the page made on its own, with the clock at each.
abbrev pub PageDriven : List (Env × RrwebEvent) → Type 0
PageDriven [] = Unit
PageDriven ((env, e) ∷ es) = (is_user_interaction e ≡ false) × PageDriven es

unfoldable pub emit_all : List (Env × RrwebEvent) → Tracker → Tracker
emit_all [] t = t
emit_all ((env, e) ∷ es) t = emit_all es (emit env e t)

record SameClock (t u : Tracker) : Type 0 where
  event : u.last_event_at ≡ t.last_event_at
  over : u.stopped ≡ t.stopped
  gone : u.disposed ≡ t.disposed

emit-SameClock :
    (env : Env) (e : RrwebEvent) (t : Tracker)
    → is_user_interaction e ≡ false
    → SameClock t (emit env e t)
unfolding emit store_event
emit-SameClock env e t h = ground arith

emit_all-SameClock :
    (es : List (Env × RrwebEvent)) (t : Tracker) → PageDriven es → SameClock t (emit_all es t)
unfolding emit_all
emit_all-SameClock [] t h = ground arith
emit_all-SameClock ((env, e) ∷ es) t h =
    ground (arith, emit-SameClock env e t h.0, emit_all-SameClock es (emit env e t) h.1)

end_session-over :
    (t : Tracker)
    → t.stopped ≡ false
    → t.disposed ≡ false
    → ((end_session t).stopped ≡ true) × ((end_session t).wake_armed ≡ true)
unfolding end_session ship flush flush_logs send_ping send call_stop_recording call_restore_console
    wake_on_interaction
end_session-over t s d = ground arith

-- However much a page changes itself, a visible heartbeat more than 30 minutes after the last
-- interaction ends a running visit, and arms the listeners that start the next one.
pub idle_visit_ends :
    (es : List (Env × RrwebEvent)) (t : Tracker) (env : Env)
    → PageDriven es
    → t.stopped ≡ false
    → t.disposed ≡ false
    → t.last_event_at + idle_timeout_ms < env.now
    → let u = heartbeat true env (emit_all es t) in (u.stopped ≡ true) × (u.wake_armed ≡ true)
unfolding heartbeat
idle_visit_ends es t env p s d h =
    ground (arith, emit_all-SameClock es t p, end_session-over (emit_all es t))

-- Conversely, a heartbeat within 30 minutes of the last interaction does not end the visit: below
-- the two-hour cap it goes on under its name with the time since the last tick added, and hidden
-- time is not.
pub active_visit_goes_on :
    (visible : Bool) (t : Tracker) (env : Env)
    → t.stopped ≡ false
    → t.disposed ≡ false
    → env.now ≤ t.last_event_at + idle_timeout_ms
    → t.active_ms < max_session_ms
    → let u = heartbeat visible env t in
      (u.stopped ≡ false)
      × (u.session_id ≡ t.session_id)
      × (u.last_tick ≡ env.now)
      × ((visible ≡ true) × (u.active_ms ≡ t.active_ms + env.now - t.last_tick)
          ⊎ (visible ≡ false) × (u.active_ms ≡ t.active_ms))
unfolding heartbeat count_active send_ping send
active_visit_goes_on visible t env s d i c = ground arith

-- The stored visit can be gone on with.
abbrev pub Alive : ℕ → Store → Type 0
Alive now s = (s.sid ≢ []) × (now ≤ s.sid_ts + session_ttl_ms) × (s.active < max_session_ms)

-- A page load records into the stored visit exactly where there is one, it was alive in the last
-- 30 minutes and it is below the cap; the browser's next identifier is taken to be another one.
pub resumes_iff :
    (cfg : Config) (i : Identity) (s : Store) (env : Env) {t : Tracker}
    → load cfg i s env ≡ some t
    → s.sid ≢ env.new_id
    → (t.session_id ≡ s.sid) ↔ Alive env.now s
unfolding load initial starts_afresh is_stale
resumes_iff cfg i s env h n = (λ e. ground (arith, h, n, e), λ l. ground (arith, h, n, l))

afresh-Alive :
    (now : ℕ) (s : Store)
    → ((starts_afresh now s ≡ true) × ¬ Alive now s) ⊎ ((starts_afresh now s ≡ false) × Alive now s)
unfolding starts_afresh is_stale
afresh-Alive now s = elim (Bool-cases (starts_afresh now s)) [
  | inl e ↦ inl (e, λ l. ground (arith, e, l))
  | inr e ↦ inr (e, ground (arith, e))
]

abbrev pub Counters : Tracker → ℕ → ℕ → ℕ → ℕ → Type 0
Counters t seq log_seq page_count active =
    (t.seq ≡ seq) × (t.log_seq ≡ log_seq) × (t.page_count ≡ page_count) × (t.active_ms ≡ active)

-- A page load that resumes the stored visit takes all its counters from the storage; one that does
-- not gives the visit a new identifier and starts them at 0.
pub load-Counters :
    (cfg : Config) (i : Identity) (s : Store) (env : Env) {t : Tracker}
    → load cfg i s env ≡ some t
    → (Alive env.now s × (t.session_id ≡ s.sid) × Counters t s.seq s.log_seq s.page_count s.active)
      ⊎ ((¬ Alive env.now s) × (t.session_id ≡ env.new_id) × Counters t 0 0 0 0)
unfolding load initial
load-Counters cfg i s env h = elim (afresh-Alive env.now s) [
  | inl (e, dead) ↦ inr (dead, ground (arith, h, e), ground (arith, h, e))
  | inr (e, alive) ↦ inl (alive, ground (arith, h, e), ground (arith, h, e))
]
