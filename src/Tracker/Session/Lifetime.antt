-- ===== src/Tracker/Session/Lifetime.antt =====
-- The whole life of a tracker: from `start` through any events to `stop` (tracker/src/main.ts).
use trace_ux.Base.{
  ℕ, ◌≡◌, Bool, true, false, some, List, [], ◌∷◌, arith, Str, inl, inr, Option-cases,
}
use trace_ux.Tracker.Config.{Config}
use trace_ux.Tracker.Message.{Identity}
use trace_ux.Tracker.State.{Tracker, Store, Env, send}
use trace_ux.Tracker.Session.Record.{send_hello, track_page, start_recording, start_log_tracking}
use trace_ux.Tracker.Session.Start.{initial, load, bootstrap, start}
use trace_ux.Tracker.Session.Run.{Event, step, run}
use trace_ux.Tracker.Session.Bounds.{Inv, step-Inv}

bootstrap-Inv : (env : Env) (t : Tracker) → t.disposed ≡ false → Inv t → Inv (bootstrap env t)
unfolding bootstrap send_hello send start_recording start_log_tracking track_page
bootstrap-Inv env t d v = ground arith

initial-Inv :
    (cfg : Config) (i : Identity) (s : Store) (env : Env) (sid : Str) (a b c d : ℕ)
    → Inv (initial cfg i s env sid a b c d) × ((initial cfg i s env sid a b c d).disposed ≡ false)
unfolding initial
initial-Inv cfg i s env sid a b c d = ground arith

load-Inv :
    (cfg : Config) (i : Identity) (s : Store) (env : Env) {t : Tracker}
    → load cfg i s env ≡ some t
    → Inv t × (t.disposed ≡ false)
unfolding load
load-Inv cfg i s env h = ground (
  arith,
  initial-Inv cfg i s env env.new_id 0 0 0 0,
  initial-Inv cfg i s env s.sid s.seq s.log_seq s.page_count s.active,
)

start-Inv :
    (cfg : Config) (random : ℕ) (failed : Bool) (i : Identity) (s : Store) (env : Env) {t : Tracker}
    → start cfg random failed i s env ≡ some t
    → Inv t
unfolding start
start-Inv cfg random failed i s env h = elim (Option-cases (load cfg i s env)) [
  | inl e ↦ ground (arith, e)
  | inr (t, e) ↦
      ground (arith, e, bootstrap-Inv env t (load-Inv cfg i s env e).1 (load-Inv cfg i s env e).0)
]

run-Inv : (es : List (Env × Event)) (t : Tracker) → Inv t → Inv (run es t)
unfolding run
run-Inv [] t v = v
run-Inv ((env, e) ∷ es) t v = run-Inv es (step env e t) (step-Inv env e t v)

-- What a tracker that was stopped has and keeps.
-- A recorder that is left over may still fill the buffer, which is not sent any more.
pub record Silent (t u : Tracker) : Type 0 where
  pub sends_nothing : u.sent ≡ t.sent
  pub stores_nothing : u.store ≡ t.store
  pub starts_no_recorder : u.open_recorders ≡ t.open_recorders
  pub stays_disposed : u.disposed ≡ true

-- At any time after its start, whatever happened, a tracker keeps its buffers within their caps
-- and its flags in agreement.
pub start-run-Inv :
    (cfg : Config) (random : ℕ) (failed : Bool) (i : Identity) (s : Store) (env : Env)
    (es : List (Env × Event)) {t : Tracker}
    → start cfg random failed i s env ≡ some t
    → Inv (run es t)
start-run-Inv cfg random failed i s env es {t} h =
    run-Inv es t (start-Inv cfg random failed i s env h)
