-- ===== src/Examples/Visits.antt =====
-- Lives of a tracker: theorems of Tracker/Session at concrete inputs.
use trace_ux.Base.{◌≡◌, refl, ◌↔◌, true, false, some, none, List, [], ◌∷◌, arith}
use trace_ux.Tracker.Config.{codes}
use trace_ux.Tracker.State.{Tracker, Store, Env}
use trace_ux.Tracker.Session.Record.{is_user_interaction}
use trace_ux.Tracker.Session.Visit.{heartbeat}
use trace_ux.Tracker.Session.Start.{initial, load, start, starts_afresh, is_stale}
use trace_ux.Tracker.Session.Run.{
  Event, recorded, heartbeat_timer, flush_timer, visibility, wake, run, all_parts,
}
use trace_ux.Tracker.Session.Bounds.{Inv}
use trace_ux.Tracker.Session.Lifetime.{start-run-Inv}
use trace_ux.Tracker.Session.Ends.{emit_all, idle_visit_ends, Alive, resumes_iff}
use trace_ux.Examples.Scene.{
  at, nobody, site, empty_store, click, mutation, first_env, fresh, fresh_starts,
}

abbrev visit : List (Env × Event)
visit =
    (at 1_001_000 (codes "b"), recorded click)
    ∷ (at 1_015_000 (codes "c"), heartbeat_timer true)
    ∷ (at 1_016_000 (codes "d"), flush_timer)
    ∷ []

abbrev afterwards : List (Env × Event)
afterwards = (at 1_020_000 (codes "e"), visibility true) ∷ (at 1_021_000 (codes "f"), wake) ∷ []

start-run-Inv_example : Inv (run visit fresh)
start-run-Inv_example = start-run-Inv site 0 false nobody empty_store first_env visit fresh_starts

abbrev late : Env
late = at 9_000_000 (codes "h")

idle_visit_ends_example :
    let u = heartbeat true late (emit_all ((at 1_030_000 [], mutation) ∷ []) fresh) in
    (u.stopped ≡ true) × (u.wake_armed ≡ true)
unfolding fresh is_user_interaction all_parts
idle_visit_ends_example =
    idle_visit_ends ((at 1_030_000 [], mutation) ∷ []) fresh late (refl, tt) refl refl (omega arith)

-- A tab that was used a minute ago.
abbrev recent : Store
recent = record {
  writable = true;
  sid = codes "a";
  sid_ts = 1_000_000;
  seq = 4;
  log_seq = 2;
  page_count = 3;
  active = 60_000;
}

unfoldable resumed : Tracker
unfolding initial
resumed = initial site nobody recent (at 1_060_000 (codes "b")) (codes "a") 4 2 3 60_000

resumed_loads : load site nobody recent (at 1_060_000 (codes "b")) ≡ some resumed
unfolding resumed load starts_afresh is_stale
resumed_loads = refl

resumes_iff_example : (resumed.session_id ≡ codes "a") ↔ Alive 1_060_000 recent
resumes_iff_example =
    resumes_iff site nobody recent (at 1_060_000 (codes "b")) resumed_loads (λ e. ground (arith, e))

abbrev capped : Store
capped = record recent { active = 7_200_000 }

unfoldable restarted : Tracker
unfolding start load starts_afresh is_stale all_parts initial
restarted = elim (start site 0 false nobody capped (at 1_060_000 (codes "b"))) [
  | none ↦ fresh
  | some t ↦ t
]

restarts : start site 0 false nobody capped (at 1_060_000 (codes "b")) ≡ some restarted
unfolding restarted
restarts = refl
