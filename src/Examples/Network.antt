-- ===== src/Examples/Network.antt =====
-- The transport and the queued handle: theorems at concrete inputs.
use trace_ux.Base.{◌*◌, ◌+◌, ◌≤◌, ◌≡◌, refl, true, false, List, [], ◌∷◌, arith}
use trace_ux.Tracker.Config.{codes}
use trace_ux.Tracker.Transport.{
  Transport, Action, submit, answered, timer, status, rejected, idle, settle, act_all, extract,
  wants_retry, retryable, schedule_retry, act, fire, transmit,
}
use trace_ux.Tracker.Transport.Posts.{transmissions, submissions, act_all-Inv}
use trace_ux.Tracker.Transport.Retries.{Inv}
use trace_ux.Tracker.Transport.Progress.{work, retries_end}
use trace_ux.Tracker.Handle.{
  set_user_status, create_queued_handle, Op, calls, claims, expands, activates, apply, apply_all,
}
use trace_ux.Tracker.Handle.Laws.{called, calls_arrive}
use trace_ux.Tracker.Handle.Promises.{kept, settled_by_handle, passed_on, promises_accounted}

abbrev overloaded : List Action
overloaded = submit 1 100 true true false true ∷ answered 0 (status 503) true ∷ timer 0 ∷ []

act_all-Inv_example :
    Inv (act_all overloaded idle)
    × (transmissions 1 (act_all overloaded idle) ≤ 5 * submissions 1 overloaded)
act_all-Inv_example = act_all-Inv overloaded 1

abbrev one_flying : Transport
one_flying = record idle { in_flight = record { body = 1; gz = false; attempt = 0 } ∷ [] }

retries_end_example : 3 ≤ work one_flying
unfolding act settle extract wants_retry retryable schedule_retry fire transmit
retries_end_example =
    retries_end (answered 0 rejected true ∷ timer 0 ∷ answered 0 (status 200) true ∷ []) one_flying
      (record { attempts = omega arith; waiting = tt; counted = refl; capped = omega arith })
      (omega arith)

abbrev early : List Op
early =
    calls (set_user_status (codes "trial")) ∷ claims 1 ∷ calls (set_user_status (codes "paid")) ∷ []

abbrev later : List Op
later = expands 2 (codes "nps") ∷ calls (set_user_status (codes "left")) ∷ []

calls_arrive_example :
    called (apply_all later (apply activates (apply_all early create_queued_handle))).delivered
    ≡ set_user_status (codes "trial")
      ∷ set_user_status (codes "paid")
      ∷ set_user_status (codes "left")
      ∷ []
calls_arrive_example = calls_arrive early later tt tt

promises_accounted_example :
    let h = apply_all early create_queued_handle in
    kept 1 h + settled_by_handle 1 h + passed_on 1 h ≡ 1
promises_accounted_example = promises_accounted 1 early
