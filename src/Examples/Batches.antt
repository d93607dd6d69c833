-- ===== src/Examples/Batches.antt =====
-- Batches, storage and page loads: theorems of Tracker/Session at concrete inputs.
use trace_ux.Base.{◌≡◌, refl, false, List, [], ◌∷◌, ◌++◌, arith}
use trace_ux.Tracker.Config.{codes}
use trace_ux.Tracker.State.{Env}
use trace_ux.Tracker.Session.Run.{Event, recorded, flush_timer, page_hide, step, run, all_parts}
use trace_ux.Tracker.Session.Start.{start, load, bootstrap, initial, starts_afresh, is_stale}
use trace_ux.Tracker.Session.Distinct.{Distinct}
use trace_ux.Tracker.Session.Stored.{Stored, start-run-Stored}
use trace_ux.Tracker.Session.Tab.{PageLoad, browse, load_page, browse-Distinct}
use trace_ux.Tracker.Session.Delivery.{all_events, added, step-all_events}
use trace_ux.Examples.Scene.{at, nobody, site, empty_store, click, first_env, fresh, fresh_starts}

abbrev visit : List (Env × Event)
visit = (at 1_001_000 (codes "b"), recorded click) ∷ (at 1_016_000 (codes "d"), flush_timer) ∷ []

start-run-Stored_example : Stored (run visit fresh)
start-run-Stored_example =
    start-run-Stored site 0 false nobody empty_store first_env visit refl fresh_starts

abbrev first_load : PageLoad
first_load = record {
  cfg = site;
  random = 0;
  failed = false;
  identity = nobody;
  env = first_env;
  happens = visit;
}

abbrev second_load : PageLoad
second_load = record first_load {
  env = at 1_020_000 (codes "x");
  happens = (at 1_021_000 (codes "y"), recorded click) ∷ (at 1_022_000 (codes "z"), page_hide) ∷ [];
}

browse-Distinct_example :
    Distinct
      (browse (first_load ∷ second_load ∷ []) (record { store = empty_store; keys = [] })).keys
browse-Distinct_example = browse-Distinct (first_load ∷ second_load ∷ []) empty_store refl (
  (λ m. ground (arith, m)),
  ((λ m. ground (arith, m)), ((λ m. ground (arith, m)), tt)),
  ((λ m. ground (arith, m)), ((λ m. ground (arith, m)), ((λ m. ground (arith, m)), tt)), tt),
)

-- Two batches of one visit, over two page loads.
browse_keys :
    (browse (first_load ∷ second_load ∷ []) (record { store = empty_store; keys = [] })).keys
    ≡ (codes "a", 1) ∷ (codes "a", 0) ∷ []
unfolding browse load_page start load bootstrap initial starts_afresh is_stale all_parts
browse_keys = refl

step-all_events_example :
    all_events (step (at 1_001_000 []) (recorded click) fresh)
    ≡ all_events fresh ++ added (at 1_001_000 []) (recorded click) fresh
unfolding fresh
step-all_events_example = step-all_events (at 1_001_000 []) (recorded click) fresh (omega arith)
