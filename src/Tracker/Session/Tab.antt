-- ===== src/Tracker/Session/Tab.antt =====
-- A browser tab: page loads one after another, which share the session storage and so the visit
-- (tracker/src/main.ts, start). Each load may fail to start a tracker, and ends at any moment.
use trace_ux.Base.{
  ℕ, ◌≤◌, ◌≡◌, refl, ◌⊎◌, inl, inr, Bool, true, Option, none, some, List, [], ◌∷◌, arith, Str,
  Option-cases,
}
use trace_ux.Tracker.Config.{Config}
use trace_ux.Tracker.Message.{Identity}
use trace_ux.Tracker.State.{Tracker, Store, Env, send}
use trace_ux.Tracker.Session.Record.{send_hello, track_page, start_recording, start_log_tracking}
use trace_ux.Tracker.Session.Start.{initial, load, bootstrap, start}
use trace_ux.Tracker.Session.Run.{Event, run}
use trace_ux.Tracker.Session.Keys.{Key, event_keys, View, view}
use trace_ux.Tracker.Session.Distinct.{
  Distinct, In, NewIds, Keyed, All-map, renewed-Keyed, more-Keyed, used_after, run-Keyed,
}
use trace_ux.Tracker.Session.Stored.{Stored, start-Stored, run-Stored}

pub record PageLoad : Type 0 where
  pub cfg : Config
  pub random : ℕ
  pub failed : Bool
  pub identity : Identity
  pub env : Env
  pub happens : List (Env × Event)

-- What a tab keeps from one page load to the next, and the keys of all batches sent so far.
pub record Tab : Type 0 where
  pub store : Store
  pub keys : List Key

abbrev after_load : List Key → List (Env × Event) → Tab → Option Tracker → Tab
after_load old es tab none = tab
after_load old es tab (some t) = record {
  store = (run es t).store;
  keys = event_keys old (run es t).sent;
}

unfoldable pub load_page : PageLoad → Tab → Tab
load_page p tab =
    after_load tab.keys p.happens tab (start p.cfg p.random p.failed p.identity tab.store p.env)

unfoldable pub browse : List PageLoad → Tab → Tab
browse [] tab = tab
browse (p ∷ ps) tab = browse ps (load_page p tab)

abbrev ids_after : List Str → PageLoad → List Str
ids_after used p = used_after (p.env.new_id ∷ used) p.happens

-- Every identifier that the browser makes up is new to the tab.
abbrev pub AllNew : List Str → List PageLoad → Type 0
AllNew used [] = Unit
AllNew used (p ∷ ps) =
    (¬ In p.env.new_id used) × NewIds (p.env.new_id ∷ used) p.happens × AllNew (ids_after used p) ps

abbrev store_view : Tab → View
store_view tab = record { sid = tab.store.sid; seq = tab.store.seq; keys = tab.keys }

bootstrap-view :
    (old : List Key) (env : Env) (t : Tracker) → view old (bootstrap env t) ≡ view old t
unfolding bootstrap send_hello send start_recording start_log_tracking track_page
bootstrap-view old env t = ground arith

load-view :
    (old : List Key) (cfg : Config) (i : Identity) (s : Store) (env : Env) {t : Tracker}
    → load cfg i s env ≡ some t
    → (view old t ≡ record { sid = s.sid; seq = s.seq; keys = old })
      ⊎ (view old t ≡ record { sid = env.new_id; seq = 0; keys = old })
unfolding load initial
load-view old cfg i s env h = ground arith

start-view :
    (old : List Key) (cfg : Config) (random : ℕ) (failed : Bool) (i : Identity) (s : Store)
    (env : Env) {t : Tracker}
    → start cfg random failed i s env ≡ some t
    → (view old t ≡ record { sid = s.sid; seq = s.seq; keys = old })
      ⊎ (view old t ≡ record { sid = env.new_id; seq = 0; keys = old })
unfolding start
start-view old cfg random failed i s env {t} h = elim (Option-cases (load cfg i s env)) [
  | inl e ↦ ground (arith, e)
  | inr (u, e) ↦ ground (arith, e, bootstrap-view old env u, load-view old cfg i s env e)
]

-- A stored `seq` that is ahead keeps the keys below it.
ahead-Keyed :
    (used : List Str) (keys : List Key) (sid : Str) (m n : ℕ)
    → m ≤ n
    → Keyed used (record { sid = sid; seq = m; keys = keys })
    → Keyed used (record { sid = sid; seq = n; keys = keys })
ahead-Keyed used keys sid m n le h = record {
  current = h.current;
  known = h.known;
  below = All-map keys (λ k f e. omega (arith, f e)) h.below;
  distinct = h.distinct;
}

used_after-Keyed :
    (used : List Str) (es : List (Env × Event)) (v : View)
    → Keyed used v
    → Keyed (used_after used es) v
used_after-Keyed used [] v h = h
used_after-Keyed used ((env, e) ∷ es) v h =
    used_after-Keyed (env.new_id ∷ used) es v (more-Keyed used env.new_id v h)

start-Keyed :
    (used : List Str) (old : List Key) (cfg : Config) (random : ℕ) (failed : Bool) (i : Identity)
    (s : Store) (env : Env) {t : Tracker}
    → ¬ In env.new_id used
    → Keyed used (record { sid = s.sid; seq = s.seq; keys = old })
    → start cfg random failed i s env ≡ some t
    → Keyed (env.new_id ∷ used) (view old t)
start-Keyed used old cfg random failed i s env new k h =
    elim (start-view old cfg random failed i s env h) [
      | inl e ↦ rw e (more-Keyed used env.new_id _ k)
      | inr e ↦ rw e (renewed-Keyed used env.new_id _ new k)
    ]

Stored-Keyed :
    (used : List Str) (old : List Key) (t : Tracker)
    → Stored t
    → Keyed used (view old t)
    → Keyed used (record { sid = t.store.sid; seq = t.store.seq; keys = event_keys old t.sent })
Stored-Keyed used old t v k =
    rw v.same_visit (ahead-Keyed used _ t.session_id t.seq t.store.seq v.seq_reached k)

load_page-Keyed :
    (used : List Str) (p : PageLoad) (tab : Tab)
    → ¬ In p.env.new_id used
    → NewIds (p.env.new_id ∷ used) p.happens
    → tab.store.writable ≡ true
    → Keyed used (store_view tab)
    → Keyed (ids_after used p) (store_view (load_page p tab))
      × ((load_page p tab).store.writable ≡ true)
unfolding load_page
load_page-Keyed used p tab new news w k =
    elim (Option-cases (start p.cfg p.random p.failed p.identity tab.store p.env)) [
      | inl e ↦ rw e (used_after-Keyed (p.env.new_id ∷ used) p.happens _ (more-Keyed used _ _ k), w)
      | inr (t, e) ↦
          let v =
            run-Stored p.happens t (start-Stored p.cfg p.random p.failed p.identity _ p.env w e) in
          rw e (
            Stored-Keyed _ tab.keys _ v (
                run-Keyed tab.keys p.happens _ t news
                  (start-Keyed used tab.keys p.cfg p.random p.failed p.identity _ p.env new k e)),
            v.writable,
          )
    ]

browse-Keyed :
    (ps : List PageLoad) (used : List Str) (tab : Tab)
    → AllNew used ps
    → tab.store.writable ≡ true
    → Keyed used (store_view tab)
    → Distinct (browse ps tab).keys
unfolding browse
browse-Keyed [] used tab n w k = k.distinct
browse-Keyed (p ∷ ps) used tab n w k =
    let next = load_page-Keyed used p tab n.0 n.1 w k in
    browse-Keyed ps (ids_after used p) (load_page p tab) n.2 next.1 next.0

-- In a tab whose session storage takes writes and whose made-up identifiers do not repeat, no two
-- batches of recorded events are sent under the same session and `seq`, over any number of page
-- loads and whatever happens on each.
pub browse-Distinct :
    (ps : List PageLoad) (s : Store)
    → s.writable ≡ true
    → AllNew (s.sid ∷ []) ps
    → Distinct (browse ps (record { store = s; keys = [] })).keys
browse-Distinct ps s w n =
    browse-Keyed ps (s.sid ∷ []) _ n w
      (record { current = inl refl; known = tt; below = tt; distinct = tt })
