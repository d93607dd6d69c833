-- ===== src/Tracker/Widget/Races.antt =====
-- What can be mounted at once, and what every call of `expand` comes to (tracker/src/main.ts).
use trace_ux.Base.{
  ℕ, suc, ◌+◌, ◌≤◌, ◌≡◌, ◌≢◌, refl, ap, ◌∙◌, ◌⊎◌, inl, Bool, true, false, Option, none, some, List,
  [], ◌∷◌, arith, length, Str, if◌then◌else◌,
}
use trace_ux.Tracker.Widget.{
  Setup, WidgetCfg, Phase, idle, showing, remounting, opened, Mount, unmounted, mount_widget,
  import_failed, import_done, destroy, assign_mounted, without,
}
use trace_ux.Tracker.Widget.Expand.{
  Event, mount, importing, import_breaks, expand, replied, proceed, remounted, visitor_opens,
  visitor_closes, campaign_finished, stop, busy, expand_begin, expand_reply, expand_show,
  expand_remounted, step, run, on_proceed, on_remounted,
}

abbrev pub at_work : Phase → ℕ
at_work p = if busy p then 1 else 0

abbrev expands_in : Event → ℕ
expands_in (mount a) = 0
expands_in (importing b) = 0
expands_in import_breaks = 0
expands_in (expand s i) = 1
expands_in (replied r) = 0
expands_in (proceed b) = 0
expands_in (remounted a b c) = 0
expands_in visitor_opens = 0
expands_in visitor_closes = 0
expands_in campaign_finished = 0
expands_in stop = 0

abbrev pub expand_calls : List Event → ℕ
expand_calls [] = 0
expand_calls (e ∷ es) = expands_in e + expand_calls es

abbrev pub answered_or_open : Mount → ℕ
answered_or_open m = length m.results + at_work m.phase

mount-results :
    (s : Setup) (available : Option Str → Bool) (a : Option Str) (m : Mount)
    → answered_or_open (mount_widget s available a m) ≡ answered_or_open m
unfolding mount_widget
mount-results s available a m = ground arith

step-results :
    (s : Setup) (available : Option Str → Bool) (e : Event) (m : Mount)
    → answered_or_open (step s available e m) ≡ answered_or_open m + expands_in e
unfolding step
step-results s available (mount a) m = omega (arith, mount-results s available a m)
step-results s available (importing b) m = unfold import_done assign_mounted in ground arith
step-results s available import_breaks m = unfold import_failed in ground arith
step-results s available (expand st i) m = unfold expand_begin in ground arith
step-results s available (replied r) m = unfold expand_reply in ground arith
step-results s available (proceed b) m = unfold expand_show destroy in ground arith
step-results s available (remounted a b c) m =
    unfold expand_remounted assign_mounted in ground arith
step-results s available visitor_opens m = ground arith
step-results s available visitor_closes m = ground arith
step-results s available campaign_finished m =
    unfold destroy in
    ground (arith, mount-results s available none m, mount-results s available none (destroy m))
step-results s available stop m = unfold destroy in ground arith

run-results :
    (s : Setup) (available : Option Str → Bool) (es : List Event) (m : Mount)
    → answered_or_open (run s available es m) ≡ answered_or_open m + expand_calls es
unfolding run
run-results s available [] m = omega arith
run-results s available (e ∷ es) m =
    omega (arith, run-results s available es (step s available e m), step-results s available e m)

-- Each call of `expand` gets one result: whatever happens, there are as many results as calls, less
-- one while a call is under way.
pub expands_answered :
    (s : Setup) (available : Option Str → Bool) (es : List Event)
    → answered_or_open (run s available es unmounted) ≡ expand_calls es
expands_answered s available es = omega (arith, run-results s available es unmounted)

-- At most one widget is there, the one that the tracker knows of; none while its module loads, and
-- none after `stop`.
record Single (m : Mount) : Type 0 where
  one : ((m.widget ≡ none) × (m.live ≡ [])) ⊎ ((w : ℕ) × (m.widget ≡ some w) × (m.live ≡ w ∷ []))
  loading_none : m.loading ≡ true → m.widget ≡ none
  stopped_none : m.disposed ≡ true → m.widget ≡ none

mount_widget-Single :
    (s : Setup) (available : Option Str → Bool) (a : Option Str) (m : Mount)
    → Single m
    → Single (mount_widget s available a m)
unfolding mount_widget
mount_widget-Single s available a m v = ground arith

destroy-Single : (m : Mount) → Single m → Single (destroy m) × ((destroy m).widget ≡ none)
unfolding destroy without
destroy-Single m v = ground arith

mount_widget-phase :
    (s : Setup) (available : Option Str → Bool) (a : Option Str) (m : Mount)
    → (mount_widget s available a m).phase ≡ m.phase
unfolding mount_widget
mount_widget-phase s available a m = ground arith

destroy-phase : (m : Mount) → (destroy m).phase ≡ m.phase
unfolding destroy
destroy-phase m = ground arith

step-Single :
    (s : Setup) (available : Option Str → Bool) (e : Event) (m : Mount)
    → expands_in e ≡ 0
    → m.phase ≡ idle
    → Single m
    → Single (step s available e m) × ((step s available e m).phase ≡ idle)
unfolding step
step-Single s available (mount a) m n p v =
    (mount_widget-Single s available a m v, mount_widget-phase s available a m ∙ p)
step-Single s available (importing b) m n p v = unfold import_done assign_mounted in ground arith
step-Single s available import_breaks m n p v = unfold import_failed in ground arith
step-Single s available (expand st i) m n p v = absurd (omega (arith, n))
step-Single s available (replied r) m n p v = ground arith
step-Single s available (proceed b) m n p v = ground arith
step-Single s available (remounted a b c) m n p v = ground arith
step-Single s available visitor_opens m n p v = ground arith
step-Single s available visitor_closes m n p v = ground arith
step-Single s available campaign_finished m n p v =
    let w = mount_widget-Single s available none (destroy m) (destroy-Single m v).0 in
    (
      ground (arith, w),
      ground (arith, mount_widget-phase s available none (destroy m), destroy-phase m),
    )
step-Single s available stop m n p v = unfold destroy without in ground arith

run-Single :
    (s : Setup) (available : Option Str → Bool) (es : List Event) (m : Mount)
    → expand_calls es ≡ 0
    → m.phase ≡ idle
    → Single m
    → Single (run s available es m)
unfolding run
run-Single s available [] m n p v = v
run-Single s available (e ∷ es) m n p v =
    let (w, q) = step-Single s available e m (omega (arith, n)) p v in
    run-Single s available es (step s available e m) (omega (arith, n)) q w

-- A page that never calls `expand` has at most one widget at a time, and none once the tracker was
-- stopped, whatever else happens and in whatever order.
pub one_widget :
    (s : Setup) (available : Option Str → Bool) (es : List Event)
    → expand_calls es ≡ 0
    → let m = run s available es unmounted in
      (length m.live ≤ 1) × ((m.disposed ≡ false) ⊎ (m.live ≡ []))
one_widget s available es h =
    let v =
      run-Single s available es unmounted h refl
        (record { one = inl (refl, refl); loading_none = λ e. refl; stopped_none = λ e. refl }) in
    ground (arith, v)

after_stop :
    (s : Setup) (available : Option Str → Bool) (m : Mount)
    → m.disposed ≡ false
    → let a = step s available stop m in
      (a.phase ≡ m.phase)
      × (a.loading ≡ m.loading)
      × (a.widget ≡ none)
      × (a.disposed ≡ true)
      × (a.results ≡ m.results)
unfolding step destroy
after_stop s available m d = ground arith

after_proceed :
    (s : Setup) (available : Option Str → Bool) (a : Mount) (key token : Str) (shows : Bool)
    → a.phase ≡ showing key token
    → a.loading ≡ false
    → a.widget ≡ none
    → let b = step s available (proceed shows) a in
      (b.phase ≡ remounting key token) × (b.disposed ≡ a.disposed) × (b.results ≡ a.results)
unfolding step expand_show destroy
after_proceed s available a key token shows p l w = rw (p, on_proceed) (ground arith)

after_remounted :
    (s : Setup) (available : Option Str → Bool) (b : Mount) (key token : Str)
    → b.phase ≡ remounting key token
    → let c = step s available (remounted true true true) b in
      (c.disposed ≡ b.disposed) × (c.live ≢ []) × (c.results ≡ opened key ∷ b.results)
unfolding step expand_remounted assign_mounted
after_remounted s available b key token p = rw (p, on_remounted) (refl, (λ e. cc), refl)

-- `stop` does not end a call of `expand` that goes on: one that was granted mounts a widget and
-- reports it opened on a tracker that was stopped before.
pub expand_outlives_stop :
    (s : Setup) (available : Option Str → Bool) (m : Mount) (key token : Str) (shows : Bool)
    → m.phase ≡ showing key token
    → m.disposed ≡ false
    → m.loading ≡ false
    → let u = run s available (stop ∷ proceed shows ∷ remounted true true true ∷ []) m in
      (u.disposed ≡ true) × (u.live ≢ []) × (u.results ≡ opened key ∷ m.results)
unfolding run
expand_outlives_stop s available m key token shows p d l =
    let a = step s available stop m in
    let fa = after_stop s available m d in
    let fb = after_proceed s available a key token shows (fa.0 ∙ p) (fa.1 ∙ l) fa.2 in
    let fc = after_remounted s available (step s available (proceed shows) a) key token fb.0 in
    (fc.0 ∙ (fb.1 ∙ fa.3), fc.1, fc.2 ∙ ap (λ r. opened key ∷ r) (fb.2 ∙ fa.4))

after_mount :
    (s : Setup) (available : Option Str → Bool) (m : Mount) (w : WidgetCfg)
    → s.opt_in ≡ true
    → s.widget ≡ some w
    → w.enabled ≡ true
    → w.updates_enabled ≡ true
    → m.widget ≡ none
    → m.disposed ≡ false
    → m.loading ≡ false
    → let a = step s available (mount none) m in
      (a.loading ≡ true)
      × (a.disposed ≡ false)
      × (a.phase ≡ m.phase)
      × (a.live ≡ m.live)
      × (a.next ≡ m.next)
unfolding step mount_widget
after_mount s available m w o sw we wu mw d l = ground arith

after_import :
    (s : Setup) (available : Option Str → Bool) (a : Mount)
    → a.loading ≡ true
    → a.disposed ≡ false
    → let b = step s available (importing true) a in
      (b.phase ≡ a.phase) × (b.live ≡ a.next ∷ a.live) × (b.next ≡ suc a.next)
unfolding step import_done assign_mounted
after_import s available a l d = ground arith

after_remounted_live :
    (s : Setup) (available : Option Str → Bool) (b : Mount) (key token : Str)
    → b.phase ≡ remounting key token
    → (step s available (remounted true true true) b).live ≡ b.next ∷ b.live
unfolding step expand_remounted assign_mounted
after_remounted_live s available b key token p = rw (p, on_remounted) refl

-- While `expand` waits for the module to mount the widget anew, a route change mounts another one:
-- with updates switched on, two widgets are on the page, and the tracker knows one of them.
pub mount_races_expand :
    (s : Setup) (available : Option Str → Bool) (m : Mount) (w : WidgetCfg) (key token : Str)
    → s.opt_in ≡ true
    → s.widget ≡ some w
    → w.enabled ≡ true
    → w.updates_enabled ≡ true
    → m.phase ≡ remounting key token
    → m.widget ≡ none
    → m.live ≡ []
    → m.disposed ≡ false
    → m.loading ≡ false
    → let u = run s available (mount none ∷ importing true ∷ remounted true true true ∷ []) m in
      u.live ≡ suc m.next ∷ m.next ∷ []
unfolding run
mount_races_expand s available m w key token o sw we wu p mw ml d l =
    let a = step s available (mount none) m in
    let fa = after_mount s available m w o sw we wu mw d l in
    let fb = after_import s available a fa.0 fa.1 in
    rw
      (after_remounted_live s available (step s available (importing true) a) key token
        (fb.0 ∙ (fa.2 ∙ p)))
      (rw (fb.1, fb.2, fa.3, fa.4, ml))
