-- ===== src/Replay/Player/Periods.antt =====
-- The inactive stretches and the size of a recording
-- (dashboard/src/components/replay/ReplayPlayer/hooks/useReplayPlayer.ts, getInactivePeriods and
-- metaViewport).
use trace_ux.Base.{
  ℕ, ◌+◌, ◌≤◌, ◌<◌, ◌≡◌, ◌&&◌, none, some, List, [], ◌∷◌, arith, max, ltb, if◌then◌else◌,
  Bool-cases, inl, inr, filter, map,
}
use trace_ux.Replay.{TimedEvent, last_timestamp}
use trace_ux.Replay.Player.{
  InactivePeriod, active_event, periods_from, inactive_periods, sizes, viewport_from, meta_viewport,
}

-- The events are in the order of time, from `t` on.
abbrev pub InTime : ℕ → List TimedEvent → Type 0
InTime t [] = Unit
InTime t (e ∷ es) = (t ≤ e.timestamp) × InTime e.timestamp es

-- From `t` to `u`: periods of more than ten seconds, one after the other.
abbrev pub Spaced : ℕ → ℕ → List InactivePeriod → Type 0
Spaced t u [] = t ≤ u
Spaced t u (p ∷ ps) = (t ≤ p.start) × (p.start + 10_000 < p.end) × Spaced p.end u ps

Spaced-weaken : (s t u : ℕ) (ps : List InactivePeriod) → s ≤ t → Spaced t u ps → Spaced s u ps
Spaced-weaken s t u [] h v = omega (arith, h, v)
Spaced-weaken s t u (p ∷ ps) h v = (omega (arith, h, v.0), v.1, v.2)

last_timestamp-ge : (t : ℕ) (es : List TimedEvent) → InTime t es → t ≤ last_timestamp t es
unfolding last_timestamp
last_timestamp-ge t [] h = omega arith
last_timestamp-ge t (e ∷ es) h = omega (arith, h.0, last_timestamp-ge e.timestamp es h.1)

-- `active` is the last activity, `t` the time that the walk has come to.
periods_from-Spaced :
    (active t : ℕ) (es : List TimedEvent)
    → active ≤ t
    → InTime t es
    → Spaced active (last_timestamp t es) (periods_from active es)
unfolding periods_from last_timestamp
periods_from-Spaced active t [] h v = h
periods_from-Spaced active t (e ∷ es) h v = elim (Bool-cases (active_event e)) [
  | inl a ↦ elim (Bool-cases (ltb (active + 10_000) e.timestamp)) [
    | inl g ↦ ground (arith, a, g, periods_from-Spaced e.timestamp e.timestamp es (omega arith) v.1)
    | inr g ↦ ground (
      arith,
      a,
      g,
      Spaced-weaken active e.timestamp (last_timestamp e.timestamp es) (periods_from e.timestamp es)
          (omega (arith, h, v.0))
          (periods_from-Spaced e.timestamp e.timestamp es (omega arith) v.1),
    )
  ]
  | inr a ↦ ground (arith, a, periods_from-Spaced active e.timestamp es (omega (arith, h, v.0)) v.1)
]

-- In a recording whose events are in the order of time, the inactive periods that the timeline
-- shows are longer than ten seconds each, do not overlap, stand in their order, and lie between the
-- recording's first event and its last.
pub inactive_periods-Spaced :
    (e f : TimedEvent) (es : List TimedEvent)
    → InTime e.timestamp (f ∷ es)
    → Spaced e.timestamp (last_timestamp f.timestamp es) (inactive_periods (e ∷ f ∷ es))
unfolding inactive_periods
inactive_periods-Spaced e f es h =
    unfold last_timestamp in
    periods_from-Spaced e.timestamp e.timestamp (e ∷ f ∷ es) (omega arith) (omega arith, h)

-- The largest number, none for an empty list.
unfoldable pub largest : List ℕ → ℕ
largest [] = 0
largest (n ∷ ns) = max n (largest ns)

viewport_from-largest :
    (w h : ℕ) (es : List TimedEvent)
    → ((viewport_from w h es).0 ≡ max w (largest (map (λ e. e.width) (filter sizes es))))
      × ((viewport_from w h es).1 ≡ max h (largest (map (λ e. e.height) (filter sizes es))))
unfolding viewport_from largest filter
viewport_from-largest w h [] = (omega arith, omega arith)
viewport_from-largest w h (e ∷ es) = elim (Bool-cases (sizes e)) [
  | inl s ↦ ground (
    arith,
    s,
    viewport_from-largest (if sizes e && ltb w e.width then e.width else w)
        (if sizes e && ltb h e.height then e.height else h) es,
  )
  | inr s ↦ ground (
    arith,
    s,
    viewport_from-largest (if sizes e && ltb w e.width then e.width else w)
        (if sizes e && ltb h e.height then e.height else h) es,
  )
]

-- The size of a recording is the largest width and the largest height of all its events that tell
-- a size, and there is none where one of the two is zero.
pub meta_viewport-largest :
    (es : List TimedEvent)
    → let w = largest (map (λ e. e.width) (filter sizes es)) in
      let h = largest (map (λ e. e.height) (filter sizes es)) in
      meta_viewport es ≡ (if ltb 0 w && ltb 0 h then some (w, h) else none)
unfolding meta_viewport
meta_viewport-largest es = ground (arith, viewport_from-largest 0 0 es)
