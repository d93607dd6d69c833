-- ===== src/Replay/Loader/Windows.antt =====
-- The window that a jump opens (dashboard/src/pages/Replay/hooks/useReplay.ts, jumpTo).
use trace_ux.Base.{
  ◌≡◌, refl, inl, inr, true, false, Option, none, some, List, [], ◌∷◌, ◌++◌, if◌then◌else◌, arith,
  Bool-cases, ap, ◌∙◌,
}
use trace_ux.Replay.{
  TimedEvent, is_snapshot, is_meta, has_snapshot, from_snapshot, viewport_before, with_viewport,
  trim_window,
}

-- The events before the first snapshot, and those from it on.
pub split_at_snapshot :
    (es : List TimedEvent)
    → has_snapshot es ≡ true
    → (before : List TimedEvent) × (s : TimedEvent) × (after : List TimedEvent) × (es
        ≡ before ++ s ∷ after)
      × (is_snapshot s ≡ true)
      × (has_snapshot before ≡ false)
      × (from_snapshot es ≡ s ∷ after)
unfolding has_snapshot from_snapshot
split_at_snapshot [] h = absurd cc
split_at_snapshot (e ∷ es) h = elim (Bool-cases (is_snapshot e)) [
  | inl q ↦ ([], e, es, refl, q, refl, ground (arith, q))
  | inr q ↦
      let (before, s, after, p, i, n, f) = split_at_snapshot es (ground (arith, h, q)) in
      (e ∷ before, s, after, ap (λ xs. e ∷ xs) p, i, ground (arith, q, n), ground (arith, q, f))
]

-- The last Meta event of a list, or what stands before it.
unfoldable pub last_meta : Option TimedEvent → List TimedEvent → Option TimedEvent
last_meta seen [] = seen
last_meta seen (e ∷ es) = last_meta (if is_meta e then some e else seen) es

viewport_before-last :
    (seen : Option TimedEvent) (before : List TimedEvent) (s : TimedEvent) (after : List TimedEvent)
    → is_snapshot s ≡ true
    → has_snapshot before ≡ false
    → viewport_before seen (before ++ s ∷ after) ≡ last_meta seen before
unfolding viewport_before last_meta has_snapshot
viewport_before-last seen [] s after i n = ground (arith, i)
viewport_before-last seen (e ∷ before) s after i n = ground (
  arith,
  n,
  viewport_before-last (if is_meta e then some e else seen) before s after i (ground (arith, n)),
)

-- Where a snapshot was loaded, the window that a jump opens is the first snapshot and everything
-- after it, behind the last Meta event before it where there is one; nothing else is kept of what
-- comes before.
pub trim_window_lem :
    (es : List TimedEvent)
    → has_snapshot es ≡ true
    → (before : List TimedEvent) × (s : TimedEvent) × (after : List TimedEvent) × (es
        ≡ before ++ s ∷ after)
      × (is_snapshot s ≡ true)
      × (has_snapshot before ≡ false)
      × (trim_window es ≡ with_viewport (last_meta none before) (s ∷ after))
unfolding trim_window
trim_window_lem es h =
    let (before, s, after, p, i, n, f) = split_at_snapshot es h in
    (
      before,
      s,
      after,
      p,
      i,
      n,
      rw h (
          rw f (
            ap (λ v. with_viewport v (s ∷ after))
              (ap (viewport_before none) p ∙ viewport_before-last none before s after i n))),
    )
