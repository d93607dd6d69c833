-- ===== src/Replay/Player/Landing.antt =====
-- The loader's own seek, and what a player reports while one is on its way
-- (dashboard/src/components/replay/ReplayPlayer/hooks/useReplayPlayer.ts, seekToOffset).
use trace_ux.Base.{
  ℕ, suc, ◌-◌, ◌≤◌, ◌<◌, ◌≡◌, Bool, true, false, none, List, [], ◌∷◌, arith, max, inl, inr, ◌⊎◌, ap,
}
use trace_ux.Replay.{clamp_landing}
use trace_ux.Replay.Loader.{Loader, landing, start_of, buffered}
use trace_ux.Replay.Player.{
  Output, goto, pauses, reports, asks_loader, Player, seek_to_offset, seek_target, seek_inside,
  Background, time_passes, state_changes, finishes, more_events, appended, buffering_is, builds,
  background, run, on_current_time, on_player_state, on_finish, on_more_events, append_events,
  set_buffering, build,
}

clamp_bounds : (a b o : ℕ) → a ≤ b → (a ≤ clamp_landing a b o) × (clamp_landing a b o ≤ b)
unfolding clamp_landing
clamp_bounds a b o h = omega (arith, h)

clamp_twice : (a b o : ℕ) → clamp_landing a b (clamp_landing a b o) ≡ clamp_landing a b o
unfolding clamp_landing
clamp_twice a b o = omega arith

inside_lands :
    (t : ℕ) (play : Bool) (p : Player)
    → p.built ≡ true
    → seek_target true t p ≡ t
    → p.built_start ≤ t
    → t ≤ p.built_end
    → seek_to_offset t play true p
      ≡ seek_inside t play (record p { waiting_at_end = none; resume_after_buffering = false })
unfolding seek_to_offset
inside_lands t play p b e l u = ground (arith, b, e, l, u)

-- The loader's landing is final: a player that holds the loader's window takes a landing exactly
-- where the loader put it, inside the window, whatever position was asked for and whatever the
-- loader is doing; it never hands the seek back, and it plays if and only if it was asked to.
pub landing_is_final :
    (l : Loader) (offset : ℕ) (play : Bool) (p : Player)
    → p.built ≡ true
    → p.built_start ≡ start_of l
    → p.built_end ≡ buffered l
    → start_of l ≤ buffered l
    → let t = landing l offset in
      let q = seek_to_offset t play true p in
      (q.current_time ≡ t)
      × (q.is_playing ≡ play)
      × (q.awaiting_landing ≡ false)
      × (start_of l ≤ t)
      × (t ≤ buffered l)
      × (q.outputs ≡ reports t ∷ goto (t - p.built_start) play ∷ p.outputs)
unfolding landing
landing_is_final l offset play p b s e h =
    let t = landing l offset in
    let (lo, hi) = clamp_bounds (start_of l) (buffered l) offset h in
    let stays : seek_target true t p ≡ t =
      ground (arith, s, e, clamp_twice (start_of l) (buffered l) offset) in
    let q = inside_lands t play p b stays (omega (arith, s, lo)) (omega (arith, e, hi)) in
    (
      ap (λ u. u.current_time) q,
      ap (λ u. u.is_playing) q,
      ap (λ u. u.awaiting_landing) q,
      lo,
      hi,
      ap (λ u. u.outputs) q,
    )

abbrev pub report_count : List Output → ℕ
report_count [] = 0
report_count (goto t b ∷ os) = report_count os
report_count (pauses ∷ os) = report_count os
report_count (reports t ∷ os) = suc (report_count os)
report_count (asks_loader t ∷ os) = report_count os

-- A player whose seek the loader works on: its clock stands, and it has nothing to go on with.
record Frozen (t n : ℕ) (p : Player) : Type 0 where
  time : p.current_time ≡ t
  awaits : p.awaiting_landing ≡ true
  wants : p.wants_to_play ≡ false
  reported : report_count p.outputs ≡ n

background-Frozen :
    (t n : ℕ) (b : Background) (p : Player) → Frozen t n p → Frozen t n (background b p)
unfolding background
background-Frozen t n (time_passes now value) p f = unfold on_current_time in ground (arith, f)
background-Frozen t n (state_changes playing) p f = unfold on_player_state in ground (arith, f)
background-Frozen t n finishes p f = unfold on_finish in ground (arith, f)
background-Frozen t n (more_events last) p f = unfold on_more_events in ground (arith, f)
background-Frozen t n (appended []) p f = unfold append_events in f
background-Frozen t n (appended (e ∷ es)) p f = unfold append_events in ground (arith, f)
background-Frozen t n (buffering_is b token clock) p f = unfold set_buffering in ground (arith, f)
background-Frozen t n (builds b clock) p f = unfold build in ground (arith, f)

run-Frozen : (t n : ℕ) (bs : List Background) (p : Player) → Frozen t n p → Frozen t n (run bs p)
unfolding run
run-Frozen t n [] p f = f
run-Frozen t n (b ∷ bs) p f = run-Frozen t n bs (background b p) (background-Frozen t n b p f)

outside-Frozen :
    (offset : ℕ) (play : Bool) (p : Player)
    → p.built ≡ true
    → (p.repositioning ≡ true)
      ⊎ (max p.first_ts offset < p.built_start)
      ⊎ (p.built_end < max p.first_ts offset)
    → Frozen (max p.first_ts offset) (report_count p.outputs) (seek_to_offset offset play false p)
unfolding seek_to_offset
outside-Frozen offset play p b (inl r) = ground (arith, b, r)
outside-Frozen offset play p b (inr (inl r)) = ground (arith, b, r)
outside-Frozen offset play p b (inr (inr r)) = ground (arith, b, r)

-- A seek outside the window, or one while the stream is repositioned, shows its target at once and
-- keeps showing it: whatever the old player or the ones built after it report, until the loader
-- lands or gives up, the position does not move, nothing is reported to the loader, and playback
-- does not want to go on.
pub jump_keeps_position :
    (offset : ℕ) (play : Bool) (bs : List Background) (p : Player)
    → p.built ≡ true
    → (p.repositioning ≡ true)
      ⊎ (max p.first_ts offset < p.built_start)
      ⊎ (p.built_end < max p.first_ts offset)
    → let q = run bs (seek_to_offset offset play false p) in
      (q.current_time ≡ max p.first_ts offset)
      × (q.awaiting_landing ≡ true)
      × (q.wants_to_play ≡ false)
      × (report_count q.outputs ≡ report_count p.outputs)
jump_keeps_position offset play bs p b o =
    let f =
      run-Frozen (max p.first_ts offset) (report_count p.outputs) bs
        (seek_to_offset offset play false p) (outside-Frozen offset play p b o) in
    (f.time, f.awaits, f.wants, f.reported)
