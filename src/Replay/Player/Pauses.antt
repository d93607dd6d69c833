-- ===== src/Replay/Player/Pauses.antt =====
-- What pausing promises (dashboard/src/components/replay/ReplayPlayer/hooks/useReplayPlayer.ts,
-- togglePlayback).
use trace_ux.Base.{ℕ, ◌+◌, ◌≤◌, ◌≡◌, true, false, List, [], ◌∷◌, arith, if◌then◌else◌, All}
use trace_ux.Replay.{clamp_landing}
use trace_ux.Replay.Player.{
  Output, goto, pauses, reports, asks_loader, Player, Change, passes, jumps, lands, change,
  run_changes, set_repositioning, seek_to_offset, Background, time_passes, state_changes, finishes,
  more_events, appended, buffering_is, builds, background, on_current_time, on_player_state,
  on_finish, on_more_events, append_events, set_buffering, build, toggle_playback, Build,
}

-- How often rrweb was told to play.
abbrev pub play_count : List Output → ℕ
play_count [] = 0
play_count (goto t b ∷ os) = (if b then 1 else 0) + play_count os
play_count (pauses ∷ os) = play_count os
play_count (reports t ∷ os) = play_count os
play_count (asks_loader t ∷ os) = play_count os

-- rrweb does not say of itself that it plays.
abbrev Silent : Background → Type 0
Silent (time_passes now value) = Unit
Silent (state_changes playing) = playing ≡ false
Silent finishes = Unit
Silent (more_events last) = Unit
Silent (appended es) = Unit
Silent (buffering_is b token clock) = Unit
Silent (builds b clock) = Unit

record Resting (n : ℕ) (p : Player) : Type 0 where
  wants : p.wants_to_play ≡ false
  plays : p.is_playing ≡ false
  autoplay : p.autoplay ≡ false
  count : play_count p.outputs ≡ n

background-Resting :
    (n : ℕ) (b : Background) (p : Player) → Silent b → Resting n p → Resting n (background b p)
unfolding background
background-Resting n (time_passes now value) p q f = unfold on_current_time in ground (arith, f)
background-Resting n (state_changes playing) p q f = unfold on_player_state in ground (arith, f, q)
background-Resting n finishes p q f = unfold on_finish in ground (arith, f)
background-Resting n (more_events last) p q f = unfold on_more_events in ground (arith, f)
background-Resting n (appended []) p q f = unfold append_events in f
background-Resting n (appended (e ∷ es)) p q f = unfold append_events in ground (arith, f)
background-Resting n (buffering_is b token clock) p q f = unfold set_buffering in ground (arith, f)
background-Resting n (builds b clock) p q f = unfold build in ground (arith, f)

-- And the loader lands no seek that was to play.
abbrev pub Quiet : Change → Type 0
Quiet (passes b) = Silent b
Quiet (jumps b) = Unit
Quiet (lands offset play) = play ≡ false

change-Resting : (n : ℕ) (c : Change) (p : Player) → Quiet c → Resting n p → Resting n (change c p)
unfolding change
change-Resting n (passes b) p q f = background-Resting n b p q f
change-Resting n (jumps b) p q f = unfold set_repositioning in ground (arith, f)
change-Resting n (lands offset play) p q f = unfold seek_to_offset in ground (arith, f, q)

run-Resting :
    (n : ℕ) (cs : List Change) (p : Player)
    → All Quiet cs
    → Resting n p
    → Resting n (run_changes cs p)
unfolding run_changes
run-Resting n [] p q f = f
run-Resting n (c ∷ cs) p (q, qs) f = run-Resting n cs (change c p) qs (change-Resting n c p q f)

toggle-Resting :
    (clock : ℕ) (p : Player)
    → p.is_playing ≡ true
    → p.buffering ≡ false
    → p.autoplay ≡ false
    → Resting (play_count p.outputs) (toggle_playback clock p)
unfolding toggle_playback
toggle-Resting clock p i b a = ground (arith, i, b, a)

-- Where autoplay is off, a player that the visitor paused stays paused, until the visitor plays it,
-- rrweb starts of itself or the loader lands a seek that was to play: no page that arrives, no end of
-- the buffer, no stall, no jump, no other landing and no player built anew tells rrweb to play again.
pub pause_holds :
    (clock : ℕ) (cs : List Change) (p : Player)
    → p.is_playing ≡ true
    → p.buffering ≡ false
    → p.autoplay ≡ false
    → All Quiet cs
    → let q = run_changes cs (toggle_playback clock p) in
      (q.is_playing ≡ false) × (play_count q.outputs ≡ play_count p.outputs)
pause_holds clock cs p i b a q =
    let f =
      run-Resting (play_count p.outputs) cs (toggle_playback clock p) q
        (toggle-Resting clock p i b a) in
    (f.plays, f.count)

-- A landing that was to play does play, though the visitor paused.
pub landing_plays :
    (clock offset : ℕ) (p : Player)
    → p.built ≡ true
    → p.built_start ≤ p.built_end
    → (change (lands offset true) (toggle_playback clock p)).is_playing ≡ true
unfolding change seek_to_offset toggle_playback clamp_landing
landing_plays clock offset p u o = ground (arith, u, o)

-- With autoplay on it does not: when the visitor pauses in the first half second of the window and
-- its box is then resized, the player that is built anew plays.
pub resize_restarts :
    (clock : ℕ) (b : Build) (p : Player)
    → p.autoplay ≡ true
    → p.is_playing ≡ true
    → p.buffering ≡ false
    → p.built ≡ true
    → clock ≤ 500
    → b.token ≡ p.built_token
    → b.moved ≡ true
    → b.throws ≡ false
    → ((toggle_playback clock p).is_playing ≡ false)
      × ((build b clock (toggle_playback clock p)).is_playing ≡ true)
unfolding toggle_playback build
resize_restarts clock b p a i f u c t m h = ground (arith, a, i, f, u, c, t, m, h)
