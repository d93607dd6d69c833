-- ===== src/Replay/Player.antt =====
-- The replay player, useReplayPlayer of
-- dashboard/src/components/replay/ReplayPlayer/hooks/useReplayPlayer.ts: seeking, playing, buffering
-- and building anew. The rrweb player itself is outside: what its clock says is an argument, and the
-- calls of it are outputs, newest first. It is taken to have `goto`. Positions are on the
-- recording's own clock, as in Replay.
pub mod Landing
pub mod Pauses
pub mod Periods
use trace_ux.Base.{
  ℕ, zero, suc, ◌+◌, ◌-◌, ◌≤◌, Bool, true, false, not, ◌&&◌, ◌||◌, Option, none, some, List, [],
  ◌∷◌, ◌++◌, ltb, leb, ◌==◌, if◌then◌else◌, min, max,
}
use trace_ux.Replay.{TimedEvent, clamp_landing}

pub data Output : Type 0 where
  goto : (position : ℕ) (play : Bool) → Output
  pauses : Output
  reports : ℕ → Output
  asks_loader : ℕ → Output

-- `duration_ms` is zero where the index gave none; `buffering`, `repositioning` and `autoplay` are
-- the parent's. `built` tells whether there is a player.
pub record Player : Type 0 where
  pub first_ts : ℕ
  pub duration_ms : ℕ
  pub autoplay : Bool
  pub buffering : Bool
  pub repositioning : Bool
  pub built : Bool
  pub built_token : ℕ
  pub built_start : ℕ
  pub built_end : ℕ
  pub current_time : ℕ
  pub duration : ℕ
  pub is_playing : Bool
  pub started : Bool
  pub wants_to_play : Bool
  pub awaiting_landing : Bool
  pub resume_after_buffering : Bool
  pub waiting_at_end : Option ℕ
  pub last_reported_at : ℕ
  pub failed : Bool
  pub outputs : List Output

abbrev pub emit : Output → Player → Player
emit o p = record p { outputs = o ∷ p.outputs }

-- `setCurrentTime`, which tells the parent.
abbrev pub set_current_time : ℕ → Player → Player
set_current_time t p = record p { current_time = t; outputs = reports t ∷ p.outputs }

abbrev pub seek_target : Bool → ℕ → Player → ℕ
seek_target from_loader offset p =
    if from_loader then clamp_landing p.built_start p.built_end offset else max p.first_ts offset

-- A target that the loader has to see to.
abbrev pub seek_outside : ℕ → Player → Player
seek_outside target p = record p {
  awaiting_landing = true;
  wants_to_play = false;
  is_playing = false;
  current_time = target;
  outputs = pauses ∷ asks_loader target ∷ p.outputs;
}

abbrev pub seek_inside : ℕ → Bool → Player → Player
seek_inside target play p = record p {
  awaiting_landing = false;
  wants_to_play = play;
  is_playing = play;
  current_time = target;
  started = true;
  outputs = reports target ∷ goto (target - p.built_start) play ∷ p.outputs;
}

unfoldable pub seek_to_offset : ℕ → Bool → Bool → Player → Player
unfolding clamp_landing
seek_to_offset offset play from_loader p =
    let target = seek_target from_loader offset p in
    let p' = record p { waiting_at_end = none; resume_after_buffering = false } in
    if not p.built
    then p
    else if not from_loader && p.repositioning || ltb target p.built_start || ltb p.built_end target
    then seek_outside target p'
    else seek_inside target play p'

-- The control's seek, within the recording's length where that is known.
unfoldable pub seek_player : ℕ → Player → Player
unfolding seek_to_offset
seek_player offset p =
    let o = max p.first_ts offset in
    seek_to_offset (if p.duration == 0 then o else min o (p.first_ts + p.duration)) p.is_playing
      false p

unfoldable pub last_of : ℕ → List TimedEvent → ℕ
last_of t [] = t
last_of t (e ∷ es) = last_of e.timestamp es

unfoldable pub append_events : List TimedEvent → Player → Player
unfolding last_of
append_events [] p = p
append_events (e ∷ es) p =
    if p.built then record p { built_end = max p.built_end (last_of e.timestamp es) } else p

abbrev pub go : ℕ → Bool → Player → Player
go t play p = if p.built then emit (goto t play) p else p

unfoldable pub play_from_start : Player → Player
play_from_start p =
    if p.buffering
    then p
    else set_current_time p.built_start
        (go 0 true (record p { wants_to_play = true; started = true; is_playing = true }))

abbrev pub pause_player : Player → Player
pause_player p = if p.built then emit pauses p else p

-- `clock` is what the rrweb player's own clock says, or 0 without a player.
abbrev pub pause_at : ℕ → Player → Player
pause_at clock p =
    set_current_time (p.built_start + (if p.built then clock else 0))
      (pause_player (record p { wants_to_play = false; waiting_at_end = none; is_playing = false }))

abbrev pub play_target : Player → ℕ
play_target p =
    if ltb 0 p.duration && leb (p.first_ts + p.duration) p.current_time
    then p.built_start
    else p.current_time

abbrev pub play_on : Player → Player
play_on p = set_current_time (play_target p) (
    go (play_target p - p.built_start) true
      (record p { wants_to_play = true; started = true; is_playing = true }))

unfoldable pub toggle_playback : ℕ → Player → Player
toggle_playback clock p =
    if p.buffering then p else if p.is_playing then pause_at clock p else play_on p

-- The effect on `buffering`: with `token`, the parent's rebuildToken.
abbrev pub buffering_starts : Player → Player
buffering_starts p = record (pause_player p) {
  buffering = true;
  is_playing = false;
  resume_after_buffering =
      not p.repositioning && p.wants_to_play && p.built || p.resume_after_buffering;
}

abbrev pub buffering_ends : ℕ → ℕ → Player → Player
buffering_ends token clock p =
    let p' = record p { buffering = false; resume_after_buffering = false } in
    if not p.resume_after_buffering
    then record p { buffering = false }
    else if p.repositioning || not (token == p.built_token) || not p.built || not p.wants_to_play
    then p'
    else record (emit (goto clock true) p') { is_playing = true }

unfoldable pub set_buffering : Bool → ℕ → ℕ → Player → Player
set_buffering b token clock p =
    if b
    then (if p.buffering then p else buffering_starts p)
    else if p.buffering
    then buffering_ends token clock p
    else p

-- The parent's `repositioning` changes: a jump that is over no longer freezes the clock.
unfoldable pub set_repositioning : Bool → Player → Player
set_repositioning b p = record p {
  repositioning = b;
  awaiting_landing = if b then p.awaiting_landing else false;
}

-- rrweb reports its position; `now` is the time of day.
unfoldable pub on_current_time : ℕ → ℕ → Player → Player
on_current_time now value p =
    if not p.built || p.awaiting_landing || ltb (now - p.last_reported_at) 200
    then p
    else set_current_time (p.built_start + value) (record p { last_reported_at = now })

unfoldable pub on_player_state : Bool → Player → Player
on_player_state playing p =
    if p.built then record p { is_playing = playing; started = playing || p.started } else p

-- rrweb has played its last event: more of the recording may come.
unfoldable pub on_finish : Player → Player
on_finish p =
    if p.built
      && ltb 0 p.duration_ms
      && ltb p.built_end (p.first_ts + p.duration_ms)
      && p.wants_to_play
    then set_current_time p.built_end (record p { waiting_at_end = some p.built_end })
    else p

-- The time-out that goes on behind that end, `last` being the last event that there is.
abbrev pub resume_from : Option ℕ → ℕ → Player → Player
resume_from none last p = p
resume_from (some t) last p =
    if p.wants_to_play && ltb t last
    then record (go (t - p.built_start) true p) { waiting_at_end = none; is_playing = true }
    else p

unfoldable pub on_more_events : ℕ → Player → Player
on_more_events last p = resume_from p.waiting_at_end last p

-- What a player is built from: the parent's token and window, its last event, whether the box has
-- moved, whether the constructor throws, and the length that the player states.
pub record Build : Type 0 where
  pub token : ℕ
  pub window_start : ℕ
  pub last : ℕ
  pub moved : Bool
  pub throws : Bool
  pub total_time : ℕ

abbrev pub repositioned : Build → Player → Bool
repositioned b p = not (b.token == p.built_token)

abbrev pub resume_at : Build → ℕ → Player → ℕ
resume_at b clock p = if p.built && not (repositioned b p) && ltb 500 clock then clock else 0

abbrev pub built_player : Build → ℕ → Player → Player
built_player b clock p =
    let at = resume_at b clock p in
    let resume_playing = not (repositioned b p) && p.is_playing in
    let p' = record p {
      built = true;
      built_start = b.window_start;
      built_end = b.last;
      last_reported_at = 0;
      duration = max b.total_time p.duration_ms;
      is_playing = if p.autoplay && at == 0 then true else resume_playing && ltb 0 at;
    } in
    let p'' = if p.awaiting_landing then p' else set_current_time (b.window_start + at) p' in
    if ltb 0 at then record (emit (goto at resume_playing) p'') { started = true } else p''

abbrev pub before_build : Build → Player → Player
before_build b p =
    if repositioned b p
    then record p { built_token = b.token; waiting_at_end = none; resume_after_buffering = false }
    else p

unfoldable pub build : Build → ℕ → Player → Player
build b clock p =
    if not (repositioned b p) && p.built && not b.moved
    then p
    else if b.throws
    then record (before_build b p) { built = false; failed = true }
    else record (built_player b clock p) {
      built_token = b.token;
      waiting_at_end = (before_build b p).waiting_at_end;
      resume_after_buffering = (before_build b p).resume_after_buffering;
    }

-- metaViewport: the sizes of Meta and ViewportResize events.
abbrev pub sizes : TimedEvent → Bool
sizes e = e.kind == 4 || e.kind == 3 && (elim e.source [ none ↦ false | some s ↦ s == 4 ])

unfoldable pub viewport_from : ℕ → ℕ → List TimedEvent → ℕ × ℕ
viewport_from w h [] = (w, h)
viewport_from w h (e ∷ es) =
    viewport_from (if sizes e && ltb w e.width then e.width else w)
      (if sizes e && ltb h e.height then e.height else h) es

unfoldable pub meta_viewport : List TimedEvent → Option (ℕ × ℕ)
unfolding viewport_from
meta_viewport es =
    let (w, h) = viewport_from 0 0 es in if ltb 0 w && ltb 0 h then some (w, h) else none

pub record InactivePeriod : Type 0 where
  pub start : ℕ
  pub end : ℕ

-- An incremental event of the visitor's own doing: its source lies above Mutation, up to Input.
abbrev pub active_event : TimedEvent → Bool
active_event e = e.kind == 3 && (elim e.source [ none ↦ false | some s ↦ ltb 0 s && leb s 5 ])

unfoldable pub periods_from : ℕ → List TimedEvent → List InactivePeriod
periods_from last_active [] = []
periods_from last_active (e ∷ es) =
    let skipped = periods_from last_active es in
    let rest = periods_from e.timestamp es in
    if not (active_event e)
    then skipped
    else if ltb (last_active + 10_000) e.timestamp
    then record { start = last_active; end = e.timestamp } ∷ rest
    else rest

unfoldable pub inactive_periods : List TimedEvent → List InactivePeriod
unfolding periods_from
inactive_periods [] = []
inactive_periods (e ∷ []) = []
inactive_periods (e ∷ f ∷ es) = periods_from e.timestamp (e ∷ f ∷ es)

-- What happens to a player while the visitor does nothing and the loader lands no seek.
pub data Background : Type 0 where
  time_passes : (now value : ℕ) → Background
  state_changes : Bool → Background
  finishes : Background
  more_events : ℕ → Background
  appended : List TimedEvent → Background
  buffering_is : (b : Bool) (token clock : ℕ) → Background
  builds : Build → (clock : ℕ) → Background

unfoldable pub background : Background → Player → Player
background (time_passes now value) p = on_current_time now value p
background (state_changes playing) p = on_player_state playing p
background finishes p = on_finish p
background (more_events last) p = on_more_events last p
background (appended es) p = append_events es p
background (buffering_is b token clock) p = set_buffering b token clock p
background (builds b clock) p = build b clock p

unfoldable pub run : List Background → Player → Player
run [] p = p
run (b ∷ bs) p = run bs (background b p)

-- What the loader does to it as well: it starts or ends a jump, and it hands over a seek.
pub data Change : Type 0 where
  passes : Background → Change
  jumps : Bool → Change
  lands : (offset : ℕ) (play : Bool) → Change

unfoldable pub change : Change → Player → Player
unfolding background set_repositioning seek_to_offset
change (passes b) p = background b p
change (jumps b) p = set_repositioning b p
change (lands offset play) p = seek_to_offset offset play true p

unfoldable pub run_changes : List Change → Player → Player
unfolding change
run_changes [] p = p
run_changes (c ∷ cs) p = run_changes cs (change c p)
