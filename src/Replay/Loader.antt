-- ===== src/Replay/Loader.antt =====
-- Windowed playback, useReplay of dashboard/src/pages/Replay/hooks/useReplay.ts, for one session
-- that stays open. The server's answers, the player's reports and the visitor's seeks are events.
-- A loop that awaits pages is a task, with the rounds that it has left; the code between two awaits
-- is one function. A seek or a report comes from a player, which there is once the boot has ended.
pub mod Keyframes
pub mod Windows
pub mod Seeks
pub mod Steady
pub mod Pages
pub mod Lands
pub mod Holds
use trace_ux.Base.{
  ℕ, zero, suc, ◌+◌, ◌-◌, ◌≤◌, Bool, true, false, not, ◌&&◌, ◌||◌, Option, none, some, List, [],
  ◌∷◌, ◌++◌, ltb, leb, ◌==◌, if◌then◌else◌, length, is_empty,
}
use trace_ux.Replay.{
  TimedEvent, Chunk, Page, Seek, keyframe, last_timestamp, has_snapshot, trim_window, clamp_landing,
}

abbrev pub buffer_ahead_ms : ℕ
buffer_ahead_ms = 15_000

abbrev pub prefetch_within_ms : ℕ
prefetch_within_ms = 5_000

abbrev pub max_window_span_ms : ℕ
max_window_span_ms = 300_000

-- What awaits a page: the boot (`windowed` where there is an index), a seek within the window, a
-- jump to the chunk `seq`, or a prefetch for a position.
pub data Task : Type 0 where
  idle : Task
  booting : (rounds : ℕ) (windowed : Bool) → Task
  extending : (rounds : ℕ) → Seek → Task
  jumping : (rounds : ℕ) (seq : ℕ) → Seek → Task
  prefetching : (rounds : ℕ) (offset : ℕ) → Task

-- `held` is what the player on the screen was built from and fed with; `landings` are the seeks
-- that it was handed, newest first. `window_start` is none for the recording's start.
pub record Loader : Type 0 where
  pub events : List TimedEvent
  pub next_seq : ℕ
  pub exhausted : Bool
  pub have_snapshot : Bool
  pub first_ts : ℕ
  pub index : List Chunk
  pub task : Task
  pub pending : Option Seek
  pub queued : Option Seek
  pub window_seq : Option ℕ
  pub window_start : Option ℕ
  pub buffering : Bool
  pub loaded : Bool
  pub failed : Bool
  pub held : List TimedEvent
  pub landings : List Seek

-- `repositioning.current`.
abbrev pub repositions : Task → Bool
repositions idle = false
repositions (booting k w) = false
repositions (extending k s) = false
repositions (jumping k n s) = true
repositions (prefetching k o) = false

-- `pumping.current`.
abbrev pub pumps : Task → Bool
pumps idle = false
pumps (booting k w) = false
pumps (extending k s) = true
pumps (jumping k n s) = true
pumps (prefetching k o) = true

abbrev pub start_of : Loader → ℕ
start_of l = elim l.window_start [ none ↦ l.first_ts | some t ↦ t ]

-- `bufferedMs()`.
unfoldable pub buffered : Loader → ℕ
unfolding last_timestamp
buffered l = last_timestamp l.first_ts l.events

unfoldable pub landing : Loader → ℕ → ℕ
unfolding clamp_landing buffered
landing l offset = clamp_landing (start_of l) (buffered l) offset

abbrev pub first_of : ℕ → List TimedEvent → ℕ
first_of t [] = t
first_of t (e ∷ es) = e.timestamp

-- What loadPage does with a page.
unfoldable pub load_page : Page → Loader → Loader
unfolding has_snapshot
load_page p l = record l {
  first_ts = if l.first_ts == 0 then first_of 0 p.events else l.first_ts;
  have_snapshot = l.have_snapshot || has_snapshot p.events;
  events = l.events ++ p.events;
  next_seq = p.next_seq;
  exhausted = l.exhausted || not p.has_more;
  held = if l.loaded && not (repositions l.task) then l.held ++ p.events else l.held;
}

-- Enough is loaded ahead of a position.
abbrev pub ahead_of : ℕ → Loader → Bool
ahead_of offset l = leb (offset + buffer_ahead_ms) (buffered l)

abbrev pub two_or_more {ℓ} : {A : Type ℓ} → List A → Bool
two_or_more [] = false
two_or_more (x ∷ []) = false
two_or_more (x ∷ y ∷ ys) = true

-- The end of a seek within the window.
unfoldable pub end_extending : Seek → Loader → Loader
unfolding landing
end_extending s l = record l {
  task = idle;
  pending = some (record { offset = landing l s.offset; play = s.play });
}

-- Its loop: it stops after its rounds, at the end of the recording, or with enough loaded.
unfoldable pub extend : ℕ → Seek → Loader → Loader
unfolding end_extending buffered
extend zero s l = end_extending s l
extend (suc k) s l =
    if l.exhausted || ahead_of s.offset l
    then end_extending s l
    else record l { task = extending k s }

-- The end of a jump, which builds the player anew from its window; without any event it leaves the
-- rest as it is.
abbrev pub open_window : ℕ → Seek → List TimedEvent → Loader → Loader
open_window seq s [] l = record l { task = idle; events = [] }
open_window seq s (e ∷ es) l =
    let window = record l {
      task = idle;
      events = e ∷ es;
      window_seq = some seq;
      window_start = some e.timestamp;
      held = e ∷ es;
    } in
    record window { pending = some (record { offset = landing window s.offset; play = s.play }) }

unfoldable pub end_jumping : ℕ → Seek → Loader → Loader
unfolding trim_window landing
end_jumping seq s l = open_window seq s (trim_window l.events) l

-- A jump's loop after a page. Where the recording is over, no further round changes anything.
unfoldable pub jump_on : ℕ → ℕ → Seek → Loader → Loader
unfolding end_jumping buffered
jump_on k seq s l =
    if l.have_snapshot && two_or_more l.events && ahead_of s.offset l
    then end_jumping seq s l
    else if l.exhausted || k == 0
    then end_jumping seq s l
    else record l { task = jumping (k - 1) seq s }

unfoldable pub end_prefetching : Loader → Loader
end_prefetching l = record l { task = idle; buffering = false }

unfoldable pub prefetch : ℕ → ℕ → Loader → Loader
unfolding end_prefetching buffered
prefetch zero offset l = end_prefetching l
prefetch (suc k) offset l =
    if l.exhausted || ahead_of offset l
    then end_prefetching l
    else record l { task = prefetching k offset }

unfoldable pub start_jumping : ℕ → Seek → Loader → Loader
start_jumping seq s l = record l {
  events = [];
  have_snapshot = false;
  exhausted = false;
  next_seq = seq;
  task = jumping 199 seq s;
}

abbrev pub same_seq : Option ℕ → ℕ → Bool
same_seq none n = false
same_seq (some m) n = m == n

abbrev pub seek_from : Option Chunk → Seek → Loader → Loader
seek_from none s l = l
seek_from (some c) s l =
    if same_seq l.window_seq c.seq then extend 200 s l else start_jumping c.seq s l

-- jumpTo, up to its first await; with an empty index there is no keyframe.
unfoldable pub jump_to : Seek → Loader → Loader
unfolding keyframe extend start_jumping
jump_to s l = seek_from (keyframe s.offset l.index) s l

unfoldable pub run_seek : Seek → Loader → Loader
unfolding jump_to
run_seek s l = if pumps l.task then record l { queued = some s } else jump_to s l

-- drainSeek, when a task has ended. A seek that ends at once finds nothing queued.
unfoldable pub drain_seek : Loader → Loader
unfolding jump_to
drain_seek l = elim l.queued [
  | none ↦ l
  | some s ↦ jump_to s (record l { queued = none; pending = none })
]

-- A task's end: the flag is cleared, and the queued seek is run.
unfoldable pub settle : Loader → Loader
unfolding drain_seek
settle l = if pumps l.task then l else drain_seek l

unfoldable pub first_window_seq : ℕ → List Chunk → Option ℕ
first_window_seq next_seq [] = none
first_window_seq next_seq (c ∷ cs) =
    let rest = first_window_seq next_seq cs in
    if c.snapshot && ltb c.seq next_seq then some c.seq else rest

unfoldable pub end_booting : Loader → Loader
unfolding first_window_seq
end_booting l = record l {
  task = idle;
  window_seq = first_window_seq l.next_seq l.index;
  loaded = true;
  held = l.events;
}

-- The boot's loop after a page.
unfoldable pub boot_on : ℕ → Bool → Loader → Loader
unfolding end_booting buffered
boot_on k windowed l =
    if l.exhausted
      || k == 0
      || l.have_snapshot && windowed && two_or_more l.events && ahead_of l.first_ts l
    then end_booting l
    else record l { task = booting (k - 1) windowed }

-- The page that a task awaits is there.
abbrev pub go_on : Task → Loader → Loader
go_on idle l = l
go_on (booting k windowed) l = boot_on k windowed l
go_on (extending k s) l = settle (extend k s l)
go_on (jumping k seq s) l = settle (jump_on k seq s l)
go_on (prefetching k offset) l = settle (prefetch k offset l)

abbrev pub has_task : Task → Bool
has_task idle = false
has_task (booting k w) = true
has_task (extending k s) = true
has_task (jumping k n s) = true
has_task (prefetching k o) = true

unfoldable pub on_page : Page → Loader → Loader
unfolding load_page extend jump_on prefetch boot_on settle
on_page p l = if has_task l.task then go_on l.task (load_page p l) else l

-- A request fails, or a stylesheet does: the page shows the error in place of the player.
abbrev pub break_off : Task → Loader → Loader
break_off idle l = l
break_off (booting k w) l = record l { task = idle; failed = true }
break_off (extending k s) l = settle (record l { task = idle; failed = true })
break_off (jumping k n s) l = settle (record l { task = idle; failed = true })
break_off (prefetching k o) l = settle (record (end_prefetching l) { failed = true })

unfoldable pub on_failure : Loader → Loader
unfolding settle end_prefetching
on_failure l = break_off l.task l

-- The newest keyframe at a position, where it is not the window's.
abbrev pub other_keyframe : Option Chunk → Option ℕ → Bool
other_keyframe none w = false
other_keyframe (some c) w = not (same_seq w c.seq)

abbrev pub nothing_queued : Option Seek → Bool
nothing_queued none = true
nothing_queued (some s) = false

unfoldable pub rebases : ℕ → Loader → Bool
unfolding keyframe buffered
rebases offset l =
    not (pumps l.task)
    && leb (start_of l) offset
    && leb offset (buffered l)
    && nothing_queued l.queued
    && leb (start_of l + max_window_span_ms) offset
    && other_keyframe (keyframe offset l.index) l.window_seq

unfoldable pub on_playback_time : ℕ → Loader → Loader
unfolding rebases run_seek prefetch buffered
on_playback_time offset l =
    if not l.loaded
    then l
    else if rebases offset l
    then run_seek (record { offset = offset; play = true }) l
    else if pumps l.task || l.exhausted
    then l
    else let l' = record l { buffering = l.buffering || leb (buffered l) offset } in
      if ltb (offset + prefetch_within_ms) (buffered l) then l' else prefetch 40 offset l'

unfoldable pub on_seek_outside_buffer : ℕ → Loader → Loader
unfolding run_seek
on_seek_outside_buffer offset l =
    if l.loaded then run_seek (record { offset = offset; play = false }) l else l

-- The effect that hands the deferred seek to the player.
unfoldable pub land : Loader → Loader
land l = elim l.pending [
  | none ↦ l
  | some s ↦ record l { pending = none; landings = s ∷ l.landings }
]

-- What the index answers: nothing where the request failed.
pub record SeekIndex : Type 0 where
  pub chunks : List Chunk
  pub first_ts : ℕ

abbrev pub blank : Loader
blank = record {
  events = [];
  next_seq = 0;
  exhausted = false;
  have_snapshot = false;
  first_ts = 0;
  index = [];
  task = idle;
  pending = none;
  queued = none;
  window_seq = none;
  window_start = none;
  buffering = false;
  loaded = false;
  failed = false;
  held = [];
  landings = [];
}

unfoldable pub some_snapshot : List Chunk → Bool
some_snapshot [] = false
some_snapshot (c ∷ cs) = c.snapshot || some_snapshot cs

-- The session's effect, up to the first page: without an index the whole recording is loaded, and
-- an index without any snapshot ends it.
unfoldable pub boot : Option SeekIndex → Loader
unfolding some_snapshot
boot none = record blank { task = booting 499 false }
boot (some i) =
    let l = record blank { index = i.chunks; first_ts = i.first_ts } in
    if is_empty i.chunks
    then record l { task = booting 499 false }
    else if some_snapshot i.chunks
    then record l { task = booting 499 true }
    else record l { loaded = true }

pub data Happening : Type 0 where
  answered : Page → Happening
  refused : Happening
  reported : ℕ → Happening
  seeks : ℕ → Happening
  rendered : Happening

unfoldable pub step : Happening → Loader → Loader
step (answered p) l = on_page p l
step refused l = on_failure l
step (reported offset) l = on_playback_time offset l
step (seeks offset) l = on_seek_outside_buffer offset l
step rendered l = land l

unfoldable pub run : List Happening → Loader → Loader
run [] l = l
run (h ∷ hs) l = run hs (step h l)
