-- ===== src/Replay.antt =====
-- The dashboard's replay (dashboard/src/pages/Replay and components/replay): the recorded events,
-- the index of a recording and what is computed from them. A position is kept on the recording's
-- own clock: an offset of the code is `firstTs` less. `nextSeq` and `target.seq - 1` can be -1: a
-- resume point is kept as one more.
pub mod Loader
pub mod Player
use trace_ux.Base.{
  ℕ, suc, ◌+◌, ◌≤◌, Bool, true, false, not, ◌&&◌, ◌||◌, Option, none, some, List, [], ◌∷◌, ◌++◌,
  ltb, leb, ◌==◌, if◌then◌else◌, min, max,
}

-- An rrweb event: `width` and `height` are zero where its data has none.
pub record TimedEvent : Type 0 where
  pub timestamp : ℕ
  pub kind : ℕ
  pub source : Option ℕ
  pub width : ℕ
  pub height : ℕ
  pub payload : ℕ

-- A chunk of the seek index: its number, its first event's time, and whether it has a FullSnapshot.
pub record Chunk : Type 0 where
  pub seq : ℕ
  pub first_ts : ℕ
  pub snapshot : Bool

-- A page of events, as the server answers it and with its stylesheets put in.
pub record Page : Type 0 where
  pub events : List TimedEvent
  pub next_seq : ℕ
  pub has_more : Bool

pub record Seek : Type 0 where
  pub offset : ℕ
  pub play : Bool

abbrev pub is_snapshot : TimedEvent → Bool
is_snapshot e = e.kind == 2

abbrev pub is_meta : TimedEvent → Bool
is_meta e = e.kind == 4

-- The loop over the index that looks for the chunk to start from: the last one with a snapshot
-- before the first one with a snapshot that is too late.
unfoldable pub keyframe_from : Option Chunk → ℕ → List Chunk → Option Chunk
keyframe_from target offset [] = target
keyframe_from target offset (c ∷ cs) =
    let skipped = keyframe_from target offset cs in
    let taken = keyframe_from (some c) offset cs in
    if not c.snapshot then skipped else if leb c.first_ts offset then taken else target

unfoldable pub keyframe : ℕ → List Chunk → Option Chunk
unfolding keyframe_from
keyframe offset index = keyframe_from none offset index

unfoldable pub last_timestamp : ℕ → List TimedEvent → ℕ
last_timestamp t [] = t
last_timestamp t (e ∷ es) = last_timestamp e.timestamp es

unfoldable pub has_snapshot : List TimedEvent → Bool
has_snapshot [] = false
has_snapshot (e ∷ es) = is_snapshot e || has_snapshot es

-- The events from the first snapshot on, or none where there is no snapshot.
unfoldable pub from_snapshot : List TimedEvent → List TimedEvent
from_snapshot [] = []
from_snapshot (e ∷ es) = let rest = from_snapshot es in if is_snapshot e then e ∷ es else rest

-- `before.reverse().find(…)`: the last Meta event before the first snapshot.
unfoldable pub viewport_before : Option TimedEvent → List TimedEvent → Option TimedEvent
viewport_before seen [] = none
viewport_before seen (e ∷ es) =
    let later = viewport_before (if is_meta e then some e else seen) es in
    if is_snapshot e then seen else later

abbrev pub with_viewport : Option TimedEvent → List TimedEvent → List TimedEvent
with_viewport none es = es
with_viewport (some v) es = v ∷ es

-- The window starts at its first snapshot, with the viewport's size before it.
unfoldable pub trim_window : List TimedEvent → List TimedEvent
unfolding has_snapshot from_snapshot viewport_before
trim_window es =
    if has_snapshot es then with_viewport (viewport_before none es) (from_snapshot es) else es

-- Keeping a requested position inside what is loaded.
unfoldable pub clamp_landing : ℕ → ℕ → ℕ → ℕ
clamp_landing start buffered offset = min (max offset start) (max start buffered)
