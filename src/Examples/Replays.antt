-- ===== src/Examples/Replays.antt =====
-- The replay: theorems at concrete inputs, and tests by evaluation.
use trace_ux.Base.{
  ◌*◌, ◌+◌, ℕ, zero, suc, ◌≤◌, ◌≡◌, ◌⊎◌, inr, refl, Bool, true, false, Option, none, some, List, [],
  ◌∷◌, arith, length, filter, ◌-◌,
}
use trace_ux.Replay.{TimedEvent, Chunk, Page, keyframe_from, keyframe, has_snapshot, last_timestamp}
use trace_ux.Replay.Loader.{
  Loader, repositions, buffered, landing, SeekIndex, blank, some_snapshot, boot, answered, reported,
  seeks, rendered, run, step, load_page, boot_on, end_booting, on_page, on_seek_outside_buffer,
  Happening,
}
use trace_ux.Replay.Loader.Keyframes.{usable, last_or, keyframe-last}
use trace_ux.Replay.Loader.Pages.{pages_taken, requests, pages_bounded}
use trace_ux.Replay.Loader.Lands.{pages, Ended, seek_lands}
use trace_ux.Replay.Loader.Holds.{player_holds_window}
use trace_ux.Replay.Player.{
  goto, reports, Player, seek_to_offset, time_passes, state_changes, more_events, builds,
  toggle_playback, Build, Change, passes, jumps, lands, run_changes, run as play_run,
}
use trace_ux.Replay.Player.Landing.{report_count, landing_is_final, jump_keeps_position}
use trace_ux.Replay.Player.Pauses.{play_count, pause_holds}

abbrev event : ℕ → ℕ → TimedEvent
event t k = record { timestamp = t; kind = k; source = none; width = 0; height = 0; payload = 0 }

abbrev meta : ℕ → ℕ → ℕ → TimedEvent
meta t w h = record (event t 4) { width = w; height = h }

abbrev input : ℕ → TimedEvent
input t = record (event t 3) { source = some 5 }

abbrev chunk : ℕ → ℕ → Bool → Chunk
chunk n t b = record { seq = n; first_ts = t; snapshot = b }

abbrev index : List Chunk
index = chunk 0 1_000 true ∷ chunk 1 9_000 false ∷ chunk 2 60_000 true ∷ chunk 3 400_000 true ∷ []

keyframe-last_example : keyframe 70_000 index ≡ last_or none (filter (usable 70_000) index)
keyframe-last_example = keyframe-last 70_000 index (
  (omega arith, (omega arith, (omega arith, tt))),
  ((omega arith, (omega arith, tt)), ((omega arith, tt), (tt, tt))),
)

keyframe_found : keyframe 70_000 index ≡ some (chunk 2 60_000 true)
unfolding keyframe keyframe_from
keyframe_found = refl

abbrev recorded : List TimedEvent
recorded = input 900 ∷ meta 950 1_280 720 ∷ event 1_000 2 ∷ input 1_500 ∷ []

abbrev first_page : Page
first_page = record {
  events = meta 1_000 1_280 720 ∷ event 1_000 2 ∷ input 20_000 ∷ [];
  next_seq = 2;
  has_more = true;
}

abbrev far_page : Page
far_page = record {
  events = meta 400_000 1_280 720 ∷ event 400_000 2 ∷ input 450_000 ∷ [];
  next_seq = 4;
  has_more = false;
}

abbrev indexed : Option SeekIndex
indexed = some (record { chunks = index; first_ts = 1_000 })

abbrev watched : List Happening
watched = answered first_page ∷ reported 2_000 ∷ seeks 410_000 ∷ answered far_page ∷ rendered ∷ []

pages_bounded_example : pages_taken watched (boot indexed) ≤ 500 + 200 * requests watched
pages_bounded_example = pages_bounded indexed watched

player_holds_window_example :
    let l = run watched (boot indexed) in
    (repositions l.task ≡ true) ⊎ (l.loaded ≡ false) ⊎ (l.held ≡ l.events)
player_holds_window_example =
    player_holds_window indexed watched ((λ e. cc), (tt, (tt, ((λ e. cc), (tt, tt)))))

far_pages : ℕ → List Page
far_pages zero = []
far_pages (suc n) = far_page ∷ far_pages n

length-far_pages : (n : ℕ) → length (far_pages n) ≡ n
unfolding far_pages
length-far_pages zero = refl
length-far_pages (suc n) = omega (arith, length-far_pages n)

seek_lands_example :
    Ended
      (record { offset = 410_000; play = false })
      (pages
        (far_pages 400)
        (on_seek_outside_buffer 410_000 (run (answered first_page ∷ []) (boot indexed))))
unfolding run step boot some_snapshot on_page load_page boot_on end_booting buffered last_timestamp
    has_snapshot
seek_lands_example =
    seek_lands indexed (answered first_page ∷ []) 410_000 (far_pages 400) refl
      (omega (arith, length-far_pages 400))

-- A loaded window, and a player that shows it.
abbrev window : Loader
window = record blank {
  events = event 1_000 2 ∷ input 20_000 ∷ [];
  first_ts = 1_000;
  loaded = true;
}

abbrev shown : Player
shown = record {
  first_ts = 1_000;
  duration_ms = 500_000;
  autoplay = false;
  buffering = false;
  repositioning = false;
  built = true;
  built_token = 0;
  built_start = 1_000;
  built_end = 20_000;
  current_time = 5_000;
  duration = 500_000;
  is_playing = true;
  started = true;
  wants_to_play = true;
  awaiting_landing = false;
  resume_after_buffering = false;
  waiting_at_end = none;
  last_reported_at = 0;
  failed = false;
  outputs = [];
}

landing_is_final_example :
    let q = seek_to_offset (landing window 30_000) true true shown in
    (q.current_time ≡ landing window 30_000)
    × (q.is_playing ≡ true)
    × (q.awaiting_landing ≡ false)
    × (1_000 ≤ landing window 30_000)
    × (landing window 30_000 ≤ buffered window)
    × (q.outputs ≡ reports (landing window 30_000) ∷ goto (landing window 30_000 - 1_000) true ∷ [])
unfolding buffered last_timestamp
landing_is_final_example = landing_is_final window 30_000 true shown refl refl refl (omega arith)

jump_keeps_position_example :
    let q =
      play_run
        (time_passes 900 300 ∷ state_changes true ∷ more_events 30_000 ∷ [])
        (seek_to_offset 90_000 true false shown) in
    (q.current_time ≡ 90_000)
    × (q.awaiting_landing ≡ true)
    × (q.wants_to_play ≡ false)
    × (report_count q.outputs ≡ 0)
jump_keeps_position_example =
    jump_keeps_position 90_000 true
      (time_passes 900 300 ∷ state_changes true ∷ more_events 30_000 ∷ []) shown refl
      (inr (inr (omega arith)))

abbrev rebuilt : Build
rebuilt = record {
  token = 0;
  window_start = 1_000;
  last = 20_000;
  moved = true;
  throws = false;
  total_time = 19_000;
}

-- A player built anew, and a jump that ends with a landing.
abbrev later_changes : List Change
later_changes =
    passes (builds rebuilt 300)
    ∷ passes (time_passes 900 300)
    ∷ jumps true
    ∷ lands 2_000 false
    ∷ jumps false
    ∷ []

pause_holds_example :
    let q = run_changes later_changes (toggle_playback 300 shown) in
    (q.is_playing ≡ false) × (play_count q.outputs ≡ 0)
pause_holds_example =
    pause_holds 300 later_changes shown refl refl refl (tt, (tt, (tt, (refl, (tt, tt)))))
