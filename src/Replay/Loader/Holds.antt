-- ===== src/Replay/Loader/Holds.antt =====
-- The player on the screen holds the loader's window (dashboard/src/pages/Replay/hooks/useReplay.ts).
use trace_ux.Base.{
  ℕ, zero, suc, ◌≡◌, ◌≢◌, refl, subst, sym, ◌∙◌, ◌⊎◌, inl, inr, Bool, true, false, ◌||◌, Option,
  none, some, List, [], ◌∷◌, ◌++◌, arith, Bool-cases, Option-cases, All, leb,
}
use trace_ux.Replay.{TimedEvent, Page, Seek, trim_window, has_snapshot, viewport_before}
use trace_ux.Replay.Loader.{
  Task, idle, booting, extending, jumping, prefetching, Loader, pumps, repositions, has_task,
  extend, end_extending, load_page, end_jumping, open_window, jump_on, end_prefetching, prefetch,
  start_jumping, jump_to, run_seek, settle, go_on, on_page, boot_on, end_booting, on_playback_time,
  on_seek_outside_buffer, land, boot, SeekIndex, buffered, Happening, answered, refused, reported,
  seeks, rendered, step, run,
}
use trace_ux.Replay.Loader.Seeks.{
  jump_to-cases, Jump-cases, settle-none, settle_busy, settle_queued, idle_page, busy_page,
  extend-Free, jump_on-Free, prefetch-Free,
}
use trace_ux.Replay.Loader.Steady.{idle_of}
use trace_ux.Replay.Loader.Lands.{run_seek_now}
use trace_ux.Replay.Loader.Windows.{split_at_snapshot}

-- The player holds the window, where there is a player.
abbrev Same : Loader → Type 0
Same l = (l.loaded ≡ false) ⊎ (l.held ≡ l.events)

-- So it is but while the stream is repositioned.
abbrev pub Holds : Loader → Type 0
Holds l = (repositions l.task ≡ true) ⊎ Same l

unchanged :
    (l u : Loader) → u.loaded ≡ l.loaded → u.held ≡ l.held → u.events ≡ l.events → Same l → Same u
unchanged l u d h e (inl n) = inl (d ∙ n)
unchanged l u d h e (inr n) = inr (h ∙ (n ∙ sym e))

extend-Holds : (k : ℕ) (s : Seek) (l : Loader) → Same l → Holds (extend k s l)
unfolding extend end_extending
extend-Holds zero s l h = inr h
extend-Holds (suc k) s l h =
    inr (unchanged l (extend (suc k) s l) (ground arith) (ground arith) (ground arith) h)

prefetch-Holds : (k o : ℕ) (l : Loader) → Same l → Holds (prefetch k o l)
unfolding prefetch end_prefetching
prefetch-Holds zero o l h = inr h
prefetch-Holds (suc k) o l h =
    inr (unchanged l (prefetch (suc k) o l) (ground arith) (ground arith) (ground arith) h)

trim_window-some : (es : List TimedEvent) → es ≢ [] → trim_window es ≢ []
unfolding trim_window
trim_window-some es n e = elim (Bool-cases (has_snapshot es)) [
  | inl h ↦
      let (before, s, after, p, i, m, f) = split_at_snapshot es h in
      ground (arith, h, f, e, Option-cases (viewport_before none es))
  | inr h ↦ n (ground (arith, h, e))
]

open_window-Holds :
    (n : ℕ) (s : Seek) (es : List TimedEvent) (l : Loader) → es ≢ [] → Holds (open_window n s es l)
open_window-Holds n s [] l h = absurd (h refl)
open_window-Holds n s (e ∷ es) l h = inr (inr refl)

jump_on-Holds : (k n : ℕ) (s : Seek) (l : Loader) → l.events ≢ [] → Holds (jump_on k n s l)
unfolding end_jumping
jump_on-Holds k n s l h = elim (Jump-cases k n s l) [
  | inl e ↦
      subst Holds (sym e)
        (open_window-Holds n s (trim_window l.events) l (trim_window-some l.events h))
  | inr e ↦ subst Holds (sym e) (inl refl)
]

jump_to-Holds : (s : Seek) (l : Loader) → Same l → Holds (jump_to s l)
unfolding start_jumping
jump_to-Holds s l h = elim (jump_to-cases s l) [
  | inl (e, q) ↦ subst Holds (sym q) (inr h)
  | inr (inl q) ↦ subst Holds (sym q) (extend-Holds 200 s l h)
  | inr (inr (n, q)) ↦ subst Holds (sym q) (inl refl)
]

repositions-pumps : (t : Task) → repositions t ≡ true → pumps t ≡ true
repositions-pumps t h = ground (arith, h)

settle-Holds : (l : Loader) → Holds l → (pumps l.task ≡ true) ⊎ (l.task ≡ idle) → Holds (settle l)
settle-Holds l h (inl p) = subst Holds (sym (settle_busy l p)) h
settle-Holds l (inl r) (inr i) = absurd (ground (arith, r, i))
settle-Holds l (inr h) (inr i) = elim (Option-cases l.queued) [
  | inl q ↦ subst Holds (sym (settle-none l q)) (inr h)
  | inr (s, q) ↦
      subst Holds (sym (settle_queued s l i q))
        (jump_to-Holds s (record l { queued = none; pending = none }) h)
]

boot_on-Holds : (k : ℕ) (w : Bool) (l : Loader) → Same l → Holds (boot_on k w l)
unfolding boot_on end_booting
boot_on-Holds k w l (inl d) = inr (ground (arith, d))
boot_on-Holds k w l (inr h) = inr (ground (arith, h))

append-some {ℓ} : {A : Type ℓ} (xs ys : List A) → ys ≢ [] → xs ++ ys ≢ []
append-some [] ys h e = h e
append-some (x ∷ xs) ys h e = cc

load_page-events : (p : Page) (l : Loader) → p.events ≢ [] → (load_page p l).events ≢ []
unfolding load_page
load_page-events p l h = append-some l.events p.events h

load_page-Same :
    (p : Page) (l : Loader) → repositions l.task ≡ false → Same l → Same (load_page p l)
unfolding load_page
load_page-Same p l r (inl d) = inl d
load_page-Same p l r (inr h) = elim (Bool-cases l.loaded) [
  | inl d ↦ inr (ground (arith, d, r, h))
  | inr d ↦ inl d
]

go_on-Holds :
    (t : Task) (l : Loader)
    → has_task t ≡ true
    → l.events ≢ []
    → (repositions t ≡ true) ⊎ Same l
    → Holds (go_on t l)
go_on-Holds idle l h n e = absurd cc
go_on-Holds (booting k w) l h n (inl r) = absurd cc
go_on-Holds (booting k w) l h n (inr e) = boot_on-Holds k w l e
go_on-Holds (extending k s) l h n (inl r) = absurd cc
go_on-Holds (extending k s) l h n (inr e) =
    settle-Holds (extend k s l) (extend-Holds k s l e) (extend-Free k s l).0
go_on-Holds (jumping k m s) l h n e =
    settle-Holds (jump_on k m s l) (jump_on-Holds k m s l n) (jump_on-Free k m s l).0
go_on-Holds (prefetching k o) l h n (inl r) = absurd cc
go_on-Holds (prefetching k o) l h n (inr e) =
    settle-Holds (prefetch k o l) (prefetch-Holds k o l e) (prefetch-Free k o l).0

-- The task's page: a stream that is repositioned leaves the player alone.
page_premise :
    (p : Page) (l : Loader) → Holds l → (repositions l.task ≡ true) ⊎ Same (load_page p l)
page_premise p l (inl r) = inl r
page_premise p l (inr h) = elim (Bool-cases (repositions l.task)) [
  | inl r ↦ inl r
  | inr r ↦ inr (load_page-Same p l r h)
]

on_page-Holds : (p : Page) (l : Loader) → p.events ≢ [] → Holds l → Holds (on_page p l)
on_page-Holds p l n h = elim (Bool-cases (has_task l.task)) [
  | inl b ↦
      subst Holds (sym (busy_page p l b))
        (go_on-Holds l.task (load_page p l) b (load_page-events p l n) (page_premise p l h))
  | inr b ↦ subst Holds (sym (idle_page p l (idle_of l.task b))) h
]

still : (l : Loader) → Holds l → pumps l.task ≡ false → Same l
still l (inl r) b = absurd (ground (arith, repositions-pumps l.task r, b))
still l (inr h) b = h

run_seek-Holds : (s : Seek) (l : Loader) → Holds l → Holds (run_seek s l)
unfolding run_seek
run_seek-Holds s l h = elim (Bool-cases (pumps l.task)) [
  | inl b ↦ ground (arith, b, h)
  | inr b ↦ subst Holds (run_seek_now s l b) (jump_to-Holds s l (still l h b))
]

on_seek-Holds : (o : ℕ) (l : Loader) → Holds l → Holds (on_seek_outside_buffer o l)
unfolding on_seek_outside_buffer
on_seek-Holds o l h = ground (arith, h, run_seek-Holds (record { offset = o; play = false }) l h)

on_playback_time-Holds : (o : ℕ) (l : Loader) → Holds l → Holds (on_playback_time o l)
unfolding on_playback_time
on_playback_time-Holds o l h = elim (Bool-cases (pumps l.task)) [
  | inl b ↦ ground (arith, b, h, run_seek-Holds (record { offset = o; play = true }) l h)
  | inr b ↦ ground (
    arith,
    b,
    h,
    run_seek-Holds (record { offset = o; play = true }) l h,
    still l h b,
    prefetch-Holds 40 o (record l { buffering = l.buffering || leb (buffered l) o }) (still l h b),
  )
]

land-Holds : (l : Loader) → Holds l → Holds (land l)
unfolding land
land-Holds l h = ground (arith, h)

-- The pages that the server answers have events, and no request fails.
abbrev pub Smooth : Happening → Type 0
Smooth (answered p) = p.events ≢ []
Smooth refused = ⊥
Smooth (reported o) = Unit
Smooth (seeks o) = Unit
Smooth rendered = Unit

step-Holds : (x : Happening) (l : Loader) → Smooth x → Holds l → Holds (step x l)
unfolding step
step-Holds (answered p) l n h = on_page-Holds p l n h
step-Holds refused l n h = absurd n
step-Holds (reported o) l n h = on_playback_time-Holds o l h
step-Holds (seeks o) l n h = on_seek-Holds o l h
step-Holds rendered l n h = land-Holds l h

run-Holds : (xs : List Happening) (l : Loader) → All Smooth xs → Holds l → Holds (run xs l)
unfolding run
run-Holds [] l n h = h
run-Holds (x ∷ xs) l (n, ns) h = run-Holds xs (step x l) ns (step-Holds x l n h)

boot-Holds : (i : Option SeekIndex) → Holds (boot i)
unfolding boot
boot-Holds none = inr (inl refl)
boot-Holds (some i) = ground arith

-- As long as the server's pages have events and no request fails: once a replay is loaded, the
-- player on the screen holds exactly the events of the loader's window, in their order, unless a
-- jump is loading the window of the next player.
pub player_holds_window :
    (i : Option SeekIndex) (xs : List Happening)
    → All Smooth xs
    → let l = run xs (boot i) in
      (repositions l.task ≡ true) ⊎ (l.loaded ≡ false) ⊎ (l.held ≡ l.events)
player_holds_window i xs n = run-Holds xs (boot i) n (boot-Holds i)
