-- ===== src/Replay/Loader/Steady.antt =====
-- The bounds of the loader's loops, and its queue (dashboard/src/pages/Replay/hooks/useReplay.ts).
use trace_ux.Base.{
  ℕ, zero, suc, ◌+◌, ◌≤◌, ◌≡◌, refl, subst, ap, sym, ◌∙◌, inl, inr, Bool, true, false, ◌||◌, Option,
  none, some, List, [], ◌∷◌, arith, Bool-cases, Option-cases, leb,
}
use trace_ux.Replay.{TimedEvent, Page, Seek, trim_window}
use trace_ux.Replay.Loader.{
  Task, idle, booting, extending, jumping, prefetching, Loader, pumps, has_task, extend,
  end_extending, load_page, end_jumping, open_window, jump_on, end_prefetching, prefetch,
  start_jumping, jump_to, run_seek, drain_seek, settle, go_on, on_page, on_seek_outside_buffer,
  on_playback_time, on_failure, break_off, land, buffered, boot_on, end_booting, boot, SeekIndex,
  Happening, answered, refused, reported, seeks, rendered, step, run,
}
use trace_ux.Replay.Loader.Seeks.{jump_to-cases, idle_page, busy_page}

-- The pages that a task can still ask for, the one that it awaits with them.
abbrev pub task_work : Task → ℕ
task_work idle = 0
task_work (booting k w) = suc k
task_work (extending k s) = suc k
task_work (jumping k n s) = suc k
task_work (prefetching k o) = suc k

abbrev pub is_booting : Task → Bool
is_booting idle = false
is_booting (booting k w) = true
is_booting (extending k s) = false
is_booting (jumping k n s) = false
is_booting (prefetching k o) = false

-- Between two happenings: no loop runs over its bound, a seek waits only behind a task, and after
-- the boot no boot runs.
pub record Steady (l : Loader) : Type 0 where
  pub boot_bound : task_work l.task ≤ 500
  pub bound : is_booting l.task ≡ false → task_work l.task ≤ 200
  pub queue : pumps l.task ≡ false → l.queued ≡ none
  pub booted : l.loaded ≡ true → is_booting l.task ≡ false
  pub early : l.loaded ≡ false → pumps l.task ≡ false

-- What an operation does to the task and the queue.
pub record Turns (n : ℕ) (l u : Loader) : Type 0 where
  pub work : task_work u.task ≤ n
  pub not_boot : is_booting u.task ≡ false
  pub queued : u.queued ≡ l.queued
  pub loaded : u.loaded ≡ l.loaded

pub extend-Turns : (k : ℕ) (s : Seek) (l : Loader) → Turns k l (extend k s l)
unfolding extend end_extending
extend-Turns zero s l = ground arith
extend-Turns (suc k) s l = ground arith

open_window-Turns :
    (k n : ℕ) (s : Seek) (es : List TimedEvent) (l : Loader) → Turns k l (open_window n s es l)
open_window-Turns k n s [] l = ground arith
open_window-Turns k n s (e ∷ es) l = ground arith

pub jump_on-Turns : (k n : ℕ) (s : Seek) (l : Loader) → Turns k l (jump_on k n s l)
unfolding jump_on end_jumping
jump_on-Turns k n s l = ground (arith, open_window-Turns k n s (trim_window l.events) l)

pub prefetch-Turns : (k o : ℕ) (l : Loader) → Turns k l (prefetch k o l)
unfolding prefetch end_prefetching
prefetch-Turns zero o l = ground arith
prefetch-Turns (suc k) o l = ground arith

pub jump_to-Turns : (s : Seek) (l : Loader) → l.task ≡ idle → Turns 200 l (jump_to s l)
unfolding start_jumping
jump_to-Turns s l i = elim (jump_to-cases s l) [
  | inl (e, q) ↦ subst (Turns 200 l) (sym q) (ground (arith, i))
  | inr (inl q) ↦ subst (Turns 200 l) (sym q) (extend-Turns 200 s l)
  | inr (inr (n, q)) ↦ subst (Turns 200 l) (sym q) (ground arith)
]

-- The work behind a task: a queued seek takes 200 pages more.
abbrev pub queue_work : Option Seek → ℕ
queue_work none = 0
queue_work (some s) = 200

abbrev pub work : Loader → ℕ
work l = task_work l.task + queue_work l.queued

pub no_task : (t : Task) → is_booting t ≡ false → pumps t ≡ false → t ≡ idle
no_task t b p = ground arith

pub settle-Steady :
    (l : Loader)
    → l.loaded ≡ true
    → is_booting l.task ≡ false
    → task_work l.task ≤ 200
    → Steady (settle l) × (work (settle l) ≤ work l) × ((settle l).loaded ≡ true)
unfolding settle drain_seek
settle-Steady l d b w = elim (Bool-cases (pumps l.task)) [
  | inl p ↦ ground arith
  | inr p ↦ elim (Option-cases l.queued) [
    | inl q ↦ ground arith
    | inr (s, q) ↦
        let m = record l { queued = none; pending = none } in
        ground (arith, p, q, b, jump_to-Turns s m (no_task l.task b p))
  ]
]

-- A page: the work falls.
pub go_on-Steady :
    (t : Task) (l : Loader)
    → l.loaded ≡ true
    → is_booting t ≡ false
    → has_task t ≡ true
    → task_work t ≤ 200
    → Steady (go_on t l)
      × (suc (work (go_on t l)) ≤ task_work t + queue_work l.queued)
      × ((go_on t l).loaded ≡ true)
go_on-Steady idle l d b h w = absurd cc
go_on-Steady (booting k x) l d b h w = absurd cc
go_on-Steady (extending k s) l d b h w =
    let u = extend k s l in
    let v = extend-Turns k s l in
    let (st, le, ld) = settle-Steady u (v.loaded ∙ d) v.not_boot (omega (arith, v.work, w)) in
    (st, omega (arith, le, v.work, ap queue_work v.queued), ld)
go_on-Steady (jumping k n s) l d b h w =
    let u = jump_on k n s l in
    let v = jump_on-Turns k n s l in
    let (st, le, ld) = settle-Steady u (v.loaded ∙ d) v.not_boot (omega (arith, v.work, w)) in
    (st, omega (arith, le, v.work, ap queue_work v.queued), ld)
go_on-Steady (prefetching k o) l d b h w =
    let u = prefetch k o l in
    let v = prefetch-Turns k o l in
    let (st, le, ld) = settle-Steady u (v.loaded ∙ d) v.not_boot (omega (arith, v.work, w)) in
    (st, omega (arith, le, v.work, ap queue_work v.queued), ld)

pub boot_on-Steady :
    (k : ℕ) (w : Bool) (l : Loader)
    → k ≤ 499
    → l.loaded ≡ false
    → l.queued ≡ none
    → Steady (boot_on k w l)
unfolding boot_on end_booting
boot_on-Steady k w l b d q = ground arith

pub load_page-same :
    (p : Page) (l : Loader)
    → ((load_page p l).queued ≡ l.queued)
      × ((load_page p l).loaded ≡ l.loaded)
      × ((load_page p l).task ≡ l.task)
unfolding load_page
load_page-same p l = (refl, refl, refl)

pub on_page-work :
    (p : Page) (l : Loader)
    → Steady l
    → l.loaded ≡ true
    → has_task l.task ≡ true
    → Steady (on_page p l) × (suc (work (on_page p l)) ≤ work l) × ((on_page p l).loaded ≡ true)
unfolding on_page
on_page-work p l v d h =
    let (q, e, t) = load_page-same p l in
    ground (
      arith,
      h,
      v.booted d,
      v.bound (v.booted d),
      go_on-Steady l.task (load_page p l) (e ∙ d) (v.booted d) h (v.bound (v.booted d)),
      q,
      e,
    )

early_page :
    (t : Task) (l : Loader)
    → pumps t ≡ false
    → task_work t ≤ 500
    → l.loaded ≡ false
    → l.queued ≡ none
    → l.task ≡ t
    → Steady (go_on t l)
early_page idle l p b d q e = ground arith
early_page (booting k w) l p b d q e = boot_on-Steady k w l (omega (arith, b)) d q
early_page (extending k s) l p b d q e = absurd cc
early_page (jumping k n s) l p b d q e = absurd cc
early_page (prefetching k o) l p b d q e = absurd cc

pub idle_of : (t : Task) → has_task t ≡ false → t ≡ idle
idle_of t h = ground (arith, h)

pub on_page-Steady : (p : Page) (l : Loader) → Steady l → Steady (on_page p l)
on_page-Steady p l v = elim (Bool-cases (has_task l.task)) [
  | inl h ↦ elim (Bool-cases l.loaded) [
    | inl d ↦ (on_page-work p l v d h).0
    | inr d ↦
        let (q, e, t) = load_page-same p l in
        subst Steady (sym (busy_page p l h)) (
          early_page l.task (load_page p l) (v.early d) v.boot_bound (e ∙ d)
            (q ∙ v.queue (v.early d)) t)
  ]
  | inr h ↦ subst Steady (sym (idle_page p l (idle_of l.task h))) v
]

pub pumping_loaded : (l : Loader) → Steady l → pumps l.task ≡ true → l.loaded ≡ true
pumping_loaded l v p = elim (Bool-cases l.loaded) [
  | inl d ↦ d
  | inr d ↦ absurd (ground (arith, v.early d, p))
]

pub break_off-Steady : (t : Task) (l : Loader) → l.task ≡ t → Steady l → Steady (break_off t l)
unfolding end_prefetching
break_off-Steady idle l e v = v
break_off-Steady (booting k w) l e v = ground (arith, e, v)
break_off-Steady (extending k s) l e v =
    (settle-Steady (record l { task = idle; failed = true }) (pumping_loaded l v (ap pumps e)) refl
      (omega arith)).0
break_off-Steady (jumping k n s) l e v =
    (settle-Steady (record l { task = idle; failed = true }) (pumping_loaded l v (ap pumps e)) refl
      (omega arith)).0
break_off-Steady (prefetching k o) l e v =
    (settle-Steady (record (end_prefetching l) { failed = true }) (pumping_loaded l v (ap pumps e))
      refl (omega arith)).0

-- A seek or a report while nothing runs.
pub run_seek-Steady :
    (s : Seek) (l : Loader)
    → Steady l
    → l.loaded ≡ true
    → Steady (run_seek s l) × (work (run_seek s l) ≤ 400) × ((run_seek s l).loaded ≡ true)
unfolding run_seek
run_seek-Steady s l v d = elim (Bool-cases (pumps l.task)) [
  | inl p ↦ ground (arith, p, v, d, v.booted d, v.bound (v.booted d))
  | inr p ↦
      ground
        (arith, p, v, d, v.booted d, v.queue p, jump_to-Turns s l (no_task l.task (v.booted d) p))
]

on_playback_time-Steady : (o : ℕ) (l : Loader) → Steady l → Steady (on_playback_time o l)
unfolding on_playback_time
on_playback_time-Steady o l v = elim (Bool-cases l.loaded) [
  | inl d ↦ ground (
    arith,
    d,
    v,
    run_seek-Steady (record { offset = o; play = true }) l v d,
    prefetch-Turns 40 o (record l { buffering = l.buffering || leb (buffered l) o }),
  )
  | inr d ↦ ground (arith, d, v)
]

on_seek-Steady : (o : ℕ) (l : Loader) → Steady l → Steady (on_seek_outside_buffer o l)
unfolding on_seek_outside_buffer
on_seek-Steady o l v = elim (Bool-cases l.loaded) [
  | inl d ↦ ground (arith, d, run_seek-Steady (record { offset = o; play = false }) l v d)
  | inr d ↦ ground (arith, d, v)
]

land-Steady : (l : Loader) → Steady l → Steady (land l)
unfolding land
land-Steady l v = ground (arith, v)

pub step-Steady : (h : Happening) (l : Loader) → Steady l → Steady (step h l)
unfolding step
step-Steady (answered p) l v = on_page-Steady p l v
step-Steady refused l v = unfold on_failure in break_off-Steady l.task l refl v
step-Steady (reported o) l v = on_playback_time-Steady o l v
step-Steady (seeks o) l v = on_seek-Steady o l v
step-Steady rendered l v = land-Steady l v

run-Steady : (hs : List Happening) (l : Loader) → Steady l → Steady (run hs l)
unfolding run
run-Steady [] l v = v
run-Steady (h ∷ hs) l v = run-Steady hs (step h l) (step-Steady h l v)

pub boot-run-Steady : (i : Option SeekIndex) (hs : List Happening) → Steady (run hs (boot i))
unfolding boot
boot-run-Steady none hs = run-Steady hs (boot none) (ground arith)
boot-run-Steady (some i) hs = run-Steady hs (boot (some i)) (ground arith)
