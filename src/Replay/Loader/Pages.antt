-- ===== src/Replay/Loader/Pages.antt =====
-- How many pages a replay asks for (dashboard/src/pages/Replay/hooks/useReplay.ts).
use trace_ux.Base.{
  ℕ, suc, ◌+◌, ◌*◌, ◌≤◌, ◌≡◌, refl, subst, ap, sym, ◌∙◌, inl, inr, Bool, true, false, ◌||◌,
  if◌then◌else◌, Option, none, some, List, [], ◌∷◌, arith, Bool-cases, leb,
}
use trace_ux.Replay.{Page, Seek}
use trace_ux.Replay.Loader.{
  Task, idle, booting, extending, jumping, prefetching, Loader, pumps, has_task, load_page,
  end_booting, boot_on, go_on, on_page, end_prefetching, jump_to, run_seek, on_failure, break_off,
  on_playback_time, on_seek_outside_buffer, land, buffered, boot, SeekIndex, Happening, answered,
  refused, reported, seeks, rendered, step, run,
}
use trace_ux.Replay.Loader.Seeks.{idle_page, busy_page}
use trace_ux.Replay.Loader.Steady.{
  task_work, queue_work, work, no_task, Steady, settle-Steady, on_page-work, idle_of, step-Steady,
  boot-run-Steady, jump_to-Turns, prefetch-Turns, load_page-same, pumping_loaded,
}

-- The pages that came for a task that awaited one, and what the player asked for.
unfoldable pub pages_taken : List Happening → Loader → ℕ
pages_taken [] l = 0
pages_taken (answered p ∷ hs) l =
    (if has_task l.task then 1 else 0) + pages_taken hs (step (answered p) l)
pages_taken (refused ∷ hs) l = pages_taken hs (step refused l)
pages_taken (reported o ∷ hs) l = pages_taken hs (step (reported o) l)
pages_taken (seeks o ∷ hs) l = pages_taken hs (step (seeks o) l)
pages_taken (rendered ∷ hs) l = pages_taken hs (step rendered l)

unfoldable pub requests : List Happening → ℕ
requests [] = 0
requests (answered p ∷ hs) = requests hs
requests (refused ∷ hs) = requests hs
requests (reported o ∷ hs) = suc (requests hs)
requests (seeks o ∷ hs) = suc (requests hs)
requests (rendered ∷ hs) = requests hs

boot_on-work : (k : ℕ) (w : Bool) (l : Loader) → l.queued ≡ none → work (boot_on k w l) ≤ k
unfolding boot_on end_booting
boot_on-work k w l q = ground (arith, q)

boot_page :
    (t : Task) (l : Loader)
    → has_task t ≡ true
    → pumps t ≡ false
    → l.queued ≡ none
    → suc (work (go_on t l)) ≤ task_work t
boot_page idle l h p q = absurd cc
boot_page (booting k w) l h p q = omega (arith, boot_on-work k w l q)
boot_page (extending k s) l h p q = absurd cc
boot_page (jumping k n s) l h p q = absurd cc
boot_page (prefetching k o) l h p q = absurd cc

-- A page that is awaited uses up work.
page-work :
    (p : Page) (l : Loader) → Steady l → has_task l.task ≡ true → suc (work (on_page p l)) ≤ work l
page-work p l v h = elim (Bool-cases l.loaded) [
  | inl d ↦ (on_page-work p l v d h).1
  | inr d ↦
      let (q, e, t) = load_page-same p l in
      let b = boot_page l.task (load_page p l) h (v.early d) (q ∙ v.queue (v.early d)) in
      let c : suc (work (go_on l.task (load_page p l))) ≤ work l = omega (arith, b) in
      subst (λ u. suc (work u) ≤ work l) (sym (busy_page p l h)) c
]

failure-work : (t : Task) (l : Loader) → l.task ≡ t → Steady l → work (break_off t l) ≤ work l
unfolding end_prefetching
failure-work idle l e v = omega arith
failure-work (booting k w) l e v = omega (arith, ap task_work e)
failure-work (extending k s) l e v =
    let m = record l { task = idle; failed = true } in
    omega (arith, (settle-Steady m (pumping_loaded l v (ap pumps e)) refl (omega arith)).1)
failure-work (jumping k n s) l e v =
    let m = record l { task = idle; failed = true } in
    omega (arith, (settle-Steady m (pumping_loaded l v (ap pumps e)) refl (omega arith)).1)
failure-work (prefetching k o) l e v =
    let m = record (end_prefetching l) { failed = true } in
    omega (arith, (settle-Steady m (pumping_loaded l v (ap pumps e)) refl (omega arith)).1)

run_seek-more :
    (s : Seek) (l : Loader) → Steady l → l.loaded ≡ true → work (run_seek s l) ≤ work l + 200
unfolding run_seek
run_seek-more s l v d = elim (Bool-cases (pumps l.task)) [
  | inl p ↦ ground (arith, p)
  | inr p ↦
      let t = jump_to-Turns s l (no_task l.task (v.booted d) p) in
      let w : work (jump_to s l) ≤ work l + 200 = omega (arith, t.work, ap queue_work t.queued) in
      rw p w
]

report-more : (o : ℕ) (l : Loader) → Steady l → work (on_playback_time o l) ≤ work l + 200
unfolding on_playback_time
report-more o l v = elim (Bool-cases l.loaded) [
  | inl d ↦
      let m = record l { buffering = l.buffering || leb (buffered l) o } in
      let t = prefetch-Turns 40 o m in
      ground (
        arith,
        d,
        run_seek-more (record { offset = o; play = true }) l v d,
        t.work,
        ap queue_work t.queued,
      )
  | inr d ↦ ground (arith, d)
]

seek-more : (o : ℕ) (l : Loader) → Steady l → work (on_seek_outside_buffer o l) ≤ work l + 200
unfolding on_seek_outside_buffer
seek-more o l v = elim (Bool-cases l.loaded) [
  | inl d ↦ ground (arith, d, run_seek-more (record { offset = o; play = false }) l v d)
  | inr d ↦ ground (arith, d)
]

land-work : (l : Loader) → work (land l) ≡ work l
unfolding land
land-work l = ground arith

pages_within :
    (hs : List Happening) (l : Loader) → Steady l → pages_taken hs l ≤ work l + 200 * requests hs
unfolding pages_taken requests
pages_within [] l v = omega arith
pages_within (answered p ∷ hs) l v =
    let r = pages_within hs (step (answered p) l) (step-Steady (answered p) l v) in
    elim (Bool-cases (has_task l.task)) [
      | inl h ↦
          let w : suc (work (step (answered p) l)) ≤ work l = unfold step in page-work p l v h in
          rw h (omega (arith, r, w))
      | inr h ↦
          let w : work (step (answered p) l) ≡ work l =
            unfold step in ap work (idle_page p l (idle_of l.task h)) in
          rw h (omega (arith, r, w))
    ]
pages_within (refused ∷ hs) l v =
    let w : work (step refused l) ≤ work l =
      unfold step on_failure in failure-work l.task l refl v in
    omega (arith, pages_within hs (step refused l) (step-Steady refused l v), w)
pages_within (reported o ∷ hs) l v =
    let w : work (step (reported o) l) ≤ work l + 200 = unfold step in report-more o l v in
    omega (arith, pages_within hs (step (reported o) l) (step-Steady (reported o) l v), w)
pages_within (seeks o ∷ hs) l v =
    let w : work (step (seeks o) l) ≤ work l + 200 = unfold step in seek-more o l v in
    omega (arith, pages_within hs (step (seeks o) l) (step-Steady (seeks o) l v), w)
pages_within (rendered ∷ hs) l v =
    let w : work (step rendered l) ≡ work l = unfold step in land-work l in
    omega (arith, pages_within hs (step rendered l) (step-Steady rendered l v), w)

boot-work : (i : Option SeekIndex) → work (boot i) ≤ 500
unfolding boot
boot-work none = ground arith
boot-work (some i) = ground arith

boot-Steady : (i : Option SeekIndex) → Steady (boot i)
boot-Steady i = unfold run in boot-run-Steady i []

-- The loops that load pages end: whatever the server answers and whatever fails, a replay takes at
-- most 500 pages to boot, and 200 more for every position that the player reports and every seek that
-- it asks for.
pub pages_bounded :
    (i : Option SeekIndex) (hs : List Happening) → pages_taken hs (boot i) ≤ 500 + 200 * requests hs
pages_bounded i hs = omega (arith, pages_within hs (boot i) (boot-Steady i), boot-work i)
