-- ===== src/Replay/Loader/Lands.antt =====
-- Where a seek ends (dashboard/src/pages/Replay/hooks/useReplay.ts, runSeek and jumpTo).
use trace_ux.Base.{
  ℕ, ◌≤◌, ◌≡◌, refl, subst, ap, sym, ◌∙◌, ◌⊎◌, inl, inr, true, false, Option, none, some, List, [],
  ◌∷◌, arith, length, Bool-cases,
}
use trace_ux.Replay.{Page, Seek, keyframe}
use trace_ux.Replay.Loader.{
  Task, idle, Loader, pumps, has_task, on_page, run_seek, on_seek_outside_buffer, Happening, boot,
  SeekIndex, run, jump_to,
}
use trace_ux.Replay.Loader.Seeks.{
  task_seek, landed_seek, Kept, on_page-Kept, idle_page, jump_to-Fate, jump_to-queued,
}
use trace_ux.Replay.Loader.Steady.{
  Steady, work, on_page-work, run_seek-Steady, boot-run-Steady, no_task, task_work,
}

unfoldable pub pages : List Page → Loader → Loader
pages [] l = l
pages (p ∷ ps) l = pages ps (on_page p l)

-- A seek's end: it waits for the player at its landing, or there is nothing to land on.
abbrev pub Ended : Seek → Loader → Type 0
Ended s l =
    (l.task ≡ idle)
    × ((l.pending ≡ some (landed_seek l s)) ⊎ (keyframe s.offset l.index ≡ none) ⊎ (l.events ≡ []))

working_busy : (t : Task) {s : Seek} → task_seek t ≡ some s → 1 ≤ task_work t
working_busy t h = ground (arith, h)

pumping_busy : (t : Task) → pumps t ≡ true → 1 ≤ task_work t
pumping_busy t h = ground (arith, h)

-- Without any work left, a seek that was kept has ended.
Kept-Ended : (s : Seek) (l : Loader) → Kept s l → work l ≤ 0 → Ended s l
Kept-Ended s l (inl (q, p)) w = absurd (omega (arith, pumping_busy l.task p, w))
Kept-Ended s l (inr (q, inl f)) w = absurd (omega (arith, working_busy l.task f, w))
Kept-Ended s l (inr (q, inr (inl (i, f)))) w = (i, inl f)
Kept-Ended s l (inr (q, inr (inr (inl (i, f))))) w = (i, inr (inl f))
Kept-Ended s l (inr (q, inr (inr (inr (i, f))))) w = (i, inr (inr f))

Kept-idle : (s : Seek) (l : Loader) → Kept s l → has_task l.task ≡ false → Ended s l
Kept-idle s l (inl (q, p)) h = absurd (ground (arith, p, h))
Kept-idle s l (inr (q, inl f)) h = absurd (ground (arith, f, h))
Kept-idle s l (inr (q, inr (inl (i, f)))) h = (i, inl f)
Kept-idle s l (inr (q, inr (inr (inl (i, f))))) h = (i, inr (inl f))
Kept-idle s l (inr (q, inr (inr (inr (i, f))))) h = (i, inr (inr f))

pages-idle : (ps : List Page) (l : Loader) → l.task ≡ idle → pages ps l ≡ l
unfolding pages
pages-idle [] l i = refl
pages-idle (p ∷ ps) l i = ap (pages ps) (idle_page p l i) ∙ pages-idle ps l i

pages-more : (p : Page) (ps : List Page) (l : Loader) → pages (p ∷ ps) l ≡ pages ps (on_page p l)
unfolding pages
pages-more p ps l = refl

pages-Ended :
    (s : Seek) (ps : List Page) (l : Loader)
    → Kept s l
    → Steady l
    → l.loaded ≡ true
    → work l ≤ length ps
    → Ended s (pages ps l)
pages-Ended s [] l k v d w = unfold pages in Kept-Ended s l k w
pages-Ended s (p ∷ ps) l k v d w = elim (Bool-cases (has_task l.task)) [
  | inl h ↦
      let (v', w', d') = on_page-work p l v d h in
      let u : Ended s (pages ps (on_page p l)) =
        pages-Ended s ps (on_page p l) (on_page-Kept s p l k) v' d' (omega (arith, w', w)) in
      subst (Ended s) (sym (pages-more p ps l)) u
  | inr h ↦ let e = Kept-idle s l k h in subst (Ended s) (sym (pages-idle (p ∷ ps) l e.0)) e
]

pub run_seek_now : (s : Seek) (l : Loader) → pumps l.task ≡ false → jump_to s l ≡ run_seek s l
unfolding run_seek
run_seek_now s l p = ground (arith, p)

asked :
    (offset : ℕ) (l : Loader)
    → l.loaded ≡ true
    → on_seek_outside_buffer offset l ≡ run_seek (record { offset = offset; play = false }) l
unfolding on_seek_outside_buffer
asked offset l d = ground (arith, d)

-- A seek that is asked for is worked on, or waits behind the loop that runs.
run_seek-Kept : (s : Seek) (l : Loader) → Steady l → l.loaded ≡ true → Kept s (run_seek s l)
unfolding run_seek
run_seek-Kept s l v d = elim (Bool-cases (pumps l.task)) [
  | inl p ↦ inl (ground (arith, p), ground (arith, p))
  | inr p ↦
      let i = no_task l.task (v.booted d) p in
      subst (Kept s) (run_seek_now s l p) (inr (jump_to-queued s l ∙ v.queue p, jump_to-Fate s l i))
]

-- Whatever has happened to a replay: once it is loaded, a seek of the visitor outside the buffer
-- comes to its end after at most 400 pages, if no other seek or report comes in between and no
-- request fails. The loader then waits for nothing, and hands the player that very seek, at its
-- position or the nearest one in the window, unless the index has no keyframe for it or the server
-- had no events there.
pub seek_lands :
    (i : Option SeekIndex) (hs : List Happening) (offset : ℕ) (ps : List Page)
    → (run hs (boot i)).loaded ≡ true
    → 400 ≤ length ps
    → Ended
        (record { offset = offset; play = false })
        (pages ps (on_seek_outside_buffer offset (run hs (boot i))))
seek_lands i hs offset ps d w =
    let s : Seek = record { offset = offset; play = false } in
    let l = run hs (boot i) in
    let v = boot-run-Steady i hs in
    let (v', w', d') = run_seek-Steady s l v d in
    rw (asked offset l d)
      (pages-Ended s ps (run_seek s l) (run_seek-Kept s l v d) v' d' (omega (arith, w', w)))
