-- ===== src/Replay/Loader/Seeks.antt =====
-- No seek is lost, and each one ends (dashboard/src/pages/Replay/hooks/useReplay.ts, runSeek,
-- drainSeek and jumpTo).
use trace_ux.Base.{
  ℕ, zero, suc, ◌-◌, ◌≡◌, refl, subst, ap, sym, ◌∙◌, ◌⊎◌, inl, inr, Bool, true, ◌&&◌, ◌||◌, Option,
  none, some, List, [], ◌∷◌, arith, Bool-cases, Option-cases, if◌then◌else◌, ◌==◌,
}
use trace_ux.Replay.{TimedEvent, Chunk, Page, Seek, keyframe, trim_window}
use trace_ux.Replay.Loader.{
  Task, idle, booting, extending, jumping, prefetching, Loader, pumps, has_task, landing, extend,
  end_extending, ahead_of, buffered, load_page, end_jumping, open_window, jump_on, end_prefetching,
  prefetch, start_jumping, seek_from, jump_to, same_seq, drain_seek, settle, go_on, two_or_more,
  on_page,
}

abbrev pub task_seek : Task → Option Seek
task_seek idle = none
task_seek (booting k w) = none
task_seek (extending k s) = some s
task_seek (jumping k n s) = some s
task_seek (prefetching k o) = none

-- The seek as it is handed to the player.
abbrev pub landed_seek : Loader → Seek → Seek
landed_seek l s = record { offset = landing l s.offset; play = s.play }

-- A seek is worked on, or waits for the player at its landing, or has no keyframe before it, or its
-- window has no events.
abbrev pub Fate : Seek → Loader → Type 0
Fate s l =
    (task_seek l.task ≡ some s)
    ⊎ (l.task ≡ idle) × (l.pending ≡ some (landed_seek l s))
    ⊎ (l.task ≡ idle) × (keyframe s.offset l.index ≡ none)
    ⊎ (l.task ≡ idle) × (l.events ≡ [])

abbrev pub Kept : Seek → Loader → Type 0
Kept s l = ((l.queued ≡ some s) × (pumps l.task ≡ true)) ⊎ (l.queued ≡ none) × Fate s l

extend-Fate : (k : ℕ) (s : Seek) (l : Loader) → Fate s (extend k s l)
unfolding extend end_extending landing buffered
extend-Fate zero s l = inr (inl (refl, refl))
extend-Fate (suc k) s l = elim (Bool-cases (l.exhausted || ahead_of s.offset l)) [
  | inl e ↦ inr (inl (ground (arith, e), ground (arith, e)))
  | inr e ↦ inl (ground (arith, e))
]

pub jump_to-extend :
    (s : Seek) (l : Loader) {c : Chunk}
    → keyframe s.offset l.index ≡ some c
    → same_seq l.window_seq c.seq ≡ true
    → jump_to s l ≡ extend 200 s l
unfolding jump_to
jump_to-extend s l {c} e q =
    ap (λ k. seek_from k s l) e ∙ ap (λ b. if b then extend 200 s l else start_jumping c.seq s l) q

-- What jumpTo does before its first await.
pub jump_to-cases :
    (s : Seek) (l : Loader)
    → ((keyframe s.offset l.index ≡ none) × (jump_to s l ≡ l))
      ⊎ (jump_to s l ≡ extend 200 s l)
      ⊎ ((n : ℕ) × (jump_to s l ≡ start_jumping n s l))
unfolding jump_to
jump_to-cases s l = elim (Option-cases (keyframe s.offset l.index)) [
  | inl e ↦ inl (e, ap (λ k. seek_from k s l) e)
  | inr (c, e) ↦ elim (Bool-cases (same_seq l.window_seq c.seq)) [
    | inl q ↦ inr (inl (jump_to-extend s l e q))
    | inr q ↦ inr (
        inr (
          c.seq,
          ap (λ k. seek_from k s l) e
              ∙ ap (λ b. if b then extend 200 s l else start_jumping c.seq s l) q,
        ))
  ]
]

pub jump_to-Fate : (s : Seek) (l : Loader) → l.task ≡ idle → Fate s (jump_to s l)
unfolding start_jumping
jump_to-Fate s l i = elim (jump_to-cases s l) [
  | inl (e, q) ↦ subst (Fate s) (sym q) (inr (inr (inl (i, e))))
  | inr (inl q) ↦ subst (Fate s) (sym q) (extend-Fate 200 s l)
  | inr (inr (n, q)) ↦ subst (Fate s) (sym q) (inl refl)
]

window_Fate : (n : ℕ) (s : Seek) (es : List TimedEvent) (l : Loader) → Fate s (open_window n s es l)
unfolding landing
window_Fate n s [] l = inr (inr (inr (refl, refl)))
window_Fate n s (e ∷ es) l = inr (inl (refl, refl))

abbrev jump_ends : ℕ → Seek → Loader → Bool
jump_ends k s l =
    l.have_snapshot && two_or_more l.events && ahead_of s.offset l || l.exhausted || k == 0

-- A jump ends or awaits its next page.
pub Jump-cases :
    (k n : ℕ) (s : Seek) (l : Loader)
    → (jump_on k n s l ≡ end_jumping n s l)
      ⊎ (jump_on k n s l ≡ record l { task = jumping (k - 1) n s })
unfolding jump_on
Jump-cases k n s l = elim (Bool-cases (jump_ends k s l)) [
  | inl e ↦ inl (ground (arith, e))
  | inr e ↦ inr (ground (arith, e))
]

end_jumping-Fate : (n : ℕ) (s : Seek) (l : Loader) → Fate s (end_jumping n s l)
unfolding end_jumping
end_jumping-Fate n s l = window_Fate n s (trim_window l.events) l

jump_on-Fate : (k n : ℕ) (s : Seek) (l : Loader) → Fate s (jump_on k n s l)
unfolding jump_on
jump_on-Fate k n s l = elim (Jump-cases k n s l) [
  | inl e ↦ subst (Fate s) (sym e) (end_jumping-Fate n s l)
  | inr e ↦ inl (ap (λ u. task_seek u.task) e)
]

-- A task that has been set up or has ended, and what is queued behind it.
abbrev pub Free : Loader → Type 0
Free l = (pumps l.task ≡ true) ⊎ (l.task ≡ idle)

pub extend-Free :
    (k : ℕ) (s : Seek) (l : Loader) → Free (extend k s l) × ((extend k s l).queued ≡ l.queued)
unfolding extend end_extending
extend-Free zero s l = (inr refl, refl)
extend-Free (suc k) s l = elim (Bool-cases (l.exhausted || ahead_of s.offset l)) [
  | inl e ↦ (inr (ground (arith, e)), ground (arith, e))
  | inr e ↦ (inl (ground (arith, e)), ground (arith, e))
]

window_Free :
    (n : ℕ) (s : Seek) (es : List TimedEvent) (l : Loader)
    → Free (open_window n s es l) × ((open_window n s es l).queued ≡ l.queued)
window_Free n s [] l = (inr refl, refl)
window_Free n s (e ∷ es) l = (inr refl, refl)

pub jump_on-Free :
    (k n : ℕ) (s : Seek) (l : Loader)
    → Free (jump_on k n s l) × ((jump_on k n s l).queued ≡ l.queued)
unfolding end_jumping
jump_on-Free k n s l = elim (Jump-cases k n s l) [
  | inl e ↦
      subst (λ u. Free u × (u.queued ≡ l.queued)) (sym e) (window_Free n s (trim_window l.events) l)
  | inr e ↦ subst (λ u. Free u × (u.queued ≡ l.queued)) (sym e) (inl refl, refl)
]

pub prefetch-Free :
    (k o : ℕ) (l : Loader) → Free (prefetch k o l) × ((prefetch k o l).queued ≡ l.queued)
unfolding prefetch end_prefetching
prefetch-Free zero o l = (inr refl, refl)
prefetch-Free (suc k) o l = elim (Bool-cases (l.exhausted || ahead_of o l)) [
  | inl e ↦ (inr (ground (arith, e)), ground (arith, e))
  | inr e ↦ (inl (ground (arith, e)), ground (arith, e))
]

pub jump_to-queued : (s : Seek) (l : Loader) → (jump_to s l).queued ≡ l.queued
unfolding start_jumping
jump_to-queued s l = elim (jump_to-cases s l) [
  | inl (e, q) ↦ ap (λ u. u.queued) q
  | inr (inl q) ↦ ap (λ u. u.queued) q ∙ (extend-Free 200 s l).1
  | inr (inr (n, q)) ↦ ap (λ u. u.queued) q
]

pub settle-none : (l : Loader) → l.queued ≡ none → settle l ≡ l
unfolding settle drain_seek
settle-none l q = ground (arith, q)

pub settle_busy : (l : Loader) → pumps l.task ≡ true → settle l ≡ l
unfolding settle
settle_busy l b = ground (arith, b)

pub settle_queued :
    (s : Seek) (l : Loader)
    → l.task ≡ idle
    → l.queued ≡ some s
    → settle l ≡ jump_to s (record l { queued = none; pending = none })
unfolding settle drain_seek
settle_queued s l i q = ground (arith, i, q)

-- The end of a task turns to the seek that is queued.
settle-Kept : (s : Seek) (l : Loader) → Free l → l.queued ≡ some s → Kept s (settle l)
settle-Kept s l (inl b) q = subst (Kept s) (sym (settle_busy l b)) (inl (q, b))
settle-Kept s l (inr i) q =
    let m = record l { queued = none; pending = none } in
    subst (Kept s) (sym (settle_queued s l i q)) (inr (jump_to-queued s m, jump_to-Fate s m i))

settle-Fate : (s : Seek) (l : Loader) → l.queued ≡ none → Fate s l → Kept s (settle l)
settle-Fate s l q f = subst (Kept s) (sym (settle-none l q)) (inr (q, f))

some-injective {ℓ} : {A : Type ℓ} {a b : A} → some a ≡ some b → a ≡ b
some-injective h = cc

-- What a page does to the task for a seek, or to a task in front of it.
go_on-queued :
    (s : Seek) (t : Task) (l : Loader) → pumps t ≡ true → l.queued ≡ some s → Kept s (go_on t l)
go_on-queued s idle l b q = absurd cc
go_on-queued s (booting k w) l b q = absurd cc
go_on-queued s (extending k r) l b q =
    let (f, e) = extend-Free k r l in settle-Kept s (extend k r l) f (e ∙ q)
go_on-queued s (jumping k n r) l b q =
    let (f, e) = jump_on-Free k n r l in settle-Kept s (jump_on k n r l) f (e ∙ q)
go_on-queued s (prefetching k o) l b q =
    let (f, e) = prefetch-Free k o l in settle-Kept s (prefetch k o l) f (e ∙ q)

go_on-working :
    (s : Seek) (t : Task) (l : Loader) → task_seek t ≡ some s → l.queued ≡ none → Kept s (go_on t l)
go_on-working s idle l b q = absurd cc
go_on-working s (booting k w) l b q = absurd cc
go_on-working s (extending k r) l b q =
    settle-Fate s (extend k r l) ((extend-Free k r l).1 ∙ q)
      (subst (λ x. Fate x (extend k r l)) (some-injective b) (extend-Fate k r l))
go_on-working s (jumping k n r) l b q =
    settle-Fate s (jump_on k n r l) ((jump_on-Free k n r l).1 ∙ q)
      (subst (λ x. Fate x (jump_on k n r l)) (some-injective b) (jump_on-Fate k n r l))
go_on-working s (prefetching k o) l b q = absurd cc

load_page-queued : (p : Page) (l : Loader) → (load_page p l).queued ≡ l.queued
unfolding load_page
load_page-queued p l = refl

pub idle_page : (p : Page) (l : Loader) → l.task ≡ idle → on_page p l ≡ l
unfolding on_page
idle_page p l i = ground (arith, i)

pub busy_page :
    (p : Page) (l : Loader) → has_task l.task ≡ true → on_page p l ≡ go_on l.task (load_page p l)
unfolding on_page
busy_page p l i = ground (arith, i)

working_task : (t : Task) {s : Seek} → task_seek t ≡ some s → has_task t ≡ true
working_task t h = ground (arith, h)

busy_task : (t : Task) → pumps t ≡ true → has_task t ≡ true
busy_task t h = ground (arith, h)

-- A page keeps a seek.
pub on_page-Kept : (s : Seek) (p : Page) (l : Loader) → Kept s l → Kept s (on_page p l)
on_page-Kept s p l (inl (q, b)) =
    subst (Kept s) (sym (busy_page p l (busy_task l.task b)))
      (go_on-queued s l.task (load_page p l) b (load_page-queued p l ∙ q))
on_page-Kept s p l (inr (q, inl w)) =
    subst (Kept s) (sym (busy_page p l (working_task l.task w)))
      (go_on-working s l.task (load_page p l) w (load_page-queued p l ∙ q))
on_page-Kept s p l (inr (q, inr (inl (i, h)))) =
    subst (Kept s) (sym (idle_page p l i)) (inr (q, inr (inl (i, h))))
on_page-Kept s p l (inr (q, inr (inr (inl (i, h))))) =
    subst (Kept s) (sym (idle_page p l i)) (inr (q, inr (inr (inl (i, h)))))
on_page-Kept s p l (inr (q, inr (inr (inr (i, h))))) =
    subst (Kept s) (sym (idle_page p l i)) (inr (q, inr (inr (inr (i, h)))))
