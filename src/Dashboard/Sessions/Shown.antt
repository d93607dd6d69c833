-- ===== src/Dashboard/Sessions/Shown.antt =====
-- What is shown answers the query (dashboard/src/pages/Sessions/hooks/useSessions.ts). A page that is
-- opened again is a query that changes: its requests under way are as stale as those of a query before.
use trace_ux.Base.{
  ℕ, zero, suc, ◌≡◌, refl, subst, ◌⊎◌, inl, inr, Bool, true, some, List, [], ◌∷◌, get_elem?,
  Option-cases, All,
}
use trace_ux.Dashboard.Sessions.{forget_session, mark_session_viewed}
use trace_ux.Dashboard.Sessions.Screen.{
  Screen, mounted, enter, leave, is_shown, searching, Event, query_changes, leaves, loaded,
  load_failed, more_asked, page_came, page_failed, deleted, viewed, step, run,
}
use trace_ux.Dashboard.Sessions.Matches.{Matching, Honest, Kept, Showing, forget-Kept, mark-Kept}
use trace_ux.Dashboard.Sessions.Right.{
  LoadFits, PageFits, Answering, Right, leave-Right, enter-Right, same-Right,
}
use trace_ux.Dashboard.Sessions.Steps.{
  on_loaded-Right, on_load_failed-Right, on_page-Right, on_page_failed-Right, load_more-Right,
}

one_of :
    {A : Type 0} (P : A → Type 0) (xs : List A) (n : ℕ) (x : A)
    → All P xs
    → get_elem? xs n ≡ some x
    → P x
one_of P [] n x a e = absurd (cc)
one_of P (y ∷ ys) zero x a e = subst P (cc) a.0
one_of P (y ∷ ys) (suc n) x a e = one_of P ys n x a.1 e

module _ (matches : ℕ → ℕ → Bool) where
  -- The answers that come are honest.
  abbrev pub HonestEvent : Event → Type 0
  HonestEvent (query_changes k) = Unit
  HonestEvent leaves = Unit
  HonestEvent (loaded n server) = Honest matches server
  HonestEvent (load_failed n) = Unit
  HonestEvent more_asked = Unit
  HonestEvent (page_came n server) = Honest matches server
  HonestEvent (page_failed n) = Unit
  HonestEvent (deleted n) = Unit
  HonestEvent (viewed n) = Unit

  step-Right : (e : Event) (s : Screen) → HonestEvent e → Right matches s → Right matches (step e s)
  unfolding step
  step-Right (query_changes k) s h v = enter-Right matches k (leave s) (leave-Right matches s v)
  step-Right leaves s h v = leave-Right matches s v
  step-Right (loaded n server) s h v = elim (Option-cases (get_elem? s.loads n)) [
    | inl e ↦ rw e v
    | inr (l, e) ↦ rw e (
        on_loaded-Right matches server l s h
          (one_of (LoadFits s.generation s.key s.shown_key) s.loads n l v.loads e) v)
  ]
  step-Right (load_failed n) s h v = elim (Option-cases (get_elem? s.loads n)) [
    | inl e ↦ rw e v
    | inr (l, e) ↦ rw e (
        on_load_failed-Right matches l s
          (one_of (LoadFits s.generation s.key s.shown_key) s.loads n l v.loads e) v)
  ]
  step-Right more_asked s h v = load_more-Right matches s v
  step-Right (page_came n server) s h v = elim (Option-cases (get_elem? s.pages n)) [
    | inl e ↦ rw e v
    | inr (p, e) ↦ rw e (
        on_page-Right matches server p s h
          (one_of (PageFits s.generation s.key s.shown_key) s.pages n p v.pages e)
          (one_of (λ q. Matching matches q.key q.result.rows) s.pages n p v.asked e) v)
  ]
  step-Right (page_failed n) s h v = elim (Option-cases (get_elem? s.pages n)) [
    | inl e ↦ rw e v
    | inr (p, e) ↦ rw e (on_page_failed-Right matches p s v)
  ]
  step-Right (deleted n) s h v =
      same-Right matches s (record s { cache = forget_session n s.cache }) v
        (forget-Kept matches n s.cache v.kept) (refl, refl) (refl, refl, refl, refl)
  step-Right (viewed n) s h v =
      same-Right matches s (record s { cache = mark_session_viewed n s.cache }) v
        (mark-Kept matches n s.cache v.kept) (refl, refl) (refl, refl, refl, refl)

  run-Right :
      (es : List Event) (s : Screen)
      → All HonestEvent es
      → Right matches s
      → Right matches (run es s)
  unfolding run
  run-Right [] s h v = v
  run-Right (e ∷ es) s h v = run-Right es (step e s) h.1 (step-Right e s h.0 v)

  mounted-Right : (k : ℕ) → Right matches (mounted k)
  mounted-Right k = record {
    kept = tt;
    shown = tt;
    only = inl refl;
    loads = tt;
    pages = tt;
    asked = tt;
  }

  shown_or_searching :
      (s : Screen) → Right matches s → (searching s ≡ true) ⊎ Showing matches s.key s.result
  unfolding searching is_shown
  shown_or_searching s v = elim v.only [
    | inl e ↦ inl (rw e refl)
    | inr e ↦ inr (subst (λ o. Answering matches o s.result) e v.shown)
  ]

  -- As long as the server answers each query with recordings that it asks for: whatever order queries
  -- change in, answers come late, fail or repeat, further pages are asked for and recordings are
  -- deleted, the page either says that it is searching or shows recordings that the present query asks
  -- for, and every result that is kept for the way back answers its own query.
  pub shown_rows_answer :
      (k : ℕ) (es : List Event)
      → All HonestEvent es
      → ((searching (run es (enter k (mounted k))) ≡ true)
          ⊎ Showing matches
              (run es (enter k (mounted k))).key
              (run es (enter k (mounted k))).result)
        × Kept matches (run es (enter k (mounted k))).cache
  shown_rows_answer k es h =
      let v =
        run-Right es (enter k (mounted k)) h
          (enter-Right matches k (mounted k) (mounted-Right k)) in
      (shown_or_searching (run es (enter k (mounted k))) v, v.kept)
