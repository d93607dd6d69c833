-- ===== src/Examples/Tables.antt =====
-- The list of recordings: theorems at concrete inputs.
use trace_ux.Base.{
  ℕ, zero, suc, ◌+◌, ◌≤◌, ◌≡◌, refl, sym, ap, subst, ◌⊎◌, true, false, Option, none, some, List, [],
  ◌∷◌, ◌++◌, arith, leb, ◌==◌, if◌then◌else◌, length, take,
}
use trace_ux.Dashboard.Sessions.{Row, Cursor, has_row, load_sessions}
use trace_ux.Dashboard.Sessions.Paging.{Serves}
use trace_ux.Dashboard.Sessions.Whole.{Distinct, more_pages, pages_reach_all}
use trace_ux.Dashboard.Sessions.Screen.{
  mounted, enter, Server, searching, Event, query_changes, loaded, load_failed, more_asked,
  page_failed, deleted, viewed, step, run,
}
use trace_ux.Dashboard.Sessions.Matches.{Kept, Showing}
use trace_ux.Dashboard.Sessions.Shown.{shown_rows_answer}
use trace_ux.Dashboard.Sessions.Answered.{AtRest, answer_ends_search}

abbrev recording : ℕ → Row
recording n = record { id = n; started_at = 1_000 + n; viewed = false }

-- The newest first.
unfoldable recordings : ℕ → List Row
recordings zero = []
recordings (suc n) = recording n ∷ recordings n

recordings-newer : (n m : ℕ) → n ≤ m → has_row m (recordings n) ≡ false
unfolding recordings has_row
recordings-newer zero m h = refl
recordings-newer (suc n) m h = let e = recordings-newer n m (omega arith) in ground (arith, e, h)

recordings-Distinct : (n : ℕ) → Distinct (recordings n)
unfolding recordings
recordings-Distinct zero = tt
recordings-Distinct (suc n) = (recordings-newer n n (omega arith), recordings-Distinct n)

-- A server that keeps one list.
unfoldable after_row : ℕ → List Row → List Row
after_row n [] = []
after_row n (r ∷ rs) = let rest = after_row n rs in if r.id == n then rs else rest

unfoldable serve : List Row → Option Cursor → List Row
unfolding after_row
serve all none = take 40 all
serve all (some c) = take 40 (after_row c.before_id all)

after_row-append :
    (before : List Row) (r : Row) (rest : List Row)
    → Distinct (before ++ r ∷ rest)
    → after_row r.id (before ++ r ∷ rest) ≡ rest
unfolding after_row has_row
after_row-append [] r rest d = ground arith
after_row-append (b ∷ before) r rest d =
    let e = after_row-append before r rest d.1 in
    let n : (b.id == r.id) ≡ false = apart b before r rest d.0 in rw n e
  where
    apart :
        (b : Row) (before : List Row) (r : Row) (rest : List Row)
        → has_row b.id (before ++ r ∷ rest) ≡ false
        → (b.id == r.id) ≡ false
    apart b [] r rest h = ground (arith, h)
    apart b (x ∷ before) r rest h = apart b before r rest (ground (arith, h))

serve-Serves : (all : List Row) → Distinct all → Serves (serve all) all
unfolding serve
serve-Serves all d = record {
  first = refl;
  after = λ before r rest e.
      subst (λ xs. take 40 (after_row r.id xs) ≡ take 40 rest) (sym e)
        (ap (λ xs. take 40 xs) (after_row-append before r rest (subst Distinct e d)));
}

recordings-length : (n : ℕ) → length (recordings n) ≡ n
unfolding recordings
recordings-length zero = refl
recordings-length (suc n) = ap suc (recordings-length n)

pages_reach_all_example :
    (more_pages (serve (recordings 45)) 1 (load_sessions (serve (recordings 45)) 0)).rows
    ≡ recordings 45
pages_reach_all_example =
    pages_reach_all (serve (recordings 45)) (recordings 45)
      (serve-Serves (recordings 45) (recordings-Distinct 45)) (recordings-Distinct 45) 0 1
      (omega (arith, recordings-length 45))

-- Every query has one recording, of its own number and later ones'.
abbrev one_each : Server
one_each k c = recording k ∷ []

one_each-asked : (k : ℕ) → leb k k ≡ true
one_each-asked k = ground arith

-- The query changes while the first one is being answered: that answer comes late.
abbrev turns : List Event
turns =
    query_changes 5
    ∷ loaded 1 one_each
    ∷ loaded 0 one_each
    ∷ more_asked
    ∷ deleted 3
    ∷ query_changes 3
    ∷ load_failed 0
    ∷ []

shown_rows_answer_example :
    ((searching (run turns (enter 3 (mounted 3))) ≡ true)
      ⊎ Showing
          (λ k n. leb k n)
          (run turns (enter 3 (mounted 3))).key
          (run turns (enter 3 (mounted 3))).result)
    × Kept (λ k n. leb k n) (run turns (enter 3 (mounted 3))).cache
shown_rows_answer_example =
    shown_rows_answer (λ k n. leb k n) 3 turns
      (
        tt,
        (
          (λ k c. (one_each-asked k, tt)),
          ((λ k c. (one_each-asked k, tt)), (tt, (tt, (tt, (tt, tt))))),
        ),
      )

abbrev meanwhile : List Event
meanwhile = loaded 1 one_each ∷ more_asked ∷ page_failed 0 ∷ viewed 4 ∷ []

answer_ends_search_example :
    AtRest (step (loaded 0 one_each) (run meanwhile (step (query_changes 5) (enter 3 (mounted 3)))))
    × AtRest (step (load_failed 0) (run meanwhile (step (query_changes 5) (enter 3 (mounted 3)))))
answer_ends_search_example =
    answer_ends_search 5 (enter 3 (mounted 3)) meanwhile one_each (tt, (tt, (tt, (tt, tt))))
