-- ===== src/Dashboard/Sessions/Ends.antt =====
-- The loop that loads the rows again ends (dashboard/src/pages/Sessions/hooks/useSessions.ts, load).
use trace_ux.Base.{
  ℕ, zero, suc, ◌+◌, ◌*◌, ◌-◌, ◌≤◌, ◌≡◌, subst, ◌⊎◌, inl, inr, true, false, ◌&&◌, Option, List,
  arith, ltb, max, length, length-append, Bool-cases,
}
use trace_ux.Dashboard.Sessions.{Row, Cursor, Result, nothing, load_next, load_until, load_sessions}
use trace_ux.Dashboard.Sessions.Paging.{load_until_again, load_until_stops}

next_length :
    (f : Option Cursor → List Row) (r : Result)
    → (load_next f r).has_more ≡ true
    → length (load_next f r).rows ≡ length r.rows + 40
unfolding load_next
next_length f r h = ground (arith, h, length-append r.rows (f r.cursor))

load_until_ends :
    (f : Option Cursor → List Row) (k t : ℕ) (r : Result)
    → t ≤ length r.rows + 40 * suc k
    → ((load_until f (suc k) t r).has_more ≡ false) ⊎ (t ≤ length (load_until f (suc k) t r).rows)
load_until_ends f zero t r h = elim (Bool-cases (load_next f r).has_more) [
  | inl m ↦
      let one : load_until f 1 t r ≡ load_next f r = unfold load_until in ground arith in
      rw one (inr (omega (arith, next_length f r m, h)))
  | inr m ↦
      let one : load_until f 1 t r ≡ load_next f r = unfold load_until in ground arith in
      rw one (inl m)
]
load_until_ends f (suc k) t r h =
    let n = load_next f r in
    elim (Bool-cases (n.has_more && ltb (length n.rows) t)) [
      | inl b ↦
          let m : n.has_more ≡ true = ground (arith, b) in
          rw (load_until_again f k t r b)
            (load_until_ends f k t n (omega (arith, next_length f r m, h)))
      | inr b ↦
          rw (load_until_stops f (suc k) t r b)
            (elim (Bool-cases n.has_more) [ inl m ↦ inr (ground (arith, b, m)) | inr m ↦ inl m ])
    ]

-- Whatever the server answers, the loop that loads the rows again ends of itself within the rounds it
-- is given: with the last page, or with as many rows as were loaded before, forty at least.
pub load_sessions_ends :
    (f : Option Cursor → List Row) (cached : ℕ)
    → ((load_sessions f cached).has_more ≡ false)
      ⊎ (max 40 cached ≤ length (load_sessions f cached).rows)
unfolding load_sessions
load_sessions_ends f cached =
    let t = max 40 cached in
    let e : suc (t - 1) ≡ t = omega arith in
    subst
      (λ k.
        ((load_until f k t nothing).has_more ≡ false)
        ⊎ (t ≤ length (load_until f k t nothing).rows))
      e (load_until_ends f (t - 1) t nothing (omega arith))
