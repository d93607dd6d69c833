-- ===== src/Dashboard/Sessions/Paging.antt =====
-- The pages of the list (dashboard/src/pages/Sessions/hooks/useSessions.ts, load and loadMore).
use trace_ux.Base.{
  ℕ, zero, suc, ◌+◌, ◌*◌, ◌-◌, ◌≤◌, ◌≡◌, refl, sym, ap, subst, ◌∙◌, ◌⊎◌, inl, inr, true, false,
  ◌&&◌, Option, none, some, List, [], ◌∷◌, ◌++◌, arith, ltb, ◌==◌, max, length, take, drop,
  take-append-drop, take_all, length-append, length-take, Bool-cases,
}
use mathlib.Core.List.{append_assoc}
use trace_ux.Dashboard.Sessions.{
  Row, Cursor, Result, cursor_of, cursor_after, nothing, load_next, load_until, load_sessions,
}

-- The last row of a page.
last_row :
    (c : Option Cursor) (r : Row) (rs : List Row)
    → (init : List Row) × (l : Row) × (r ∷ rs ≡ init ++ l ∷ [])
      × (cursor_after c (r ∷ rs) ≡ some (cursor_of l))
unfolding cursor_after
last_row c r [] = ([], r, refl, refl)
last_row c r (s ∷ rs) =
    let (init, l, e, q) = last_row (some (cursor_of r)) s rs in (r ∷ init, l, ap (◌∷◌ r) e, q)

-- The request answers from one list: at first its beginning, then what comes after the row that the
-- cursor names, a page at a time.
pub record Serves (list_sessions : Option Cursor → List Row) (all : List Row) : Type 0 where
  pub first : list_sessions none ≡ take 40 all
  pub after :
      (before : List Row) (r : Row) (rest : List Row)
      → all ≡ before ++ r ∷ rest
      → list_sessions (some (cursor_of r)) ≡ take 40 rest

-- What is loaded, and what is left.
pub record Covers (f : Option Cursor → List Row) (all : List Row) (r : Result) : Type 0 where
  pub rest : List Row
  pub split : all ≡ r.rows ++ rest
  pub next : f r.cursor ≡ take 40 rest

module _ (f : Option Cursor → List Row) (all : List Row) (v : Serves f all) where
  pub nothing-Covers : Covers f all nothing
  nothing-Covers = record { rest = all; split = refl; next = v.first }

  next_page :
      (c : Option Cursor) (rows rest page : List Row)
      → all ≡ rows ++ rest
      → f c ≡ take 40 rest
      → page ≡ take 40 rest
      → f (cursor_after c page) ≡ take 40 (drop 40 rest)
  next_page c rows [] page s n p = rw p (unfold cursor_after in n)
  next_page c rows (r ∷ rest) page s n p =
      let (init, l, e, q) = last_row c r (take 39 rest) in
      let whole : r ∷ rest ≡ (init ++ l ∷ []) ++ drop 40 (r ∷ rest) =
        sym (take-append-drop 40 (r ∷ rest)) ∙ ap (λ xs. xs ++ drop 40 (r ∷ rest)) e in
      rw p (
        rw q (
          v.after (rows ++ init) l (drop 40 (r ∷ rest))
            (s ∙ (ap (λ xs. rows ++ xs) whole ∙ simp append_assoc refl))))

  pub load_next-Covers : (r : Result) → Covers f all r → Covers f all (load_next f r)
  unfolding load_next
  load_next-Covers r c = record {
    rest = drop 40 c.rest;
    split =
        c.split
        ∙ (ap (λ xs. r.rows ++ xs) (sym (take-append-drop 40 c.rest))
            ∙ (sym (append_assoc {0} r.rows (take 40 c.rest) (drop 40 c.rest))
                ∙ ap (λ xs. (r.rows ++ xs) ++ drop 40 c.rest) (sym c.next)));
    next = next_page r.cursor r.rows c.rest (f r.cursor) c.split c.next c.next;
  }

  -- A full page adds its forty rows; any other is the last.
  pub page_full_or_last :
      (r : Result)
      → Covers f all r
      → ((load_next f r).has_more ≡ true) × (length (load_next f r).rows ≡ length r.rows + 40)
        ⊎ ((load_next f r).has_more ≡ false) × ((load_next f r).rows ≡ all)
  unfolding load_next
  page_full_or_last r c = elim (Bool-cases (length (f r.cursor) == 40)) [
    | inl e ↦ inl (e, omega (arith, length-append r.rows (f r.cursor), full (f r.cursor) e))
    | inr e ↦ inr (
      e,
      rw c.next (
          sym (
            c.split
            ∙ ap (λ xs. r.rows ++ xs)
                (sym (
                  take_all 40 c.rest
                    (short c.rest (subst (λ p. (length p == 40) ≡ false) c.next e)))))),
    )
  ]
    where
      full : (p : List Row) → (length p == 40) ≡ true → length p ≡ 40
      full p e = ground (arith, e)

      short : (p : List Row) → (length (take 40 p) == 40) ≡ false → length p ≤ 40
      short p e = ground (arith, e, length-take 40 p)

-- Loaded from the list `all`: a beginning of it, of at least `target` rows where it has as many, and
-- with the cursor to go on from where there may be more.
pub record Loaded (all : List Row) (target : ℕ) (r : Result) : Type 0 where
  pub begins : (rest : List Row) × (all ≡ r.rows ++ rest)
  pub enough : (target ≤ length r.rows) ⊎ (r.rows ≡ all)
  pub more : ((r.has_more ≡ true) × ((c : Cursor) × (r.cursor ≡ some c))) ⊎ (r.rows ≡ all)

cursor_of_page :
    (c : Option Cursor) (p : List Row)
    → (length p == 40) ≡ true
    → (d : Cursor) × (cursor_after c p ≡ some d)
cursor_of_page c [] e = absurd (ground (arith, e))
cursor_of_page c (r ∷ rs) e = let (init, l, p, q) = last_row c r rs in (cursor_of l, q)

-- One more round of the loop, or the last.
pub load_until_again :
    (f : Option Cursor → List Row) (k t : ℕ) (r : Result)
    → (load_next f r).has_more && ltb (length (load_next f r).rows) t ≡ true
    → load_until f (suc (suc k)) t r ≡ load_until f (suc k) t (load_next f r)
unfolding load_until
load_until_again f k t r b = rw b refl

pub load_until_stops :
    (f : Option Cursor → List Row) (k t : ℕ) (r : Result)
    → (load_next f r).has_more && ltb (length (load_next f r).rows) t ≡ false
    → load_until f (suc k) t r ≡ load_next f r
unfolding load_until
load_until_stops f k t r b = rw b refl

module _ (f : Option Cursor → List Row) (all : List Row) (v : Serves f all) where
  pub load_next-more :
      (r : Result)
      → Covers f all r
      → ((load_next f r).has_more ≡ true) × ((c : Cursor) × ((load_next f r).cursor ≡ some c))
        ⊎ ((load_next f r).rows ≡ all)
  load_next-more r c = elim (page_full_or_last f all v r c) [
    | inl (h, n) ↦
        inl (h, unfold load_next in cursor_of_page r.cursor (f r.cursor) (unfold load_next in h))
    | inr (m, e) ↦ inr e
  ]

  pub load_until-Loaded :
      (k t : ℕ) (r : Result)
      → Covers f all r
      → t ≤ length r.rows + 40 * suc k
      → Covers f all (load_until f (suc k) t r) × Loaded all t (load_until f (suc k) t r)
  load_until-Loaded zero t r c h =
      let n = load_next f r in
      let d = load_next-Covers f all v r c in
      let one : load_until f 1 t r ≡ n = unfold load_until in ground arith in
      rw one (
        d,
        record {
          begins = (d.rest, d.split);
          enough = elim (page_full_or_last f all v r c) [
            | inl (b, e) ↦ inl (omega (arith, e, h))
            | inr (m, e) ↦ inr e
          ];
          more = load_next-more r c;
        },
      )
  load_until-Loaded (suc k) t r c h =
      let n = load_next f r in
      let d = load_next-Covers f all v r c in
      elim (Bool-cases (n.has_more && ltb (length n.rows) t)) [
        | inl b ↦
            let step : load_until f (suc (suc k)) t r ≡ load_until f (suc k) t n =
              load_until_again f k t r b in
            let bound : t ≤ length n.rows + 40 * suc k = elim (page_full_or_last f all v r c) [
              | inl (m, e) ↦ omega (arith, e, h)
              | inr (m, e) ↦ absurd (ground (arith, b, m))
            ] in
            let rest = load_until-Loaded k t n d bound in rw step rest
        | inr b ↦
            let step : load_until f (suc (suc k)) t r ≡ n = load_until_stops f (suc k) t r b in
            rw step (
              d,
              record {
                begins = (d.rest, d.split);
                enough = elim (page_full_or_last f all v r c) [
                  | inl (m, e) ↦ inl (ground (arith, b, m))
                  | inr (m, e) ↦ inr e
                ];
                more = load_next-more r c;
              },
            )
      ]

  -- However many rows were loaded before, the reload ends with a beginning of the list that has as
  -- many again, forty at least, or all there are; and as long as rows are missing, it says that there
  -- are more and holds the cursor to ask for them.
  pub load_sessions-Loaded : (cached : ℕ) → Loaded all (max 40 cached) (load_sessions f cached)
  unfolding load_sessions
  load_sessions-Loaded cached =
      let t = max 40 cached in
      let p : Loaded all t (load_until f (suc (t - 1)) t nothing) =
        (load_until-Loaded (t - 1) t nothing (nothing-Covers f all v) (omega arith)).1 in
      let e : suc (t - 1) ≡ t = omega arith in
      subst (λ k. Loaded all t (load_until f k t nothing)) e p
