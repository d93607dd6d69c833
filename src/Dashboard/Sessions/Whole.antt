-- ===== src/Dashboard/Sessions/Whole.antt =====
-- The list read to its end (dashboard/src/pages/Sessions/hooks/useSessions.ts, load and loadMore).
use trace_ux.Base.{
  ℕ, zero, suc, ◌+◌, ◌*◌, ◌-◌, ◌≤◌, ◌≡◌, refl, sym, ap, subst, ◌∙◌, ◌⊎◌, inl, inr, true, false, not,
  ◌||◌, Option, none, some, List, [], ◌∷◌, ◌++◌, arith, max, length, filter, take, length-append,
  Bool-cases, Option-cases,
}
use mathlib.Core.List.{append-nil}
use trace_ux.Dashboard.Sessions.{
  Row, Cursor, Result, nothing, has_row, load_next, load_until, load_sessions, load_more,
}
use trace_ux.Dashboard.Sessions.Paging.{
  Serves, Covers, nothing-Covers, load_next-Covers, page_full_or_last, load_next-more,
  load_until-Loaded,
}

-- No row comes twice.
abbrev pub Distinct : List Row → Type 0
Distinct [] = Unit
Distinct (r ∷ rs) = (has_row r.id rs ≡ false) × Distinct rs

has_row-append : (n : ℕ) (xs ys : List Row) → has_row n (xs ++ ys) ≡ has_row n xs || has_row n ys
unfolding has_row
has_row-append n [] ys = refl
has_row-append n (x ∷ xs) ys = ground (arith, has_row-append n xs ys)

new_row :
    (xs : List Row) (y : Row) (ys : List Row) → Distinct (xs ++ y ∷ ys) → has_row y.id xs ≡ false
unfolding has_row
new_row [] y ys d = refl
new_row (x ∷ xs) y ys d = ground (arith, d, new_row xs y ys d.1, has_row-append x.id xs (y ∷ ys))

drop_row :
    (n : ℕ) (xs : List Row) (y : Row) (ys : List Row)
    → has_row n (xs ++ y ∷ ys) ≡ false
    → has_row n (xs ++ ys) ≡ false
drop_row n xs y ys h =
    unfold has_row in ground (arith, h, has_row-append n xs (y ∷ ys), has_row-append n xs ys)

drop_one : (xs : List Row) (y : Row) (ys : List Row) → Distinct (xs ++ y ∷ ys) → Distinct (xs ++ ys)
drop_one [] y ys d = d.1
drop_one (x ∷ xs) y ys d = (drop_row x.id xs y ys d.0, drop_one xs y ys d.1)

no_rows : (rs : List Row) → length rs ≤ 0 → rs ≡ []
no_rows [] h = refl
no_rows (r ∷ rs) h = absurd (omega (arith, h))

-- `loadMore`, so many times.
unfoldable pub more_pages : (Option Cursor → List Row) → ℕ → Result → Result
more_pages f zero r = r
more_pages f (suc k) r = more_pages f k (load_more f r)

new_rows :
    (xs ys : List Row)
    → Distinct (xs ++ ys)
    → (n : ℕ) → filter (λ y. not (has_row y.id xs)) (take n ys) ≡ take n ys
unfolding filter
new_rows xs [] d zero = refl
new_rows xs [] d (suc n) = refl
new_rows xs (y ∷ ys) d zero = refl
new_rows xs (y ∷ ys) d (suc n) =
    let e = new_row xs y ys d in rw e (ap (◌∷◌ y) (new_rows xs ys (drop_one xs y ys d) n))

module _ (f : Option Cursor → List Row) (all : List Row) (v : Serves f all) (d : Distinct all) where
  -- Where there is more, a further page is one more round of the first loop.
  load_more-load_next :
      (r : Result) (c : Cursor)
      → Covers f all r
      → r.has_more ≡ true
      → r.cursor ≡ some c
      → load_more f r ≡ load_next f r
  unfolding load_more load_next
  load_more-load_next r c k h e =
      let n : f (some c) ≡ take 40 k.rest = subst (λ x. f x ≡ take 40 k.rest) e k.next in
      let g : filter (λ x. not (has_row x.id r.rows)) (f (some c)) ≡ f (some c) =
        subst (λ p. filter (λ x. not (has_row x.id r.rows)) p ≡ p) (sym n)
          (new_rows r.rows k.rest (subst Distinct k.split d) 40) in
      ground (arith, h, e, g)

  -- With so many rows left, so many pages do.
  record Nears (n : ℕ) (r : Result) : Type 0 where
    covers : Covers f all r
    more : ((r.has_more ≡ true) × ((c : Cursor) × (r.cursor ≡ some c))) ⊎ (r.rows ≡ all)
    left : length all ≤ length r.rows + n

  whole : (r : Result) → Covers f all r → length all ≤ length r.rows → r.rows ≡ all
  whole r c h =
      let n : length c.rest ≤ 0 =
        omega (arith, h, ap length c.split, length-append r.rows c.rest) in
      let e : c.rest ≡ [] = no_rows c.rest n in
      sym (c.split ∙ (ap (λ xs. r.rows ++ xs) e ∙ append-nil {0} r.rows))

  nothing_left : (r : Result) (c : Covers f all r) → r.rows ≡ all → c.rest ≡ []
  nothing_left r c e =
      no_rows c.rest (omega (arith, ap length e, ap length c.split, length-append r.rows c.rest))

  nothing_new :
      (r : Result) (k : Cursor)
      → Covers f all r
      → r.rows ≡ all
      → r.cursor ≡ some k
      → filter (λ x. not (has_row x.id r.rows)) (f (some k)) ≡ []
  unfolding filter
  nothing_new r k c e n =
      let g : f (some k) ≡ take 40 c.rest = subst (λ x. f x ≡ take 40 c.rest) n c.next in
      rw g (rw (nothing_left r c e) refl)

  complete_stays : (r : Result) → Covers f all r → r.rows ≡ all → (load_more f r).rows ≡ all
  unfolding load_more
  complete_stays r c e = elim (Bool-cases r.has_more) [
    | inl h ↦ elim (Option-cases r.cursor) [
      | inl n ↦ rw h (rw n e)
      | inr (k, n) ↦
          rw h
            (rw n (ap (λ xs. r.rows ++ xs) (nothing_new r k c e n) ∙ (append-nil {0} r.rows ∙ e)))
    ]
    | inr h ↦ rw h e
  ]

  no_page : (r : Result) → (r.has_more ≡ false) ⊎ (r.cursor ≡ none) → r ≡ load_more f r
  unfolding load_more
  no_page r (inl h) = ground (arith, h)
  no_page r (inr n) = elim (Bool-cases r.has_more) [
    | inl h ↦ ground (arith, h, n)
    | inr h ↦ ground (arith, h)
  ]

  load_more-Covers : (r : Result) → Covers f all r → Covers f all (load_more f r)
  load_more-Covers r c = elim (Bool-cases r.has_more) [
    | inl h ↦ elim (Option-cases r.cursor) [
      | inl n ↦ subst (Covers f all) (no_page r (inr n)) c
      | inr (k, n) ↦
          subst (Covers f all) (sym (load_more-load_next r k c h n)) (load_next-Covers f all v r c)
    ]
    | inr h ↦ subst (Covers f all) (no_page r (inl h)) c
  ]

  pages_stay : (k : ℕ) (r : Result) → Covers f all r → r.rows ≡ all → (more_pages f k r).rows ≡ all
  unfolding more_pages
  pages_stay zero r c e = e
  pages_stay (suc k) r c e =
      pages_stay k (load_more f r) (load_more-Covers r c) (complete_stays r c e)

  pages_arrive : (k : ℕ) (r : Result) → Nears (40 * k) r → (more_pages f k r).rows ≡ all
  unfolding more_pages
  pages_arrive zero r n = whole r n.covers (omega (arith, n.left))
  pages_arrive (suc k) r n = elim n.more [
    | inl (h, (c, e)) ↦
        let s = load_more-load_next r c n.covers h e in
        let w = load_next-Covers f all v r n.covers in
        elim (page_full_or_last f all v r n.covers) [
          | inl (m, l) ↦
              let u : Nears (40 * k) (load_next f r) = record {
                covers = w;
                more = load_next-more f all v r n.covers;
                left = omega (arith, l, n.left);
              } in
              pages_arrive k (load_more f r) (subst (Nears (40 * k)) (sym s) u)
          | inr (m, l) ↦
              pages_stay k (load_more f r) (load_more-Covers r n.covers) (ap (λ x. x.rows) s ∙ l)
        ]
    | inr e ↦ pages_stay (suc k) r n.covers e
  ]

  -- The list can be read to its end: after the first load, asking for more as often as there are
  -- pages of forty shows exactly the server's list, each row once and in its order, however many rows
  -- had been loaded before.
  pub pages_reach_all :
      (cached k : ℕ)
      → length all ≤ 40 * suc k
      → (more_pages f k (load_sessions f cached)).rows ≡ all
  unfolding load_sessions
  pages_reach_all cached k h =
      let t = max 40 cached in
      let e : suc (t - 1) ≡ t = omega arith in
      let (c, l) =
        load_until-Loaded f all v (t - 1) t nothing (nothing-Covers f all v) (omega arith) in
      let r = load_until f (suc (t - 1)) t nothing in
      let near : Nears (40 * k) r = record {
        covers = c;
        more = l.more;
        left = elim l.enough [ inl b ↦ omega (arith, b, h) | inr b ↦ omega (arith, ap length b) ];
      } in
      subst (λ j. (more_pages f k (load_until f j t nothing)).rows ≡ all) e (pages_arrive k r near)
