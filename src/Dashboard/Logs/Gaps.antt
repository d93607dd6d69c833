-- ===== src/Dashboard/Logs/Gaps.antt =====
-- What a live refresh keeps and what it leaves out (dashboard/src/pages/Logs/hooks/useLogs.ts).
use trace_ux.Base.{
  ℕ, zero, suc, ◌+◌, ◌-◌, ◌≤◌, ◌≡◌, refl, sym, ap, subst, ◌∙◌, true, false, not, ◌&&◌, List, [],
  ◌∷◌, ◌++◌, arith, max, length, filter, take, drop, All,
}
use mathlib.Core.List.{append_assoc, append-nil}
use trace_ux.Dashboard.Logs.{Log, TimeWindow, has_log, in_window, refreshed, with_page}
use trace_ux.Dashboard.Logs.Merged.{Distinct, has_log-append, filter-has_log}

later_log :
    (xs : List Log) (y : Log) (ys : List Log) → Distinct (xs ++ y ∷ ys) → has_log y.id xs ≡ false
unfolding has_log
later_log [] y ys d = refl
later_log (x ∷ xs) y ys d =
    ground (arith, d, later_log xs y ys d.1, has_log-append x.id xs (y ∷ ys))

drop_log : (xs : List Log) (y : Log) (ys : List Log) → Distinct (xs ++ y ∷ ys) → Distinct (xs ++ ys)
drop_log [] y ys d = d.1
drop_log (x ∷ xs) y ys d = (
  unfold has_log in ground (arith, d.0, has_log-append x.id xs (y ∷ ys), has_log-append x.id xs ys),
  drop_log xs y ys d.1,
)

has_log_self : (xs : List Log) (y : Log) (ys : List Log) → has_log y.id (xs ++ y ∷ ys) ≡ true
has_log_self xs y ys = unfold has_log in ground (arith, has_log-append y.id xs (y ∷ ys))

-- The filter of a refresh, on rows that are all in the window.
unseen :
    (w : TimeWindow) (pre old : List Log)
    → Distinct (pre ++ old)
    → (m : ℕ) → All (λ l. in_window w l ≡ true) (take m old)
    → filter (λ l. not (has_log l.id pre) && in_window w l) (take m old) ≡ take m old
unfolding filter
unseen w pre old d zero a = refl
unseen w pre [] d (suc m) a = refl
unseen w pre (o ∷ old) d (suc m) a =
    rw (later_log pre o old d)
      (rw (a.0) (ap (◌∷◌ o) (unseen w pre old (drop_log pre o old d) m a.1)))

seen_dropped :
    (w : TimeWindow) (pre old : List Log) (k m : ℕ)
    → Distinct (pre ++ old)
    → All (λ l. in_window w l ≡ true) (take m old)
    → filter (λ l. not (has_log l.id (pre ++ take k old)) && in_window w l) (take m old)
      ≡ drop k (take m old)
unfolding filter
seen_dropped w pre old zero m d a = rw (append-nil {0} pre) (unseen w pre old d m a)
seen_dropped w pre old (suc k) zero d a = refl
seen_dropped w pre [] (suc k) (suc m) d a = refl
seen_dropped w pre (o ∷ old) (suc k) (suc m) d a =
    let e : (pre ++ o ∷ []) ++ take k old ≡ pre ++ o ∷ take k old =
      append_assoc {0} pre (o ∷ []) (take k old) in
    let g : (pre ++ o ∷ []) ++ old ≡ pre ++ o ∷ old = append_assoc {0} pre (o ∷ []) old in
    rw (has_log_self pre o (take k old)) (
      subst
        (λ p.
          filter (λ l. not (has_log l.id p) && in_window w l) (take m old) ≡ drop k (take m old))
        e (seen_dropped w (pre ++ o ∷ []) old k m (subst Distinct (sym g) d) a.1))

take_none : (n : ℕ) → Path (List Log) (take n []) []
take_none zero = refl
take_none (suc n) = refl

take_same : (a b : ℕ) → a ≡ b → (xs : List Log) → take a xs ≡ take b xs
take_same a b e xs = ap (λ n. take n xs) e

-- One more of a list with one more.
take_one_more : (n : ℕ) (x : Log) (xs : List Log) → take (1 + n) (x ∷ xs) ≡ x ∷ take n xs
take_one_more n x xs = take_same (1 + n) (suc n) (omega arith) (x ∷ xs)

take-both : (k m : ℕ) (xs : List Log) → take k xs ++ drop k (take m xs) ≡ take (max k m) xs
take-both zero m xs = take_same m (max 0 m) (omega arith) xs
take-both (suc k) zero [] = sym (take_none (max (suc k) 0))
take-both (suc k) zero (x ∷ xs) =
    ap (◌∷◌ x) (append-nil {0} (take k xs))
    ∙ take_same (suc k) (max (suc k) 0) (omega arith) (x ∷ xs)
take-both (suc k) (suc m) [] = sym (take_none (max (suc k) (suc m)))
take-both (suc k) (suc m) (x ∷ xs) =
    ap (◌∷◌ x) (take-both k m xs)
    ∙ (sym (take_one_more (max k m) x xs)
        ∙ take_same (1 + max k m) (max (suc k) (suc m)) (omega arith) (x ∷ xs))

take_past : (xs ys : List Log) (n : ℕ) → take (length xs + n) (xs ++ ys) ≡ xs ++ take n ys
take_past [] ys n = take_same (0 + n) n (omega arith) ys
take_past (x ∷ xs) ys n =
    take_same (length (x ∷ xs) + n) (1 + (length xs + n)) (omega arith) (x ∷ xs ++ ys)
    ∙ (take_one_more (length xs + n) x (xs ++ ys) ∙ ap (◌∷◌ x) (take_past xs ys n))

refreshed_past :
    (w : TimeWindow) (new old : List Log) (k m : ℕ)
    → Distinct (new ++ old)
    → All (λ l. in_window w l ≡ true) (take m old)
    → refreshed w (take (length new + k) (new ++ old)) (take m old)
      ≡ take (length new + max k m) (new ++ old)
unfolding refreshed
refreshed_past w new old k m d a = rw (take_past new old k) (
    rw (take_past new old (max k m)) (
      rw (seen_dropped w new old k m d a) (
        append_assoc {0} new (take k old) (drop k (take m old))
        ∙ ap (λ r. new ++ r) (take-both k m old))))

-- While the page shows the newest logs there were, all of them in the window, and no more logs were
-- added since than a refresh asks for: after the refresh it shows the newest logs there are, those it
-- showed and the new ones among them, without a gap.
pub refresh_leaves_no_gap :
    (w : TimeWindow) (new old : List Log) (p m : ℕ)
    → Distinct (new ++ old)
    → length new ≤ p
    → All (λ l. in_window w l ≡ true) (take m old)
    → refreshed w (take p (new ++ old)) (take m old) ≡ take (max p (length new + m)) (new ++ old)
refresh_leaves_no_gap w new old p m d h a =
    let e : length new + (p - length new) ≡ p = omega arith in
    let g : length new + max (p - length new) m ≡ max p (length new + m) = omega arith in
    subst
      (λ n.
        refreshed w (take n (new ++ old)) (take m old) ≡ take (max p (length new + m)) (new ++ old))
      e
      (refreshed_past w new old (p - length new) m d a
        ∙ take_same (length new + max (p - length new) m) (max p (length new + m)) g (new ++ old))

take-has_log : (n k : ℕ) (ls : List Log) → has_log n ls ≡ false → has_log n (take k ls) ≡ false
unfolding has_log
take-has_log n zero ls h = refl
take-has_log n (suc k) [] h = refl
take-has_log n (suc k) (l ∷ ls) h = ground (arith, h, take-has_log n k ls (ground (arith, h)))

drop-has_log : (n k : ℕ) (ls : List Log) → has_log n ls ≡ false → has_log n (drop k ls) ≡ false
unfolding has_log
drop-has_log n zero ls h = h
drop-has_log n (suc k) [] h = refl
drop-has_log n (suc k) (l ∷ ls) h = drop-has_log n k ls (ground (arith, h))

append-lacks :
    (n : ℕ) (xs ys : List Log)
    → has_log n xs ≡ false
    → has_log n ys ≡ false
    → has_log n (xs ++ ys) ≡ false
append-lacks n xs ys h g = ground (arith, h, g, has_log-append n xs ys)

lacks-end : (n : ℕ) (xs ys : List Log) → has_log n (xs ++ ys) ≡ false → has_log n ys ≡ false
lacks-end n xs ys h = ground (arith, h, has_log-append n xs ys)

head_log : (x : Log) (xs ys : List Log) → Distinct (xs ++ x ∷ ys) → has_log x.id ys ≡ false
head_log x [] ys d = d.0
head_log x (y ∷ xs) ys d = head_log x xs ys d.1

-- The first logs of a list that begins with more than those.
take_start : (p : ℕ) (xs ys : List Log) → p ≤ length xs → take p (xs ++ ys) ≡ take p xs
take_start zero xs ys h = refl
take_start (suc p) [] ys h = ground (arith, h)
take_start (suc p) (x ∷ xs) ys h = ap (◌∷◌ x) (take_start p xs ys (omega arith))

refreshed-lacks :
    (n : ℕ) (w : TimeWindow) (rows current : List Log)
    → has_log n rows ≡ false
    → has_log n current ≡ false
    → has_log n (refreshed w rows current) ≡ false
unfolding refreshed
refreshed-lacks n w rows current h g =
    let p = λ (l : Log). not (has_log l.id rows) && in_window w l in
    append-lacks n rows (filter p current) h (filter-has_log p n current g)

with_page-lacks :
    (n : ℕ) (current page : List Log)
    → has_log n current ≡ false
    → has_log n page ≡ false
    → has_log n (with_page current page) ≡ false
unfolding with_page
with_page-lacks n current page h g =
    let p = λ (l : Log). not (has_log l.id current) in
    append-lacks n current (filter p page) h (filter-has_log p n page g)

-- A log that at least as many new ones precede as a refresh asks for, added since the last refresh, is
-- on the page neither after this refresh nor after the next older page, which starts behind the last
-- log that is shown.
pub crowded_out :
    (w : TimeWindow) (pre : List Log) (x : Log) (post old : List Log) (p m q : ℕ)
    → Distinct (pre ++ x ∷ (post ++ old))
    → p ≤ length pre
    → (has_log x.id (refreshed w (take p (pre ++ x ∷ (post ++ old))) (take m old)) ≡ false)
      × (has_log x.id (
            with_page
              (refreshed w (take p (pre ++ x ∷ (post ++ old))) (take m old))
              (take q (drop m old)))
          ≡ false)
crowded_out w pre x post old p m q d h =
    let rows = take p (pre ++ x ∷ (post ++ old)) in
    let behind : has_log x.id old ≡ false =
      lacks-end x.id post old (head_log x pre (post ++ old) d) in
    let e : has_log x.id rows ≡ false =
      rw (take_start p pre (x ∷ (post ++ old)) h)
        (take-has_log x.id p pre (later_log pre x (post ++ old) d)) in
    let g : has_log x.id (refreshed w rows (take m old)) ≡ false =
      refreshed-lacks x.id w rows (take m old) e (take-has_log x.id m old behind) in
    (
      g,
      with_page-lacks x.id (refreshed w rows (take m old)) (take q (drop m old)) g
          (take-has_log x.id q (drop m old) (drop-has_log x.id m old behind)),
    )
