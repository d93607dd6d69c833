-- ===== src/Dashboard/Logs/Merged.antt =====
-- No log stands twice on the page (dashboard/src/pages/Logs/hooks/useLogs.ts), and the window is in
-- order (Logs.helpers.ts).
use trace_ux.Base.{
  ℕ, ◌≤◌, ◌≡◌, refl, ◌⊎◌, inl, inr, Bool, true, false, not, ◌&&◌, ◌||◌, Option, none, some, List,
  [], ◌∷◌, ◌++◌, arith, ◌==◌, if◌then◌else◌, filter, Bool-cases, All,
}
use trace_ux.Dashboard.Logs.{
  Log, TimeRange, minutes_15, hour_1, hours_6, hours_24, days_7, custom, all_time, TimeWindow,
  DateInput, duration_ms, custom_window, resolve_time_window, has_log, in_window, refreshed,
  with_page, Logs, blank, change_filters, tick, merged, on_rows, on_rows_failed, load_more,
  some_logs, added, on_page, on_page_failed, Happening, filters_change, ticks, rows_came,
  rows_failed, more_asked, page_came, page_failed, step, run,
}

abbrev pub Distinct : List Log → Type 0
Distinct [] = Unit
Distinct (l ∷ ls) = (has_log l.id ls ≡ false) × Distinct ls

pub has_log-append :
    (n : ℕ) (xs ys : List Log) → has_log n (xs ++ ys) ≡ has_log n xs || has_log n ys
unfolding has_log
has_log-append n [] ys = refl
has_log-append n (x ∷ xs) ys = ground (arith, has_log-append n xs ys)

pub filter-has_log :
    (p : Log → Bool) (n : ℕ) (ls : List Log)
    → has_log n ls ≡ false
    → has_log n (filter p ls) ≡ false
unfolding has_log filter
filter-has_log p n [] h = refl
filter-has_log p n (l ∷ ls) h = ground (arith, h, filter-has_log p n ls (ground (arith, h)))

filter-Distinct : (p : Log → Bool) (ls : List Log) → Distinct ls → Distinct (filter p ls)
unfolding filter
filter-Distinct p [] d = tt
filter-Distinct p (l ∷ ls) d =
    ground (arith, filter-Distinct p ls d.1, filter-has_log p l.id ls d.0)

unheard :
    (x : Log) (xs ys : List Log)
    → All (λ y. has_log y.id (x ∷ xs) ≡ false) ys
    → has_log x.id ys ≡ false
unfolding has_log
unheard x xs [] a = refl
unheard x xs (y ∷ ys) a = ground (arith, a, unheard x xs ys a.1)

fewer :
    (x : Log) (xs ys : List Log)
    → All (λ y. has_log y.id (x ∷ xs) ≡ false) ys
    → All (λ y. has_log y.id xs ≡ false) ys
unfolding has_log
fewer x xs [] a = tt
fewer x xs (y ∷ ys) a = (ground (arith, a), fewer x xs ys a.1)

-- Two lists without a number in common.
append-Distinct :
    (xs ys : List Log)
    → Distinct xs
    → Distinct ys
    → All (λ y. has_log y.id xs ≡ false) ys
    → Distinct (xs ++ ys)
unfolding has_log
append-Distinct [] ys d e a = e
append-Distinct (x ∷ xs) ys d e a = (
  ground (arith, d, has_log-append x.id xs ys, unheard x xs ys a),
  append-Distinct xs ys d.1 e (fewer x xs ys a),
)

filtered_away :
    (p : Log → Bool) (rows ls : List Log)
    → All (λ y. has_log y.id rows ≡ false) (filter (λ l. not (has_log l.id rows) && p l) ls)
unfolding filter
filtered_away p rows [] = tt
filtered_away p rows (l ∷ ls) = ground (arith, filtered_away p rows ls)

refreshed-Distinct :
    (w : TimeWindow) (rows current : List Log)
    → Distinct rows
    → Distinct current
    → Distinct (refreshed w rows current)
unfolding refreshed
refreshed-Distinct w rows current d e =
    let p = λ (l : Log). not (has_log l.id rows) && in_window w l in
    append-Distinct rows (filter p current) d (filter-Distinct p current e)
      (filtered_away (in_window w) rows current)

paged_away :
    (rows ls : List Log)
    → All (λ y. has_log y.id rows ≡ false) (filter (λ l. not (has_log l.id rows)) ls)
unfolding filter
paged_away rows [] = tt
paged_away rows (l ∷ ls) = ground (arith, paged_away rows ls)

with_page-Distinct :
    (current page : List Log) → Distinct current → Distinct page → Distinct (with_page current page)
unfolding with_page
with_page-Distinct current page d e =
    let p = λ (l : Log). not (has_log l.id current) in
    append-Distinct current (filter p page) d (filter-Distinct p page e) (paged_away current page)

-- What is shown, where anything is.
abbrev pub Unique : Option (List Log) → Type 0
Unique none = Unit
Unique (some ls) = Distinct ls

merged-Unique :
    (replace : Bool) (w : TimeWindow) (rows : List Log) (o : Option (List Log))
    → Distinct rows
    → Unique o
    → Distinct (merged replace w rows o)
merged-Unique replace w rows none d e = d
merged-Unique true w rows (some current) d e = d
merged-Unique false w rows (some current) d e = refreshed-Distinct w rows current d e

added-Unique :
    (page : List Log) (o : Option (List Log)) → Distinct page → Unique o → Distinct (added page o)
added-Unique page none d e = d
added-Unique page (some current) d e = with_page-Distinct current page e d

-- The server does not answer with one log twice.
abbrev pub Answers : Happening → Type 0
Answers (filters_change valid) = Unit
Answers ticks = Unit
Answers (rows_came g w rows) = Distinct rows
Answers (rows_failed g) = Unit
Answers (more_asked valid) = Unit
Answers (page_came g page) = Distinct page
Answers (page_failed g) = Unit

either-Unique :
    (b : Bool) (s u : Logs) → Unique s.logs → Unique u.logs → Unique (if b then s else u).logs
either-Unique true s u d e = d
either-Unique false s u d e = e

step-Unique : (h : Happening) (s : Logs) → Answers h → Unique s.logs → Unique (step h s).logs
unfolding step
step-Unique (filters_change true) s a u = unfold change_filters in u
step-Unique (filters_change false) s a u = unfold change_filters in tt
step-Unique ticks s a u = unfold tick in u
step-Unique (rows_came g w rows) s a u =
    unfold on_rows in
    elim (Bool-cases (g == s.generation)) [
      | inl e ↦ rw e (merged-Unique s.first_request w rows s.logs a u)
      | inr e ↦ rw e u
    ]
step-Unique (rows_failed g) s a u =
    unfold on_rows_failed in
    elim (Bool-cases (g == s.generation)) [ inl e ↦ rw e u | inr e ↦ rw e u ]
step-Unique (more_asked valid) s a u =
    unfold load_more in
    either-Unique (s.loading_more || not s.has_more || not (some_logs s.logs)) s
      (if not valid then s else record s { loading_more = true }) u
      (either-Unique (not valid) s (record s { loading_more = true }) u u)
step-Unique (page_came g page) s a u =
    unfold on_page in
    elim (Bool-cases (g == s.generation)) [
      | inl e ↦ rw e (added-Unique page s.logs a u)
      | inr e ↦ rw e u
    ]
step-Unique (page_failed g) s a u =
    unfold on_page_failed in
    elim (Bool-cases (g == s.generation)) [ inl e ↦ rw e u | inr e ↦ rw e u ]

run-Unique :
    (hs : List Happening) (s : Logs) → All Answers hs → Unique s.logs → Unique (run hs s).logs
unfolding run
run-Unique [] s a u = u
run-Unique (h ∷ hs) s a u = run-Unique hs (step h s) a.1 (step-Unique h s a.0 u)

-- As long as no answer of the server names one log twice: no log stands twice on the page, whatever
-- live refreshes, older pages, failures and late answers come in between.
pub no_log_twice : (hs : List Happening) → All Answers hs → Unique (run hs blank).logs
no_log_twice hs a = run-Unique hs blank a tt

-- Whatever range is chosen and whatever dates are typed, a window that is valid does not end before
-- it begins, where it has both ends.
pub window_in_order :
    (now : ℕ) (range : TimeRange) (f t : DateInput) (w : TimeWindow)
    → resolve_time_window now range f t ≡ some w
    → (w.from_ms ≡ 0) ⊎ (w.to_ms ≡ 0) ⊎ (w.from_ms ≤ w.to_ms)
unfolding resolve_time_window custom_window duration_ms
window_in_order now minutes_15 f t w e = inr (inr (ground (arith, e)))
window_in_order now hour_1 f t w e = inr (inr (ground (arith, e)))
window_in_order now hours_6 f t w e = inr (inr (ground (arith, e)))
window_in_order now hours_24 f t w e = inr (inr (ground (arith, e)))
window_in_order now days_7 f t w e = inr (inr (ground (arith, e)))
window_in_order now custom f t w e = ground (arith, e)
window_in_order now all_time f t w e = inl (ground (arith, e))
