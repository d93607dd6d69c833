-- ===== src/Dashboard/Analyze/Windows.antt =====
-- Window keys (dashboard/src/pages/Analyze/Analyze.helpers.ts, windowKey and parseWindowKey).
use trace_ux.Base.{
  ℕ, zero, suc, ◌+◌, ◌-◌, ◌*◌, ◌/◌, ◌%◌, ◌≤◌, ◌<◌, ◌≡◌, refl, Bool, true, ◌&&◌, none, some, [], ◌∷◌,
  ◌++◌, Str, arith, Bool-cases, inl, inr, ltb, leb, if◌then◌else◌, length, length-append,
}
use trace_ux.Dashboard.Text.{digits, decimal}
use trace_ux.Dashboard.Analyze.{
  Window, hours, days, window_key, all_digits, number_from, matches_number, parse_window_key,
}

number-append :
    (k : ℕ) (xs : Str) (d : ℕ) → number_from k (xs ++ d ∷ []) ≡ number_from k xs * 10 + (d - 48)
unfolding number_from
number-append k [] d = refl
number-append k (x ∷ xs) d = number-append (k * 10 + (x - 48)) xs d

all_digits-append : (xs ys : Str) → all_digits (xs ++ ys) ≡ (all_digits xs && all_digits ys)
unfolding all_digits
all_digits-append [] ys = refl
all_digits-append (x ∷ xs) ys = ground (arith, all_digits-append xs ys)

-- The digits of a number read back as the number.
number-digits : (steps n : ℕ) → n < steps → number_from 0 (digits steps n) ≡ n
unfolding digits
number-digits zero n h = omega arith
number-digits (suc steps) n h = elim (Bool-cases (ltb n 10)) [
  | inl e ↦ unfold number_from in ground (arith, e)
  | inr e ↦ ground (
    arith,
    e,
    number-append 0 (digits steps (n / 10)) (48 + n % 10),
    number-digits steps (n / 10) (ground (arith, e, h)),
  )
]

digits-all : (steps n : ℕ) → all_digits (digits steps n) ≡ true
unfolding digits all_digits
digits-all zero n = refl
digits-all (suc steps) n = elim (Bool-cases (ltb n 10)) [
  | inl e ↦ ground (arith, e)
  | inr e ↦ ground (
    arith,
    e,
    all_digits-append (digits steps (n / 10)) ((48 + n % 10) ∷ []),
    digits-all steps (n / 10),
  )
]

-- A number above zero starts with a digit above zero.
abbrev Starts : Str → Type 0
Starts s = (c : ℕ) × (cs : Str) × (s ≡ c ∷ cs) × (49 ≤ c) × (c ≤ 57)

digits-Starts : (steps n : ℕ) → n < steps → 1 ≤ n → Starts (digits steps n)
unfolding digits
digits-Starts zero n h l = absurd (omega arith)
digits-Starts (suc steps) n h l = elim (Bool-cases (ltb n 10)) [
  | inl e ↦ (48 + n, [], ground (arith, e), omega (arith, l), ground (arith, e))
  | inr e ↦
      let (c, cs, p, q0, q1) =
        digits-Starts steps (n / 10) (ground (arith, e, h)) (ground (arith, e)) in
      (c, cs ++ (48 + n % 10) ∷ [], ground (arith, e, p), q0, q1)
]

length-digits :
    (steps n : ℕ)
    → length (digits (suc steps) n) ≡ (if ltb n 10 then 1 else suc (length (digits steps (n / 10))))
unfolding digits
length-digits steps n = ground (arith, length-append (digits steps (n / 10)) ((48 + n % 10) ∷ []))

some_digits : (steps n : ℕ) → 1 ≤ steps → 1 ≤ length (digits steps n)
some_digits zero n h = absurd (omega arith)
some_digits (suc steps) n h = ground (arith, length-digits steps n)

-- The digits are at most three exactly for the numbers below a thousand.
three_digits : (n : ℕ) → leb (length (decimal n)) 3 ≡ ltb n 1_000
unfolding decimal
three_digits zero = unfold digits in refl
three_digits (suc zero) = unfold digits in refl
three_digits (suc (suc zero)) = unfold digits in refl
three_digits (suc (suc (suc n))) =
    let m = suc (suc (suc n)) in
    ground (
      arith,
      length-digits m m,
      length-digits (suc (suc n)) (m / 10),
      length-digits (suc n) (m / 10 / 10),
      some_digits (suc n) (m / 10 / 10 / 10) (omega arith),
    )

-- `String(n)` matches the window key's number exactly for the numbers from 1 to 999.
decimal-matches : (n : ℕ) → matches_number (decimal n) ≡ (leb 1 n && ltb n 1_000)
unfolding matches_number all_digits decimal
decimal-matches zero = unfold digits in refl
decimal-matches (suc n) =
    let m = suc n in
    let (c, cs, p, q0, q1) = digits-Starts (suc m) m (omega arith) (omega arith) in
    let d = digits-all (suc m) m in ground (arith, p, q0, q1, d, three_digits m)

number-decimal : (n : ℕ) → number_from 0 (decimal n) ≡ n
unfolding decimal
number-decimal n = number-digits (suc n) n (omega arith)

unfoldable pub within : Window → Bool
within (hours n) = leb 1 n && leb n 168
within (days n) = leb 1 n && leb n 365

-- A window's key reads back as the window from 1 to 168 hours and from 1 to 365 days, and as
-- nothing for any other window.
pub parse-window_key :
    (w : Window) → parse_window_key (window_key w) ≡ (if within w then some w else none)
unfolding parse_window_key window_key within
parse-window_key (hours n) = ground (arith, decimal-matches n, number-decimal n)
parse-window_key (days n) = ground (arith, decimal-matches n, number-decimal n)
