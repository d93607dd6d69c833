-- ===== src/Dashboard/Text/Bounds.antt =====
-- What the cuts of dashboard/src/pages/Analyze/Analyze.helpers.ts leave.
use trace_ux.Base.{
  ℕ, zero, suc, ◌+◌, ◌-◌, ◌≤◌, ◌≡◌, refl, sym, ◌∙◌, true, false, ◌&&◌, List, [], ◌∷◌, ◌++◌, Str,
  ltb, arith, take, length, All, Bool-cases, inl, inr, length-take,
}
use mathlib.Core.List.{append_assoc, append-nil}
use trace_ux.Dashboard.Text.{
  byte_length, chars, join, truncate_text, trim_loop, trim_to_bytes, is_high, is_low,
}

byte_length-append : (xs ys : Str) → byte_length xs ≤ byte_length (xs ++ ys)
unfolding byte_length
byte_length-append [] ys = omega arith
byte_length-append (c ∷ []) [] = ground arith
byte_length-append (c ∷ []) (y ∷ ys) = ground arith
byte_length-append (c ∷ d ∷ cs) ys =
    ground (arith, byte_length-append cs ys, byte_length-append (d ∷ cs) ys)

join-chars : (s : Str) → join (chars s) ≡ s
unfolding join chars
join-chars [] = refl
join-chars (c ∷ []) = refl
join-chars (c ∷ d ∷ cs) = ground (arith, join-chars cs, join-chars (d ∷ cs))

trim_loop-fits :
    (n : ℕ) (out : Str) (cs : List Str) → byte_length out ≤ n → byte_length (trim_loop n out cs) ≤ n
unfolding trim_loop
trim_loop-fits n out [] h = h
trim_loop-fits n out (c ∷ cs) h = elim (Bool-cases (ltb n (byte_length (out ++ c)))) [
  | inl e ↦ ground (arith, e, h)
  | inr e ↦ ground (arith, e, trim_loop-fits n (out ++ c) cs (ground (arith, e)))
]

trim_loop-prefix :
    (n : ℕ) (out : Str) (cs : List Str)
    → (rest : Str) × (trim_loop n out cs ++ rest ≡ out ++ join cs)
unfolding trim_loop join
trim_loop-prefix n out [] = ([], refl)
trim_loop-prefix n out (c ∷ cs) =
    let (rest, p) = trim_loop-prefix n (out ++ c) cs in
    elim (Bool-cases (ltb n (byte_length (out ++ c)))) [
      | inl e ↦ (c ++ join cs, ground (arith, e))
      | inr e ↦ (rest, ground (arith, e, p, append_assoc out c (join cs)))
    ]

trim_loop-whole :
    (n : ℕ) (out : Str) (cs : List Str)
    → byte_length (out ++ join cs) ≤ n
    → trim_loop n out cs ≡ out ++ join cs
unfolding trim_loop join
trim_loop-whole n out [] h = sym (append-nil out)
trim_loop-whole n out (c ∷ cs) h = elim (Bool-cases (ltb n (byte_length (out ++ c)))) [
  | inl e ↦
      absurd (
        ground (arith, e, h, byte_length-append (out ++ c) (join cs), append_assoc out c (join cs)))
  | inr e ↦ ground (
    arith,
    e,
    append_assoc out c (join cs),
    trim_loop-whole n (out ++ c) cs (ground (arith, h, append_assoc out c (join cs))),
  )
]

-- A text that is trimmed to a number of bytes has no more of them, and is a prefix of the text.
pub trim_to_bytes_lem :
    (value : Str) (n : ℕ)
    → (byte_length (trim_to_bytes value n) ≤ n)
      × ((rest : Str) × (trim_to_bytes value n ++ rest ≡ value))
unfolding trim_to_bytes byte_length
trim_to_bytes_lem value n =
    let (rest, p) = trim_loop-prefix n [] (chars value) in
    (trim_loop-fits n [] (chars value) (omega arith), (rest, p ∙ join-chars value))

-- A text within the limit is taken whole.
pub trim_to_bytes_whole :
    (value : Str) (n : ℕ) → byte_length value ≤ n → trim_to_bytes value n ≡ value
unfolding trim_to_bytes
trim_to_bytes_whole value n h =
    trim_loop-whole n [] (chars value) (rw (join-chars value) h) ∙ join-chars value

and_low : (c y : ℕ) → (is_high c && is_low y) ≡ true → is_high y ≡ false
and_low c y e = ground (arith, e)

chars_single :
    (y z : ℕ) (ys : Str) → is_high y ≡ false → chars (y ∷ z ∷ ys) ≡ (y ∷ []) ∷ chars (z ∷ ys)
unfolding chars
chars_single y z ys e = rw e refl

-- The number of characters of two texts put together is at most the sum of theirs.
length-chars-append :
    (xs ys : Str) → length (chars (xs ++ ys)) ≤ length (chars xs) + length (chars ys)
unfolding chars
length-chars-append [] ys = omega arith
length-chars-append (c ∷ []) [] = ground arith
length-chars-append (c ∷ []) (y ∷ []) = ground arith
length-chars-append (c ∷ []) (y ∷ z ∷ ys) = elim (Bool-cases (is_high c && is_low y)) [
  | inl e ↦ rw (e, chars_single y z ys (and_low c y e)) (omega arith)
  | inr e ↦ rw e (omega arith)
]
length-chars-append (c ∷ d ∷ cs) ys = elim (Bool-cases (is_high c && is_low d)) [
  | inl e ↦ rw e (omega (arith, length-chars-append cs ys))
  | inr e ↦ rw e (omega (arith, length-chars-append (d ∷ cs) ys))
]

abbrev Single : Str → Type 0
Single c = length (chars c) ≡ 1

chars-Single : (s : Str) → All Single (chars s)
unfolding chars
chars-Single [] = tt
chars-Single (c ∷ []) = (refl, tt)
chars-Single (c ∷ d ∷ cs) = ground (arith, chars-Single cs, chars-Single (d ∷ cs))

take-Single : (n : ℕ) (cs : List Str) → All Single cs → All Single (take n cs)
take-Single zero cs h = tt
take-Single (suc n) [] h = tt
take-Single (suc n) (c ∷ cs) h = (h.0, take-Single n cs h.1)

length-chars-join : (cs : List Str) → All Single cs → length (chars (join cs)) ≤ length cs
unfolding join
length-chars-join [] h = unfold chars in omega arith
length-chars-join (c ∷ cs) h =
    omega (arith, length-chars-append c (join cs), length-chars-join cs h.1, h.0)

last_char : length (chars (0x2026 ∷ [])) ≡ 1
unfolding chars
last_char = refl

-- A text that is cut to a number of characters above zero has no more of them.
pub truncate_text_fits :
    (value : Str) (max : ℕ) → 1 ≤ max → length (chars (truncate_text value max)) ≤ max
unfolding truncate_text
truncate_text_fits value max h = elim (Bool-cases (ltb max (length (chars value)))) [
  | inl e ↦
      let cut = take (max - 1) (chars value) in
      ground (
        arith,
        e,
        h,
        length-chars-append (join cut) (0x2026 ∷ []),
        length-chars-join cut (take-Single (max - 1) (chars value) (chars-Single value)),
        length-take (max - 1) (chars value),
        last_char,
      )
  | inr e ↦ ground (arith, e)
]
