-- ===== src/Dashboard/Text.antt =====
-- Text as dashboard/src/pages/Analyze/Analyze.helpers.ts measures and cuts it: a string is a list of
-- UTF-16 code units, its characters are code points, and `byteLength` counts UTF-8 bytes.
pub mod Bounds
use trace_ux.Base.{
  ℕ, zero, suc, ◌+◌, ◌-◌, ◌/◌, ◌%◌, Bool, true, false, not, ◌&&◌, ◌||◌, List, [], ◌∷◌, ◌++◌, Str,
  ltb, leb, if◌then◌else◌, take, length, is_space,
}

abbrev pub is_high : ℕ → Bool
is_high c = leb 0xd800 c && ltb c 0xdc00

abbrev pub is_low : ℕ → Bool
is_low c = leb 0xdc00 c && ltb c 0xe000

-- A code unit that stands for itself; a lone surrogate is encoded as U+FFFD.
abbrev pub unit_bytes : ℕ → ℕ
unit_bytes c = if ltb c 0x80 then 1 else if ltb c 0x800 then 2 else 3

unfoldable pub byte_length : Str → ℕ
byte_length [] = 0
byte_length (c ∷ []) = unit_bytes c
byte_length (c ∷ d ∷ cs) =
    let pair = byte_length cs in
    let single = byte_length (d ∷ cs) in
    if is_high c && is_low d then 4 + pair else unit_bytes c + single

-- `[...value]`.
unfoldable pub chars : Str → List Str
chars [] = []
chars (c ∷ []) = (c ∷ []) ∷ []
chars (c ∷ d ∷ cs) =
    let pair = chars cs in
    let single = chars (d ∷ cs) in
    if is_high c && is_low d then (c ∷ d ∷ []) ∷ pair else (c ∷ []) ∷ single

unfoldable pub join : List Str → Str
join [] = []
join (s ∷ ss) = s ++ join ss

unfoldable pub truncate_text : Str → ℕ → Str
unfolding chars join
truncate_text value max =
    if ltb max (length (chars value))
    then join (take (max - 1) (chars value)) ++ 0x2026 ∷ []
    else value

-- The loop of trimToBytes, with what it has put out so far.
unfoldable pub trim_loop : ℕ → Str → List Str → Str
unfolding byte_length
trim_loop max_bytes out [] = out
trim_loop max_bytes out (c ∷ cs) =
    let rest = trim_loop max_bytes (out ++ c) cs in
    if ltb max_bytes (byte_length (out ++ c)) then out else rest

unfoldable pub trim_to_bytes : Str → ℕ → Str
unfolding trim_loop chars
trim_to_bytes value max_bytes = trim_loop max_bytes [] (chars value)

unfoldable pub trim_start : Str → Str
trim_start [] = []
trim_start (c ∷ cs) = let rest = trim_start cs in if is_space c then rest else c ∷ cs

-- `trim`: from the last code unit that is no white space on, nothing is kept.
unfoldable pub trim_end : Str → Str
trim_end [] = []
trim_end (c ∷ cs) = elim (trim_end cs) [
  | [] ↦ if is_space c then [] else c ∷ []
  | d ∷ ds ↦ c ∷ d ∷ ds
]

unfoldable pub trim : Str → Str
trim s = trim_end (trim_start s)

-- `String(n)`: the decimal digits of n; each step takes one digit, so that `suc n` steps are enough.
unfoldable pub digits : ℕ → ℕ → Str
digits zero n = []
digits (suc steps) n =
    let rest = digits steps (n / 10) in
    if ltb n 10 then (48 + n) ∷ [] else rest ++ (48 + n % 10) ∷ []

unfoldable pub decimal : ℕ → Str
unfolding digits
decimal n = digits (suc n) n
