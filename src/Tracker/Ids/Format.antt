-- ===== src/Tracker/Ids/Format.antt =====
-- An identifier made from random bytes is a version 4 UUID (tracker/src/main.ts, newId).
use Prim.Native.Nat.{bit_and, bit_or}
use trace_ux.Base.{
  ℕ, zero, suc, ◌+◌, ◌/◌, ◌≤◌, ◌<◌, ◌≡◌, refl, Bool, true, ◌&&◌, some, [], ◌∷◌, arith, length,
  get_elem?, leb, ◌==◌, Bool-cases, inl, inr,
}
use trace_ux.Tracker.Ids.{hex_digit, new_id, random_values}

-- A test passes at `count` numbers from `first` on.
range_passes : (ℕ → Bool) → ℕ → ℕ → Bool
range_passes test first zero = true
range_passes test first (suc count) = test first && range_passes test (suc first) count

range_passes-at :
    (test : ℕ → Bool) (first count x : ℕ)
    → range_passes test first count ≡ true
    → first ≤ x
    → x < first + count
    → test x ≡ true
unfolding range_passes
range_passes-at test first zero x passed from below = absurd (omega arith)
range_passes-at test first (suc count) x passed from below = elim (Bool-cases (first == x)) [
  | inl e ↦ ground (arith, passed, e)
  | inr e ↦
      range_passes-at test (suc first) count x (ground (arith, passed)) (ground (arith, e, from))
        (omega (arith, below))
]

version_table : range_passes (λ b. bit_or (bit_and b 0x0f) 0x40 / 16 == 4) 0 256 ≡ true
unfolding range_passes
version_table = refl

variant_table :
    range_passes (λ b. let v = bit_or (bit_and b 0x3f) 0x80 / 16 in leb 8 v && leb v 11) 0 256
    ≡ true
unfolding range_passes
variant_table = refl

version_digit : (b : ℕ) → b < 256 → bit_or (bit_and b 0x0f) 0x40 / 16 ≡ 4
version_digit b h = ground (
  arith,
  range_passes-at (λ b. bit_or (bit_and b 0x0f) 0x40 / 16 == 4) 0 256 b version_table (omega arith)
      (omega (arith, h)),
)

variant_digit : (b : ℕ) → b < 256 → let v = bit_or (bit_and b 0x3f) 0x80 / 16 in (8 ≤ v) × (v ≤ 11)
variant_digit b h = ground (
  arith,
  range_passes-at (λ b. let v = bit_or (bit_and b 0x3f) 0x80 / 16 in leb 8 v && leb v 11) 0 256 b
      variant_table (omega arith) (omega (arith, h)),
)

-- From any 16 random bytes the identifier has 36 characters, dashes after 8, 12, 16 and 20 hex
-- digits, the version digit 4, and one of 8, 9, a and b for the variant.
pub new_id_format :
    (b0 b1 b2 b3 b4 b5 b6 b7 b8 b9 b10 b11 b12 b13 b14 b15 : ℕ)
    → b6 < 256
    → b8 < 256
    → let id = new_id (
        random_values (
          b0 ∷ b1 ∷ b2 ∷ b3 ∷ b4 ∷ b5 ∷ b6 ∷ b7 ∷ b8 ∷ b9 ∷ b10 ∷ b11 ∷ b12 ∷ b13 ∷ b14 ∷ b15
          ∷ [])) in
      (length id ≡ 36)
      × (get_elem? id 8 ≡ some b'-')
      × (get_elem? id 13 ≡ some b'-')
      × (get_elem? id 18 ≡ some b'-')
      × (get_elem? id 23 ≡ some b'-')
      × (get_elem? id 14 ≡ some b'4')
      × ((v : ℕ) × (8 ≤ v) × (v ≤ 11) × (get_elem? id 19 ≡ some (hex_digit v)))
unfolding new_id
new_id_format b0 b1 b2 b3 b4 b5 b6 b7 b8 b9 b10 b11 b12 b13 b14 b15 h k = (
  refl,
  refl,
  refl,
  refl,
  refl,
  rw (version_digit b6 h) refl,
  (bit_or (bit_and b8 0x3f) 0x80 / 16, (variant_digit b8 k).0, (variant_digit b8 k).1, refl),
)
