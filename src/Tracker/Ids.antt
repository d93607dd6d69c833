-- ===== src/Tracker/Ids.antt =====
-- Identifiers, newId of tracker/src/main.ts. What the browser's random source gives is an argument.
pub mod Format
use Prim.Native.Nat.{bit_and, bit_or}
use trace_ux.Base.{
  ℕ, zero, suc, ◌+◌, ◌-◌, ◌/◌, ◌%◌, List, [], ◌∷◌, ◌++◌, Str, ltb, if◌then◌else◌, take, drop,
}

-- `crypto`: with `randomUUID` and what it returns, with `getRandomValues` and the 16 bytes it
-- fills in, or neither.
pub data Crypto : Type 0 where
  random_uuid : Str → Crypto
  random_values : List ℕ → Crypto
  no_crypto : Crypto

unfoldable pub hex_digit : ℕ → ℕ
hex_digit n = if ltb n 10 then b'0' + n else b'a' + (n - 10)

-- `b.toString(16).padStart(2, '0')`.
unfoldable pub hex_byte : ℕ → Str
unfolding hex_digit
hex_byte b = hex_digit (b / 16) ∷ hex_digit (b % 16) ∷ []

unfoldable pub hex_bytes : List ℕ → Str
unfolding hex_byte
hex_bytes [] = []
hex_bytes (b ∷ bs) = hex_byte b ++ hex_bytes bs

-- `bytes[i] = f(bytes[i])`.
unfoldable pub update : ℕ → (ℕ → ℕ) → List ℕ → List ℕ
update i f [] = []
update zero f (b ∷ bs) = f b ∷ bs
update (suc i) f (b ∷ bs) = b ∷ update i f bs

unfoldable pub stamp : List ℕ → List ℕ
unfolding update
stamp bytes =
    update 8 (λ b. bit_or (bit_and b 0x3f) 0x80)
      (update 6 (λ b. bit_or (bit_and b 0x0f) 0x40) bytes)

abbrev pub slice : ℕ → ℕ → Str → Str
slice from count s = take count (drop from s)

unfoldable pub grouped : Str → Str
grouped hex =
    slice 0 8 hex
    ++ (b'-'
        ∷ (slice 8 4 hex
            ++ (b'-' ∷ (slice 12 4 hex ++ (b'-' ∷ (slice 16 4 hex ++ (b'-' ∷ drop 20 hex)))))))

unfoldable pub new_id : Crypto → Str
unfolding stamp hex_bytes grouped
new_id (random_uuid s) = s
new_id (random_values bytes) = grouped (hex_bytes (stamp bytes))
new_id no_crypto = []
