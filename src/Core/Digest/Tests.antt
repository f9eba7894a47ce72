-- ===== src/Core/Digest/Tests.antt =====
-- crates/jet-core/src/digest.rs: a digest and its texts, with the letters from a on for the digits.
use jetrun.Prelude.{
  ℕ, ◌+◌, ◌-◌, ◌*◌, ◌/◌, ◌%◌, ◌≡◌, refl, ◌≢◌, inl, inr, Option, none, some, [], ◌∷◌, arith, length,
  replicate, In, Bytes, codes, ok,
}
use jetrun.Core.Digest.{fanout, hex_digit, shard, is_power_of_two, parse, to_hex, to_prefixed}
use jetrun.Core.Digest.RoundTrip.{parse-printed}

-- A byte as two of the letters from a to p.
abbrev letters : Bytes → Bytes
letters [] = []
letters (b ∷ bs) = (b'a' + b / 16) ∷ (b'a' + b % 16) ∷ letters bs

abbrev cons : ℕ → ℕ → Option Bytes → Option Bytes
cons x y none = none
cons x y (some bs) = some (((x - b'a') * 16 + (y - b'a')) ∷ bs)

abbrev bytes_of : Bytes → Option Bytes
bytes_of [] = some []
bytes_of (x ∷ []) = none
bytes_of (x ∷ y ∷ s) = cons x y (bytes_of s)

length-letters : (bytes : Bytes) → length (letters bytes) ≡ 2 * length bytes
length-letters [] = refl
length-letters (b ∷ bs) = omega (arith, length-letters bs)

digit : (b : ℕ) → (97 + b / 16 - 97) * 16 + (97 + b % 16 - 97) ≡ b
digit b = omega arith

bytes_of-letters : (bytes : Bytes) → bytes_of (letters bytes) ≡ some bytes
bytes_of-letters [] = refl
bytes_of-letters (b ∷ bs) = rw (bytes_of-letters bs, digit b) refl

no_colon : (bytes : Bytes) → ¬ In b':' (letters bytes)
no_colon [] m = absurd m
no_colon (b ∷ bs) (inl q) = absurd (above (b / 16) q)
  where
    above : (n : ℕ) → ◌≢◌ {A = ℕ} 58 (97 + n)
    above n q = omega arith
no_colon (b ∷ bs) (inr (inl q)) = absurd (above (b % 16) q)
  where
    above : (n : ℕ) → ◌≢◌ {A = ℕ} 58 (97 + n)
    above n q = omega arith
no_colon (b ∷ bs) (inr (inr m)) = no_colon bs m

abbrev sample : Bytes
sample = replicate 32 0xab

-- The fan-out directory of a digest that starts with 0xab, and its shard among eight and among ten.
sample-fanout : fanout sample ≡ codes "ab"
unfolding fanout hex_digit
sample-fanout = refl

sample-shard : (shard sample 8 ≡ some 3) × (shard sample 10 ≡ some 3)
unfolding shard is_power_of_two
sample-shard = (refl, refl)

parse-printed_example :
    (parse bytes_of (to_hex letters sample) ≡ ok sample)
    × (parse bytes_of (to_prefixed letters sample) ≡ ok sample)
parse-printed_example =
    parse-printed letters bytes_of length-letters bytes_of-letters no_colon sample refl
