-- ===== src/Server/Verify/Toy.antt =====
-- crates/jet-server/src/webhook/verify.rs: a toy MAC and a toy hexadecimal form for the tests, which
-- writes each byte twice.
use jetrun.Prelude.{
  ◌+◌, ◌*◌, ◌≡◌, refl, ap, Option, none, some, [], ◌∷◌, arith, length, replicate, Bytes, ℕ,
}

abbrev pub mac : Bytes → Bytes → Bytes
mac key body = replicate 32 (length body + length key)

abbrev pub encode : Bytes → Bytes
encode [] = []
encode (b ∷ bs) = b ∷ b ∷ encode bs

abbrev cons : ℕ → Option Bytes → Option Bytes
cons b none = none
cons b (some bs) = some (b ∷ bs)

abbrev pub decode : Bytes → Option Bytes
decode [] = some []
decode (b ∷ []) = none
decode (b ∷ c ∷ bs) = cons b (decode bs)

pub mac_32 : (key body : Bytes) → length (mac key body) ≡ 32
mac_32 key body = refl

pub length-encode : (bytes : Bytes) → length (encode bytes) ≡ 2 * length bytes
length-encode [] = refl
length-encode (b ∷ bs) = omega (arith, length-encode bs)

pub decode-encode_toy : (bytes : Bytes) → decode (encode bytes) ≡ some bytes
decode-encode_toy [] = refl
decode-encode_toy (b ∷ bs) = ap (cons b) (decode-encode_toy bs)
