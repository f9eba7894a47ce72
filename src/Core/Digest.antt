-- ===== src/Core/Digest.antt =====
-- crates/jet-core/src/digest.rs: the texts and the routing of a digest, which is its 32 bytes. The
-- printer and the parser of the crate `hex` are parameters, and so is the hash.
pub mod RoundTrip
mod Tests
use jetrun.Prelude.{
  ℕ, zero, suc, ◌+◌, ◌-◌, ◌*◌, ◌/◌, ◌%◌, Bool, not, ◌&&◌, Option, none, some, [], ◌∷◌, ◌++◌, ltb,
  ◌==◌, if◌then◌else◌, length, take, replicate, Result, refuse_if, ok_or, ◌>>=◌, ◌>>◌, Bytes, codes,
  bytes_eq, from_le_bytes,
}
use jetrun.Core.Id.{strip_prefix, unwrap_or}
use Prim.Native.Nat.{bit_and}

abbrev pub digest_len : ℕ
digest_len = 32

abbrev pub digest_prefix : Bytes
digest_prefix = codes "b3:"

-- `Digest::ZERO`
abbrev pub zero_digest : Bytes
zero_digest = replicate digest_len 0

unfoldable pub is_zero : Bytes → Bool
is_zero d = bytes_eq d zero_digest

pub data DigestParseError : Type 0 where
  bad_length : ℕ → ℕ → DigestParseError
  not_hex : DigestParseError

module _ (hex_encode : Bytes → Bytes) where
  unfoldable pub to_hex : Bytes → Bytes
  to_hex d = hex_encode d

  unfoldable pub to_prefixed : Bytes → Bytes
  to_prefixed d = digest_prefix ++ to_hex d

-- A digit of `HEX`.
unfoldable pub hex_digit : ℕ → ℕ
hex_digit n = if ltb n 10 then b'0' + n else b'a' + (n - 10)

abbrev first_byte : Bytes → ℕ
first_byte [] = 0
first_byte (b ∷ bs) = b

-- `>> 4` and `& 0x0f` of the first byte.
unfoldable pub fanout : Bytes → Bytes
fanout d = hex_digit (first_byte d / 16) ∷ hex_digit (first_byte d % 16) ∷ []

unfoldable pub is_power_of_two : ℕ → Bool
is_power_of_two n = not (n == 0) && bit_and n (n - 1) == 0

-- `shard`: the assertion fails for no shards.
unfoldable pub shard : Bytes → ℕ → Option ℕ
shard d zero = none
shard d (suc n) =
    let head = from_le_bytes (take 8 d) in
    if is_power_of_two (suc n) then some (bit_and head n) else some (head % suc n)

module _ (hex_decode : Bytes → Option Bytes) where
  unfoldable pub parse : Bytes → Result Bytes DigestParseError
  parse s = do
    let hexpart = unwrap_or (strip_prefix digest_prefix s) s
    refuse_if (not (length hexpart == digest_len * 2))
        (bad_length (digest_len * 2) (length hexpart))
    ok_or (hex_decode hexpart) not_hex
