-- ===== src/Core/Digest/RoundTrip.antt =====
-- crates/jet-core/src/digest.rs: a digest is parsed from both of its texts.
use jetrun.Prelude.{◌*◌, ◌≡◌, refl, inl, inr, Option, some, length, In, Bytes, ok}
use jetrun.Core.Id.RoundTrip.{strip_prefix-append, strip_prefix_absent}
use jetrun.Core.Digest.{digest_len, digest_prefix, to_hex, to_prefixed, parse}

module _ (hex_encode : Bytes → Bytes) (hex_decode : Bytes → Option Bytes)
    (hex_length : (bytes : Bytes) → length (hex_encode bytes) ≡ 2 * length bytes)
    (hex_round : (bytes : Bytes) → hex_decode (hex_encode bytes) ≡ some bytes)
    (no_colon : (bytes : Bytes) → ¬ In b':' (hex_encode bytes)) where
  -- When the crate `hex` reads back what it writes, two digits for each byte and never a colon: a
  -- digest of 32 bytes is parsed from its bare form and from its prefixed one.
  pub parse-printed :
      (d : Bytes)
      → length d ≡ digest_len
      → (parse hex_decode (to_hex hex_encode d) ≡ ok d)
        × (parse hex_decode (to_prefixed hex_encode d) ≡ ok d)
  unfolding parse to_hex to_prefixed
  parse-printed d h = (
    rw
        (
          strip_prefix_absent digest_prefix (hex_encode d) b':' (inr (inr (inl refl))) (no_colon d),
          hex_length d,
          h,
          hex_round d,
        )
        refl,
    rw (strip_prefix-append digest_prefix (hex_encode d), hex_length d, h, hex_round d) refl,
  )
