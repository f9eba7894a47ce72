-- ===== src/Server/Verify/Tests.antt =====
-- crates/jet-server/src/webhook/verify.rs: deliveries under a toy MAC and a toy hexadecimal form.
use jetrun.Prelude.{
  ◌≡◌, refl, ◌≢◌, true, false, some, List, [], ◌∷◌, Bytes, codes, bytes_eq, ok, err,
}
use jetrun.Server.Verify.Toy.{mac, encode, decode, mac_32, length-encode, decode-encode_toy}
use jetrun.Core.Id.{strip_prefix}
use jetrun.Server.Verify.{
  github, gitlab, legacy_sha1_refused, no_secret_configured, lookup, eq_ignore_ascii_case,
  to_ascii_lowercase, is_empty, sign_hmac_sha256, verify_hmac_sha256, verify,
}
use jetrun.Server.Verify.Proof.{IsProved, verify-IsProved, verify-sign}

abbrev secret : Bytes
secret = codes "s3cret"

abbrev body : Bytes
body = codes "{}"

abbrev headers : List (Bytes × Bytes)
headers = (codes "X-Hub-Signature-256", sign_hmac_sha256 mac encode body secret) ∷ []

program : Unit {0}
unfolding lookup eq_ignore_ascii_case to_ascii_lowercase verify verify_hmac_sha256 sign_hmac_sha256
    strip_prefix bytes_eq
program = tt

-- A header is found in any casing.
found :
    lookup headers (codes "x-hub-signature-256") ≡ some (sign_hmac_sha256 mac encode body secret)
unfolding program
found = refl

accepted :
    verify mac decode github (lookup headers) body (some secret)
    ≡ ok (record { body_authenticated = true })
unfolding program
accepted = refl

-- The old header alone is refused by name, and so is an empty secret.
legacy :
    verify mac decode github
      (lookup ((codes "x-hub-signature", codes "sha1=00") ∷ []))
      body
      (some secret)
    ≡ err legacy_sha1_refused
unfolding program
legacy = refl

empty_secret :
    verify mac decode gitlab (lookup ((codes "x-gitlab-token", []) ∷ [])) body (some [])
    ≡ err (no_secret_configured gitlab)
unfolding program
empty_secret = refl

verify-IsProved_example :
    (key : Bytes) × (some secret ≡ some key)
    × (is_empty key ≡ false)
    × IsProved mac decode github (lookup headers) body key (record { body_authenticated = true })
verify-IsProved_example =
    verify-IsProved mac decode github (lookup headers) body (some secret)
      (record { body_authenticated = true }) accepted

github≢gitlab : github ≢ gitlab
github≢gitlab h = cc

verify-sign_example :
    verify mac decode github (lookup headers) body (some secret)
    ≡ ok (record { body_authenticated = true })
verify-sign_example =
    verify-sign mac encode decode mac_32 length-encode decode-encode_toy github (lookup headers)
      body secret github≢gitlab refl found
