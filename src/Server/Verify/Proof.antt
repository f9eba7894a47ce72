-- ===== src/Server/Verify/Proof.antt =====
-- crates/jet-server/src/webhook/verify.rs: what an accepted delivery proves.
use jetrun.Core.Id.RoundTrip.{strip_prefix-append, strip_prefix-some}
use jetrun.Prelude.{
  ◌*◌, bytes_eq_refl, ◌≡◌, refl, sym, ap, ◌∙◌, ◌≢◌, Bool, true, false, not, Option, none, some,
  ◌++◌, ◌==◌, ==_iff, length, Result, refuse_if, ok_or, ok_or-eq_ok, >>=-eq-ok, Bytes, codes,
  bytes_eq, bytes_eq_iff, ok,
}
use jetrun.Core.Id.{strip_prefix}
use jetrun.Server.Verify.{
  Provider, github, gitlab, bitbucket, Verified, VerifyError, github_sig_256, bitbucket_sig,
  gitlab_token, verify_hmac_sha256, malformed_signature, signature_mismatch, verify_github,
  verify_with, verify, sign_hmac_sha256, unsigned, is_empty,
}

-- A test that was not refused came out false.
passed : {E : Type 0} (b : Bool) (e : E) → refuse_if (not b) e ≡ ok tt → b ≡ true
passed true e h = refl
passed false e h = cc

module _ (hmac : Bytes → Bytes → Bytes) (hex_decode : Bytes → Option Bytes) where
  -- A header that is `sha256=` and the hexadecimal form of the MAC of the body.
  abbrev pub IsMac : Bytes → Bytes → Bytes → Type 0
  IsMac header body secret =
      (hex_part : Bytes) × (header ≡ codes "sha256=" ++ hex_part)
      × (length hex_part ≡ 64)
      × (hex_decode hex_part ≡ some (hmac secret body))

  -- What a provider's delivery must carry, and whether that covers the body.
  abbrev pub IsProved : Provider → (Bytes → Option Bytes) → Bytes → Bytes → Verified → Type 0
  IsProved github headers body secret v =
      (sig : Bytes) × (headers github_sig_256 ≡ some sig)
      × IsMac sig body secret
      × (v.body_authenticated ≡ true)
  IsProved bitbucket headers body secret v =
      (sig : Bytes) × (headers bitbucket_sig ≡ some sig)
      × IsMac sig body secret
      × (v.body_authenticated ≡ true)
  IsProved gitlab headers body secret v =
      (headers gitlab_token ≡ some secret) × (v.body_authenticated ≡ false)

  verified :
      (b : Bool) (v : Verified)
      → ◌≡◌ {A = Result Verified VerifyError} (ok (record { body_authenticated = b })) (ok v)
      → v.body_authenticated ≡ b
  verified b v h = sym (ap (λ x. x.body_authenticated) (ok-injective h))
    where
      ok-injective : {a b : Verified} → ◌≡◌ {A = Result Verified VerifyError} (ok a) (ok b) → a ≡ b
      ok-injective h = cc

  IsMac-proved :
      (header body secret : Bytes) (v : Verified)
      → verify_hmac_sha256 hmac hex_decode header body secret ≡ ok v
      → IsMac header body secret × (v.body_authenticated ≡ true)
  unfolding verify_hmac_sha256
  IsMac-proved header body secret v h =
      let (hex_part, a, rest) =
        >>=-eq-ok (ok_or (strip_prefix (codes "sha256=") header) malformed_signature) _ h in
      let (u, b, rest) =
        >>=-eq-ok (refuse_if (not (length hex_part == 64)) malformed_signature) _ rest in
      let (expected, c, rest) =
        >>=-eq-ok (ok_or (hex_decode hex_part) malformed_signature) _ rest in
      let (w, d, rest) =
        >>=-eq-ok (refuse_if (not (bytes_eq (hmac secret body) expected)) signature_mismatch) _
          rest in
      (
        (
          hex_part,
          strip_prefix-some (codes "sha256=") header hex_part (ok_or-eq_ok _ _ _ a),
          (==_iff _ _).0 (passed _ _ b),
          ok_or-eq_ok _ _ _ c ∙ ap some (sym ((bytes_eq_iff _ _).0 (passed _ _ d))),
        ),
        verified true v rest,
      )

  github-proved :
      (headers : Bytes → Option Bytes) (o : Option Bytes) (body secret : Bytes) (v : Verified)
      → verify_github hmac hex_decode headers o body secret ≡ ok v
      → (sig : Bytes) × (o ≡ some sig) × IsMac sig body secret × (v.body_authenticated ≡ true)
  github-proved headers (some sig) body secret v h =
      let (mac, authentic) = IsMac-proved sig body secret v h in (sig, refl, mac, authentic)
  github-proved headers none body secret v h = absurd (refused (headers _) h)
    where
      refused : (o : Option Bytes) → unsigned hmac hex_decode o ≢ ok v
      refused (some x) h = cc
      refused none h = cc

  with-IsProved :
      (provider : Provider) (headers : Bytes → Option Bytes) (body secret : Bytes) (v : Verified)
      → verify_with hmac hex_decode provider headers body secret ≡ ok v
      → IsProved provider headers body secret v
  with-IsProved github headers body secret v h = github-proved headers _ body secret v h
  with-IsProved bitbucket headers body secret v h =
      let (sig, a, rest) = >>=-eq-ok (ok_or (headers bitbucket_sig) _) _ h in
      let (mac, authentic) = IsMac-proved sig body secret v rest in
      (sig, ok_or-eq_ok _ _ _ a, mac, authentic)
  with-IsProved gitlab headers body secret v h =
      let (token, a, rest) = >>=-eq-ok (ok_or (headers gitlab_token) _) _ h in
      let (u, b, rest) =
        >>=-eq-ok (refuse_if (not (bytes_eq token secret)) signature_mismatch) _ rest in
      (ok_or-eq_ok _ _ _ a ∙ ap some ((bytes_eq_iff _ _).0 (passed _ _ b)), verified false v rest)

  refused-no : (b : Bool) (e : VerifyError) → refuse_if b e ≡ ok tt → b ≡ false
  refused-no true e h = cc
  refused-no false e h = refl

  -- Whatever is received: a delivery is accepted only when a secret is configured that is not empty,
  -- and it carries the provider's proof under that secret, the MAC of these very bytes for GitHub
  -- and Bitbucket, the secret itself for GitLab; and the answer says which of the two it was.
  pub verify-IsProved :
      (provider : Provider) (headers : Bytes → Option Bytes) (body : Bytes) (secret : Option Bytes)
      (v : Verified)
      → verify hmac hex_decode provider headers body secret ≡ ok v
      → (key : Bytes) × (secret ≡ some key)
        × (is_empty key ≡ false)
        × IsProved provider headers body key v
  unfolding verify
  verify-IsProved provider headers body secret v h =
      let (key, a, rest) = >>=-eq-ok (ok_or secret _) _ h in
      let (u, b, rest) = >>=-eq-ok (refuse_if (is_empty key) _) _ rest in
      (key, ok_or-eq_ok _ _ _ a, refused-no _ _ b, with-IsProved provider headers body key v rest)

-- The header that carries a provider's proof.
abbrev pub proof_header : Provider → Bytes
proof_header github = github_sig_256
proof_header bitbucket = bitbucket_sig
proof_header gitlab = gitlab_token

module _ (hmac : Bytes → Bytes → Bytes) (hex_encode : Bytes → Bytes)
    (hex_decode : Bytes → Option Bytes) (hmac_32 : (key body : Bytes) → length (hmac key body) ≡ 32)
    (hex_length : (bytes : Bytes) → length (hex_encode bytes) ≡ 2 * length bytes)
    (hex_round : (bytes : Bytes) → hex_decode (hex_encode bytes) ≡ some bytes) where
  mac-signed :
      (body key : Bytes)
      → verify_hmac_sha256 hmac hex_decode (sign_hmac_sha256 hmac hex_encode body key) body key
        ≡ ok (record { body_authenticated = true })
  unfolding verify_hmac_sha256 sign_hmac_sha256
  mac-signed body key =
      rw
        (
          strip_prefix-append (codes "sha256=") (hex_encode (hmac key body)),
          hex_length (hmac key body),
          hmac_32 key body,
          hex_round (hmac key body),
          bytes_eq_refl (hmac key body),
        )
        refl

  -- When a MAC has 32 bytes and the crate `hex` reads back what it writes, two digits for each byte:
  -- a delivery of GitHub or Bitbucket that carries the signature of its body under the configured
  -- secret, which is not empty, is accepted as authenticating the body.
  pub verify-sign :
      (provider : Provider) (headers : Bytes → Option Bytes) (body key : Bytes)
      → provider ≢ gitlab
      → is_empty key ≡ false
      → headers (proof_header provider) ≡ some (sign_hmac_sha256 hmac hex_encode body key)
      → verify hmac hex_decode provider headers body (some key)
        ≡ ok (record { body_authenticated = true })
  unfolding verify
  verify-sign github headers body key n e h = rw (e, h) (mac-signed body key)
  verify-sign bitbucket headers body key n e h = rw (e, h) (mac-signed body key)
  verify-sign gitlab headers body key n e h = absurd (n refl)
