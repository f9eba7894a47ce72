-- ===== src/Server/Verify.antt =====
-- crates/jet-server/src/webhook/verify.rs: the verification of webhook deliveries, and the header names
-- of crates/jet-server/src/webhook/mod.rs. HMAC-SHA256 (key, then body) and the hexadecimal printer and
-- parser of the crate `hex` are parameters; `ct_eq` is equality, its timing is not modelled.
pub mod Proof
pub mod Toy
mod Tests
use jetrun.Prelude.{
  ℕ, ◌+◌, Bool, true, false, not, ◌&&◌, Option, none, some, List, [], ◌∷◌, ◌++◌, leb, ◌==◌,
  if◌then◌else◌, length, Result, ◌>>=◌, ◌>>◌, refuse_if, ok_or, Bytes, codes, bytes_eq, ok, err,
}
use jetrun.Core.Id.{strip_prefix}

pub data Provider : Type 0 where
  github gitlab bitbucket : Provider

unfoldable pub provider_str : Provider → Bytes
provider_str github = codes "github"
provider_str gitlab = codes "gitlab"
provider_str bitbucket = codes "bitbucket"

unfoldable pub event_header : Provider → Bytes
event_header github = codes "x-github-event"
event_header gitlab = codes "x-gitlab-event"
event_header bitbucket = codes "x-event-key"

unfoldable pub delivery_header : Provider → Bytes
delivery_header github = codes "x-github-delivery"
delivery_header gitlab = codes "x-gitlab-event-uuid"
delivery_header bitbucket = codes "x-request-uuid"

abbrev pub github_sig_256 : Bytes
github_sig_256 = codes "x-hub-signature-256"

abbrev pub github_sig_legacy : Bytes
github_sig_legacy = codes "x-hub-signature"

abbrev pub bitbucket_sig : Bytes
bitbucket_sig = codes "x-hub-signature"

abbrev pub gitlab_token : Bytes
gitlab_token = codes "x-gitlab-token"

pub record Verified : Type 0 where
  pub body_authenticated : Bool

pub data VerifyError : Type 0 where
  no_secret_configured : Provider → VerifyError
  missing_header : Bytes → VerifyError
  malformed_signature : VerifyError
  legacy_sha1_refused : VerifyError
  signature_mismatch : VerifyError

-- `HeaderLookup` of a map: the first header of that name, in any casing.
unfoldable pub to_ascii_lowercase : ℕ → ℕ
to_ascii_lowercase c = if leb b'A' c && leb c b'Z' then c + 32 else c

unfoldable pub eq_ignore_ascii_case : Bytes → Bytes → Bool
eq_ignore_ascii_case [] [] = true
eq_ignore_ascii_case [] (y ∷ ys) = false
eq_ignore_ascii_case (x ∷ xs) [] = false
eq_ignore_ascii_case (x ∷ xs) (y ∷ ys) =
    to_ascii_lowercase x == to_ascii_lowercase y && eq_ignore_ascii_case xs ys

unfoldable pub lookup : List (Bytes × Bytes) → Bytes → Option Bytes
lookup [] name = none
lookup ((k, v) ∷ headers) name = if eq_ignore_ascii_case k name then some v else lookup headers name

-- An empty secret counts as none.
abbrev pub is_empty : Bytes → Bool
is_empty [] = true
is_empty (x ∷ xs) = false

module _ (hmac : Bytes → Bytes → Bytes) (hex_encode : Bytes → Bytes) where
  unfoldable pub sign_hmac_sha256 : Bytes → Bytes → Bytes
  sign_hmac_sha256 body secret = codes "sha256=" ++ hex_encode (hmac secret body)

module _ (hmac : Bytes → Bytes → Bytes) (hex_decode : Bytes → Option Bytes) where
  unfoldable pub verify_hmac_sha256 : Bytes → Bytes → Bytes → Result Verified VerifyError
  verify_hmac_sha256 header body secret = do
    hex_part ← ok_or (strip_prefix (codes "sha256=") header) malformed_signature
    refuse_if (not (length hex_part == 64)) malformed_signature
    expected ← ok_or (hex_decode hex_part) malformed_signature
    refuse_if (not (bytes_eq (hmac secret body) expected)) signature_mismatch
    ok (record { body_authenticated = true })

  -- GitHub without its signature: refused for the old header, or for none.
  abbrev pub unsigned : Option Bytes → Result Verified VerifyError
  unsigned (some legacy) = err legacy_sha1_refused
  unsigned none = err (missing_header github_sig_256)

  abbrev pub verify_github :
      (Bytes → Option Bytes) → Option Bytes → Bytes → Bytes → Result Verified VerifyError
  verify_github headers (some sig) body secret = verify_hmac_sha256 sig body secret
  verify_github headers none body secret = unsigned (headers github_sig_legacy)

  abbrev pub verify_with :
      Provider → (Bytes → Option Bytes) → Bytes → Bytes → Result Verified VerifyError
  verify_with github headers body secret =
      verify_github headers (headers github_sig_256) body secret
  verify_with bitbucket headers body secret = do
    sig ← ok_or (headers bitbucket_sig) (missing_header bitbucket_sig)
    verify_hmac_sha256 sig body secret
  verify_with gitlab headers body secret = do
    token ← ok_or (headers gitlab_token) (missing_header gitlab_token)
    refuse_if (not (bytes_eq token secret)) signature_mismatch
    ok (record { body_authenticated = false })

  unfoldable pub verify :
      Provider → (Bytes → Option Bytes) → Bytes → Option Bytes → Result Verified VerifyError
  verify provider headers body secret = do
    secret ← ok_or secret (no_secret_configured provider)
    refuse_if (is_empty secret) (no_secret_configured provider)
    verify_with provider headers body secret
