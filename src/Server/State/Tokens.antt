-- ===== src/Server/State/Tokens.antt =====
-- crates/jet-server/src/state.rs: which tokens are told apart.
use jetrun.Prelude.{
  sym, ap, ◌∙◌, Bool, true, &&-true, Option-cases, split_once, split_once-some, splitn-cut,
  splitn-uncut, Result-cases, bytes_eq_iff, ◌≡◌, refl, ◌≢◌, ◌⊎◌, inl, inr, false, not, ◌&&◌, List,
  [], ◌∷◌, ◌++◌, arith, Bool-cases, In, splitn, split_once-append, Result, Bytes, codes, bytes_eq,
  ok, err,
}
use jetrun.Server.Verify.{is_empty}
use jetrun.Server.State.{AuthError, malformed, unknown, token_parts, authenticate_token}

-- The form of an API token, `jetr_<prefix>_<secret>`: the secret may hold underscores, the prefix none.
abbrev pub IsToken : Bytes → Type 0
IsToken token =
    (prefix : Bytes) × (secret : Bytes) × (token ≡ codes "jetr_" ++ (prefix ++ b'_' ∷ secret))
    × (is_empty prefix ≡ false)
    × (is_empty secret ≡ false)
    × ¬ In b'_' prefix

no_underscore : ¬ In b'_' (codes "jetr")
no_underscore m = omega arith

-- How a token of the form is split.
splitn-IsToken :
    (prefix secret : Bytes)
    → ¬ In b'_' prefix
    → splitn 3 b'_' (codes "jetr_" ++ (prefix ++ b'_' ∷ secret))
      ≡ codes "jetr" ∷ prefix ∷ secret ∷ []
unfolding splitn
splitn-IsToken prefix secret n =
    splitn-cut 1 b'_' _ (codes "jetr") (prefix ++ b'_' ∷ secret)
      (split_once-append b'_' (codes "jetr") (prefix ++ b'_' ∷ secret) no_underscore)
    ∙ ap (◌∷◌ (codes "jetr")) (
        splitn-cut 0 b'_' (prefix ++ b'_' ∷ secret) prefix secret
          (split_once-append b'_' prefix secret n))

IsToken-unknown : (token : Bytes) → IsToken token → authenticate_token token ≡ err unknown
unfolding authenticate_token bytes_eq
IsToken-unknown token (prefix, secret, e, p, s, n) =
    rw (e, splitn-IsToken prefix secret n, p, s) refl

no_ok : (parts : List Bytes) → token_parts parts ≢ ok tt
no_ok [] h = cc
no_ok (a ∷ []) h = cc
no_ok (a ∷ b ∷ []) h = cc
no_ok (a ∷ b ∷ c ∷ []) h =
    elim (Bool-cases (bytes_eq a (codes "jetr") && (not (is_empty b) && not (is_empty c)))) [
      | inl p ↦ absurd (unlike unknown (rw p at h))
      | inr p ↦ absurd (unlike malformed (rw p at h))
    ]
  where
    unlike : (e : AuthError) → ◌≢◌ {A = Result (Unit {0}) AuthError} (err e) (ok tt)
    unlike e h = cc
no_ok (a ∷ b ∷ c ∷ d ∷ rest) h = cc

abbrev pub IsRefused : Result (Unit {0}) AuthError → Type 0 → Type 0
IsRefused r P = ((r ≡ err unknown) × P) ⊎ ((r ≡ err malformed) × ¬ P)

not_unknown : ◌≢◌ {A = Result (Unit {0}) AuthError} (err malformed) (err unknown)
not_unknown h = cc

-- Three parts that pass are a token of the form.
parts-IsToken :
    (a b c : Bytes)
    → token_parts (a ∷ b ∷ c ∷ []) ≡ err unknown
    → (a ≡ codes "jetr") × (is_empty b ≡ false) × (is_empty c ≡ false)
parts-IsToken a b c h =
    elim (Bool-cases (bytes_eq a (codes "jetr") && (not (is_empty b) && not (is_empty c)))) [
      | inl p ↦
          let (x, yz) = &&-true _ _ p in
          let (y, z) = &&-true _ _ yz in ((bytes_eq_iff _ _).0 x, negated y, negated z)
      | inr p ↦ absurd (not_unknown (rw p at h))
    ]
  where
    negated : {t : Bool} → not t ≡ true → t ≡ false
    negated {t} h = ground arith

unknown-IsToken : (token : Bytes) → authenticate_token token ≡ err unknown → IsToken token
unfolding authenticate_token splitn
unknown-IsToken token h = elim (Option-cases (split_once b'_' token)) [
  | inl n ↦ absurd (not_unknown (rw (splitn-uncut 1 b'_' token n) at h))
  | inr ((a, r), p) ↦ elim (Option-cases (split_once b'_' r)) [
    | inl n ↦
        absurd (not_unknown (rw (splitn-cut 1 b'_' token a r p, splitn-uncut 0 b'_' r n) at h))
    | inr ((b, c), q) ↦
        let (x, y, z) =
          parts-IsToken a b c
            (rw (splitn-cut 1 b'_' token a r p, splitn-cut 0 b'_' r b c q) at h) in
        let (e, m) = split_once-some b'_' token a r p in
        let (f, n) = split_once-some b'_' r b c q in (b, c, rw (e, x, f) refl, y, z, n)
  ]
]

-- No token is accepted as it stands, whatever it is: one of the form `jetr_<prefix>_<secret>`, with a
-- prefix and a secret that are not empty and no underscore in the prefix, is not recognized, and any
-- other is malformed.
pub authenticate_token-IsRefused :
    (token : Bytes) → IsRefused (authenticate_token token) (IsToken token)
unfolding authenticate_token
authenticate_token-IsRefused token = elim (Result-cases (authenticate_token token)) [
  | inl (u, p) ↦ absurd (no_ok _ p)
  | inr (unknown, p) ↦ inl (p, unknown-IsToken token p)
  | inr (malformed, p) ↦ inr (p, λ t. not_unknown (sym p ∙ IsToken-unknown token t))
]
