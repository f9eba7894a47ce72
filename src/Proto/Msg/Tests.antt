-- ===== src/Proto/Msg/Tests.antt =====
-- crates/jet-proto/src/msg.rs: requests at the limits and beyond them.
use jetrun.Prelude.{◌≡◌, refl, ◌↔◌, false, none, [], ◌∷◌, replicate, codes, ok, err, ℕ}
use jetrun.Proto.Msg.{
  Auth, CasQuery, authenticate, query, tail, too_long, empty, validate, validate_auth,
  validate_cas_query, validate_tail_logs, nonempty_bounded, bounded, bounded_digests,
}
use jetrun.Proto.Msg.Limits.{IsWithin, validate-IsWithin}

abbrev token_of : ℕ → Auth
token_of n = record { token = replicate n b'x' }

program : Unit {0}
unfolding validate validate_auth validate_cas_query validate_tail_logs nonempty_bounded bounded
    bounded_digests
program = tt

longest_token : validate (authenticate (token_of 512)) ≡ ok tt
unfolding program
longest_token = refl

token_too_long : validate (authenticate (token_of 513)) ≡ err (too_long (codes "token") 513 512)
unfolding program
token_too_long = refl

no_run :
    validate (tail (record { run_id = []; step = none; from_offset = 0; follow = false }))
    ≡ err (empty (codes "run_id"))
unfolding program
no_run = refl

abbrev two_digests : CasQuery
two_digests = record { digests = replicate 67 b'a' ∷ replicate 64 b'b' ∷ [] }

validate-IsWithin_example : (validate (query two_digests) ≡ ok tt) ↔ IsWithin (query two_digests)
validate-IsWithin_example = validate-IsWithin (query two_digests)
