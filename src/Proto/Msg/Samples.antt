-- ===== src/Proto/Msg/Samples.antt =====
-- crates/jet-proto/src/msg.rs: a codec for the tests, in which a payload is a text of the message.
use jetrun.Prelude.{none, [], ◌∷◌, Bytes, ok, ℕ}
use jetrun.Proto.Frame.{version}
use jetrun.Proto.Msg.{Codec, all_caps, bad_request}

abbrev first_byte : Bytes → ℕ
first_byte [] = 0
first_byte (b ∷ bs) = b

abbrev pub sample_codec : Codec (Unit {0})
sample_codec = record {
  decode_hello = λ p.
      ok (record { agent = p; min_version = 1; max_version = version; capabilities = all_caps });
  decode_hello_ack =
      λ p. ok (record { agent = p; version = version; capabilities = all_caps; session = p });
  decode_error = λ p. ok (record { code = bad_request; message = p });
  decode_ping = λ p. ok (record { nonce = first_byte p });
  decode_pong = λ p. ok (record { nonce = first_byte p });
  decode_auth = λ p. ok (record { token = p });
  decode_submit_run = λ p. ok (record {
    project = p;
    pipeline = p;
    definition = p;
    commit_sha = none;
    reference = none;
    idempotency_key = none;
  });
}
