-- ===== src/Server/Event/Trim.antt =====
-- crates/jet-server/src/webhook/mod.rs: the prefix of a Bitbucket event comes off whole.
use jetrun.Prelude.{
  sym, length-append, zero, suc, ◌≤◌, ◌<◌, ◌≡◌, refl, ap, ◌∙◌, inl, inr, none, [], ◌∷◌, ◌++◌, arith,
  Option-cases, length, Bytes, ℕ,
}
use jetrun.Core.Id.RoundTrip.{strip_prefix-some}
use mathlib.Core.List.{append_assoc}
use jetrun.Server.Event.Payload.{trim_start_matches, trim_from}
use jetrun.Core.Id.{strip_prefix}

abbrev pub repeated : ℕ → Bytes → Bytes
repeated zero p = []
repeated (suc k) p = p ++ repeated k p

-- The text with the prefix taken off as often as it stands there.
abbrev pub IsTrimmed : Bytes → Bytes → Bytes → Type 0
IsTrimmed p text rest = (strip_prefix p rest ≡ none) × ((k : ℕ) × (text ≡ repeated k p ++ rest))

trim_from-IsTrimmed :
    (fuel : ℕ) (p text : Bytes)
    → 0 < length p
    → length text ≤ fuel
    → IsTrimmed p text (trim_from fuel p text)
unfolding trim_from strip_prefix
trim_from-IsTrimmed zero [] text h short = absurd (omega arith)
trim_from-IsTrimmed zero (x ∷ p) [] h short = (refl, (0, refl))
trim_from-IsTrimmed zero (x ∷ p) (b ∷ text) h short = absurd (omega arith)
trim_from-IsTrimmed (suc fuel) p text h short = elim (Option-cases (strip_prefix p text)) [
  | inl n ↦ rw (trim_from, n) (n, (0, refl))
  | inr (rest, e) ↦
      let split : text ≡ p ++ rest = strip_prefix-some p text rest e in
      let (a, (k, b)) =
        trim_from-IsTrimmed fuel p rest h
          (omega (arith, ap (λ (x : Bytes). length x) split, length-append p rest)) in
      rw (trim_from, e)
        (
          a,
          (
            suc k,
            split
                ∙ ap (λ x. p ++ x) b
                ∙ sym (append_assoc p (repeated k p) (trim_from fuel p rest)),
          ),
        )
]

-- The loop ends within its fuel, the length of the text, with the prefix gone: for a prefix that is not
-- empty, what is left does not begin with it, and the text was some copies of the prefix and then that.
pub trim_start_matches-IsTrimmed :
    (p text : Bytes) → 0 < length p → IsTrimmed p text (trim_start_matches p text)
unfolding trim_start_matches
trim_start_matches-IsTrimmed p text h = trim_from-IsTrimmed (length text) p text h (omega arith)
