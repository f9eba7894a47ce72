-- ===== src/Core/Id/RoundTrip.antt =====
-- crates/jet-core/src/id.rs: identifiers are parsed from both of their printed forms.
use jetrun.Prelude.{
  sym, ◌≢◌, ℕ, ◌≡◌, refl, ◌∙◌, inl, inr, Option, none, some, [], ◌∷◌, ◌++◌, ◌==◌, ==_iff,
  Bool-cases, In, Bytes, codes, ok,
}
use mathlib.Core.List.{append_assoc}
use jetrun.Core.Id.{IdKind, TypedId, prefix, to_canonical, to_debug, strip_prefix, from_str}

pub strip_prefix-append : (p s : Bytes) → strip_prefix p (p ++ s) ≡ some s
unfolding strip_prefix
strip_prefix-append [] s = refl
strip_prefix-append (x ∷ p) s = rw ((==_iff x x).1 refl, strip_prefix-append p s)

-- A text with a prefix is the prefix and the rest.
pub strip_prefix-some : (p s r : Bytes) → strip_prefix p s ≡ some r → s ≡ p ++ r
unfolding strip_prefix
strip_prefix-some [] s r h = cc
strip_prefix-some (x ∷ p) [] r h = cc
strip_prefix-some (x ∷ p) (b ∷ s) r h = elim (Bool-cases (x == b)) [
  | inl e ↦ λ i. sym ((==_iff x b).0 e) i ∷ strip_prefix-some p s r (rw e at h) i
  | inr e ↦ absurd (none≢some (rw e at h))
]
  where
    none≢some : {a : Bytes} → none ≢ some a
    none≢some h = cc

behind : (c x : ℕ) (p : Bytes) → In c (x ∷ p) → ¬ (c ≡ x) → In c p
behind c x p (inl q) n = absurd (n q)
behind c x p (inr k) n = k

-- A prefix that holds a byte which the text does not have is not found.
pub strip_prefix_absent : (p s : Bytes) (c : ℕ) → In c p → ¬ In c s → strip_prefix p s ≡ none
unfolding strip_prefix
strip_prefix_absent [] s c m h = absurd m
strip_prefix_absent (x ∷ p) [] c m h = refl
strip_prefix_absent (x ∷ p) (b ∷ s) c m h = elim (Bool-cases (x == b)) [
  | inr e ↦ rw e
  | inl e ↦ rw e (
      strip_prefix_absent p s c (behind c x p m (λ q. h (inl (q ∙ (==_iff x b).0 e))))
        (λ k. h (inr k)))
]

In-append : (c : ℕ) (xs ys : Bytes) → In c ys → In c (xs ++ ys)
In-append c [] ys m = m
In-append c (x ∷ xs) ys m = inr (In-append c xs ys m)

-- The crate `ulid` parses what it prints, and its base32 alphabet has no underscore.
module _ {Ulid : Type 0} (to_string : Ulid → Bytes) (parse : Bytes → Option Ulid)
    (parse-to_string : (u : Ulid) → parse (to_string u) ≡ some u)
    (no_underscore : (u : Ulid) → ¬ In b'_' (to_string u)) where
  -- When the crate `ulid` parses what it prints, and prints no underscore: an identifier is parsed from
  -- its canonical form and from its prefixed one, under its own kind.
  pub from_str-printed :
      (kind : IdKind) (id : TypedId kind Ulid)
      → (from_str parse kind (to_canonical to_string id) ≡ ok id)
        × (from_str parse kind (to_debug to_string kind id) ≡ ok id)
  unfolding from_str to_canonical to_debug
  from_str-printed kind id = (
    rw (
      strip_prefix_absent (prefix kind ++ codes "_") (to_string id.ulid) b'_'
          (In-append b'_' (prefix kind) (codes "_") (inl refl)) (no_underscore id.ulid),
      parse-to_string id.ulid,
    ),
    rw (
      ← append_assoc (prefix kind) (codes "_") (to_string id.ulid),
      strip_prefix-append (prefix kind ++ codes "_") (to_string id.ulid),
      parse-to_string id.ulid,
    ),
  )
