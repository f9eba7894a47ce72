-- ===== src/Cas/Tree/RoundTrip.antt =====
-- crates/jet-cas/src/tree.rs: `Tree::decode` undoes `Tree::encode`.
use jetrun.Prelude.{
  Result, sym, ◌∙◌, false, ltb, le→ltb, length-append, ◌^◌, ◌≤◌, ◌<◌, ◌≡◌, refl, [], ◌∷◌, ◌++◌,
  arith, length, All, All-append, Bytes, to_le_bytes, ok,
}
use Prim.Native.Nat.{Ordering}
use mathlib.Core.List.{append_assoc, append-nil}
use jetrun.Cas.Tree.{
  Tree, Node, Reader, encode_entry, encode_entries, encode, decode_entries, decode, remaining,
}
use jetrun.Cas.Tree.Cursor.{remaining-At, is_exhausted-At, At, u16-At, u32-At}
use jetrun.Cas.Tree.Sorted.{Above, Below, IsSorted}
use jetrun.Cas.Tree.Entries.{IsName, IsNode, decode_entry-encode_entry}
use jetrun.Cas.Name.{TreeError, bytes_cmp}

-- What Rust's types and the constructor of a name guarantee of a manifest that fits its format.
pub record IsTree (t : Tree) : Type 0 where
  pub names : All (λ e. IsName e.0) t
  pub nodes : All (λ e. IsNode e.1) t
  pub sorted : IsSorted t
  pub count_u32 : length t < 2 ^ 32

-- Every name of the first tree is below every name of the second.
abbrev Before : Tree → Tree → Type 0
Before acc t = All (λ e. Above e.0 acc) t

Before-step :
    (name : Bytes) (node : Node) (acc t : Tree)
    → Before acc t
    → Below name t
    → Before (acc ++ ((name, node) ∷ [])) t
Before-step name node acc [] h b = tt
Before-step name node acc (e ∷ t) (he, ht) (be, bt) = (
  All-append (λ k. bytes_cmp k.0 e.0 ≡ Ordering.lt) acc ((name, node) ∷ []) he (be, tt),
  Before-step name node acc t ht bt,
)

decode_entries-encode_entries :
    (t acc : Tree) (rest : Bytes) (r : Reader)
    → All (λ e. IsName e.0) t
    → All (λ e. IsNode e.1) t
    → IsSorted t
    → Before acc t
    → At r (encode_entries t ++ rest)
    → (r' : Reader) × (decode_entries (length t) acc r ≡ ok (acc ++ t, r')) × At r' rest
unfolding decode_entries encode_entries
decode_entries-encode_entries [] acc rest r hn hv hs hb a = (r, rw append-nil, a)
decode_entries-encode_entries ((name, node) ∷ t) acc rest r (hn, hns) (hv, hvs) (hs, hss) (hb, hbs)
      a =
    let (r1, e1, a1) =
      decode_entry-encode_entry name node acc (encode_entries t ++ rest) r hn hv hb
        (rw append_assoc at a) in
    let (r2, e2, a2) =
      decode_entries-encode_entries t (acc ++ ((name, node) ∷ [])) rest r1 hns hvs hss
        (Before-step name node acc t hbs hs) a1 in
    (r2, rw (e1, e2, append_assoc), a2)

Before-nil : (t : Tree) → Before [] t
Before-nil [] = tt
Before-nil (e ∷ t) = (tt, Before-nil t)

length-encode_entries-le : (t : Tree) → length t ≤ length (encode_entries t)
unfolding encode_entries encode_entry
length-encode_entries-le [] = omega arith
length-encode_entries-le ((name, node) ∷ t) =
    rw length-append (omega (arith, length-encode_entries-le t))

-- Decoding the encoding of a manifest gives the manifest back, if its names are single path
-- components of valid UTF-8 in their order, its nodes fit their fields, and its encoding fits in memory.
pub decode-encode_tree :
    (t : Tree) → IsTree t → length (encode t) < 2 ^ 64 → decode (encode t) ≡ ok t
unfolding decode encode
decode-encode_tree t v h =
    let body = encode_entries t in
    let start : Reader = record { b = encode t; at = 0 } in
    let begun : At start (to_le_bytes 2 1 ++ (to_le_bytes 4 (length t) ++ body)) = record {
      ahead = refl;
      inside = omega arith;
      bounded = h;
    } in
    let (r1, e1, a1) = u16-At (to_le_bytes 4 (length t) ++ body) start 1 (omega arith) begun in
    let (r2, e2, a2) = u32-At body r1 (length t) v.count_u32 a1 in
    let (r3, e3, a3) =
      decode_entries-encode_entries t [] [] r2 v.names v.nodes v.sorted (Before-nil t)
        (rw append-nil a2) in
    let fits : ltb (remaining r2) (length t) ≡ false =
      rw (remaining-At r2 body a2) (le→ltb (length body) (length t) (length-encode_entries-le t)) in
    rw (e1, e2, fits, e3, is_exhausted-At r3 a3)

ok-injective : {t u : Tree} → ◌≡◌ {A = Result Tree TreeError} (ok t) (ok u) → t ≡ u
ok-injective e = cc

-- Two manifests whose names are single path components of valid UTF-8 in their order, whose nodes fit
-- their fields and whose encoding fits in memory are equal when their encodings are.
pub encode_tree_injective :
    (t u : Tree) → IsTree t → IsTree u → length (encode t) < 2 ^ 64 → encode t ≡ encode u → t ≡ u
encode_tree_injective t u vt vu h e =
    ok-injective (sym (decode-encode_tree t vt h) ∙ rw e (decode-encode_tree u vu (rw e at h)))
