-- ===== src/Cas/Tree/Safety.antt =====
-- crates/jet-cas/src/tree.rs: what holds of every manifest that `Tree::decode` returns, whatever the
-- bytes it was given.
use jetrun.Prelude.{
  zero, suc, ◌-◌, ◌≤◌, ◌∙◌, Bool, [], ◌==◌, if◌then◌else◌, drop, length-take, length-drop, ◌>>=◌,
  ◌>>◌, refuse_if, Ensures-ok, slice, err, ◌+◌, ◌^◌, inl, inr, not, ◌&&◌, arith, ltb, leb,
  Bool-cases, Ensures, >>=-Ensures, refuse_if-Ensures, ℕ, ◌≡◌, true, false, length, All, Bytes, ok,
}
use jetrun.Cas.Name.{
  trailing_bytes, name_not_utf8, empty_symlink_target, unknown_tag, duplicate_name, TreeError,
  is_utf8, is_empty, bytes_cmp,
}
use jetrun.Cas.Tree.{
  is_exhausted, Tree, Node, file, dir, symlink, Reader, insert, decode_node, decode_entry,
  decode_entries, decode, take_bytes, u8, u16, u32, digest_len, tag_file, tag_dir, tag_symlink, u64,
  is_some, tree_format_version, remaining,
}
use jetrun.Cas.Tree.Sorted.{IsSorted, All-insert, insert-IsSorted}
use jetrun.Cas.Name.Order.{bytes_cmp-eq}
use jetrun.Cas.Name.Valid.{IsComponent, new-same, new-IsComponent}
use jetrun.Cas.Name as EntryName

-- A node has a digest of full length, or a target that is a text and not empty.
abbrev pub IsSound : Node → Type 0
IsSound (file digest size executable) = length digest ≡ digest_len
IsSound (dir digest) = length digest ≡ digest_len
IsSound (symlink target) = (is_utf8 target ≡ true) × (is_empty target ≡ false)

-- A manifest that is safe to write to disk: each entry is a path component, no two entries share a
-- name, and the nodes are sound.
pub record IsSafe (t : Tree) : Type 0 where
  pub components : All (λ e. IsComponent e.0) t
  pub texts : All (λ e. is_utf8 e.0 ≡ true) t
  pub sound : All (λ e. IsSound e.1) t
  pub sorted : IsSorted t

length-slice : (b : Bytes) (at n : ℕ) → at + n ≤ length b → length (slice b at (at + n)) ≡ n
length-slice b at n h =
    length-take (at + n - at) (drop at b) (omega (arith, length-drop at b)) ∙ omega arith

not-false : (b : Bool) → not b ≡ false → b ≡ true
not-false b h = ground arith

take_bytes-length :
    (n : ℕ) (r : Reader) → Ensures (λ (p : Bytes × Reader). length p.0 ≡ n) (take_bytes n r)
unfolding take_bytes
take_bytes-length n r = elim (Bool-cases (ltb (r.at + n) (2 ^ 64) && leb (r.at + n) (length r.b))) [
  | inl e ↦ rw e (length-slice r.b r.at n (ground arith))
  | inr e ↦ rw e tt
]

abbrev Sound : Node × Reader → Type 0
Sound p = IsSound p.0

abbrev Safe : Tree × Reader → Type 0
Safe p = IsSafe p.0

empty-IsSafe : IsSafe []
empty-IsSafe = record { components = tt; texts = tt; sound = tt; sorted = tt }

insert-IsSafe :
    (name : Bytes) (node : Node) (t : Tree)
    → is_utf8 name ≡ true
    → IsComponent name
    → IsSound node
    → IsSafe t
    → IsSafe (insert name node t).0
insert-IsSafe name node t hu hc hs s = record {
  components =
      All-insert (λ e. IsComponent e.0) name node t (λ k e. rw (← bytes_cmp-eq name k e) hc) hc
        s.components;
  texts =
      All-insert (λ e. is_utf8 e.0 ≡ true) name node t (λ k e. rw (← bytes_cmp-eq name k e) hu) hu
        s.texts;
  sound = All-insert (λ e. IsSound e.1) name node t (λ k e. hs) hs s.sound;
  sorted = insert-IsSorted name node t s.sorted;
}

-- The arms of `decode_node` for a directory and a symlink.
decode_link-IsSound :
    (t : ℕ) (r : Reader)
    → Ensures Sound (
        if t == tag_dir
        then (do (digest, r) ← take_bytes digest_len r; ok (dir digest, r))
        else if t == tag_symlink
        then (do
          (n, r) ← u16 r
          (target, r) ← take_bytes n r
          refuse_if (not (is_utf8 target)) name_not_utf8
          refuse_if (is_empty target) empty_symlink_target
          ok (symlink target, r))
        else err (unknown_tag t))
decode_link-IsSound t r = elim (Bool-cases (t == tag_dir)) [
  | inl e ↦ rw e (
      >>=-Ensures Sound (take_bytes digest_len r) _
        λ digest read. Ensures-ok _ _ (take_bytes-length digest_len r) digest read)
  | inr e ↦ rw e (elim (Bool-cases (t == tag_symlink)) [
    | inl e ↦ rw e (
        >>=-Ensures Sound (u16 r) _ λ n _. >>=-Ensures Sound (take_bytes n.0 n.1) _ λ target _.
          refuse_if-Ensures Sound (not (is_utf8 target.0)) _ _ λ utf8.
            refuse_if-Ensures Sound (is_empty target.0) empty_symlink_target
              (ok (symlink target.0, target.1)) λ nonempty. (not-false _ utf8, nonempty))
    | inr e ↦ rw e tt
  ])
]

decode_node-IsSound :
    (t : ℕ) (r : Reader) → Ensures (λ (p : Node × Reader). IsSound p.0) (decode_node t r)
unfolding decode_node
decode_node-IsSound t r = elim (Bool-cases (t == tag_file)) [
  | inl e ↦ rw e (
      >>=-Ensures Sound (take_bytes digest_len r) _ λ digest read.
        >>=-Ensures Sound (u64 digest.1) _ λ size _.
          >>=-Ensures Sound (u8 size.1) _
            λ flags _. Ensures-ok _ _ (take_bytes-length digest_len r) digest read)
  | inr e ↦ rw e (decode_link-IsSound t r)
]

decode_entry-IsSafe :
    (acc : Tree) (r : Reader)
    → IsSafe acc
    → Ensures (λ (p : Tree × Reader). IsSafe p.0) (decode_entry acc r)
unfolding decode_entry
decode_entry-IsSafe acc r s = >>=-Ensures Safe (u8 r) _ λ t _. >>=-Ensures Safe (u16 t.1) _ λ n _.
    >>=-Ensures Safe (take_bytes n.0 n.1) _ λ text _.
      refuse_if-Ensures Safe (not (is_utf8 text.0)) _ _ λ utf8.
        >>=-Ensures Safe (EntryName.new text.0) _ λ name valid.
          >>=-Ensures Safe (decode_node t.0 text.1) _ λ node read.
            let added = insert name node.0 acc in
            refuse_if-Ensures Safe (is_some added.1) (duplicate_name name) (ok (added.0, node.1))
              λ fresh.
                insert-IsSafe name node.0 acc (rw (new-same text.0 name valid) (not-false _ utf8))
                  (rw (← new-same text.0 name valid) at (new-IsComponent text.0 name valid))
                  (Ensures-ok _ _ (decode_node-IsSound t.0 text.1) node read) s

decode_entries-IsSafe :
    (count : ℕ) (acc : Tree) (r : Reader) → IsSafe acc → Ensures Safe (decode_entries count acc r)
unfolding decode_entries
decode_entries-IsSafe zero acc r s = s
decode_entries-IsSafe (suc count) acc r s =
    >>=-Ensures Safe (decode_entry acc r) _ λ p e.
      decode_entries-IsSafe count p.0 p.1 (Ensures-ok Safe _ (decode_entry-IsSafe acc r s) p e)

pub decode-Ensures : (bytes : Bytes) → Ensures IsSafe (decode bytes)
unfolding decode
decode-Ensures bytes = >>=-Ensures IsSafe (u16 (record { b = bytes; at = 0 })) _ λ version _.
    refuse_if-Ensures IsSafe (not (version.0 == tree_format_version)) _ _ λ _.
      >>=-Ensures IsSafe (u32 version.1) _ λ count _.
        refuse_if-Ensures IsSafe (ltb (remaining count.1) count.0) _ _ λ _.
          >>=-Ensures IsSafe (decode_entries count.0 [] count.1) _ λ p e.
            refuse_if-Ensures IsSafe (not (is_exhausted p.1)) (trailing_bytes (remaining p.1))
              (ok p.0)
              λ _. Ensures-ok Safe _ (decode_entries-IsSafe count.0 [] count.1 empty-IsSafe) p e

-- Whatever bytes it is given, a manifest that the decoder returns is safe to write to disk: every
-- name is a single path component of valid UTF-8, no name occurs twice, every digest has its full
-- length, and no symlink target is empty.
pub decode-IsSafe : (bytes : Bytes) (t : Tree) → decode bytes ≡ ok t → IsSafe t
decode-IsSafe bytes = Ensures-ok IsSafe (decode bytes) (decode-Ensures bytes)
