-- ===== src/Cas/Tree.antt =====
-- crates/jet-cas/src/tree.rs: directory manifests, their canonical encoding and its decoder.
-- `Tree` is the sorted list of a `BTreeMap`'s entries; a digest is its 32 bytes.
pub mod Cursor
pub mod Sorted
pub mod Entries
pub mod RoundTrip
pub mod Safety
mod Tests
use jetrun.Prelude.{
  ℕ, zero, suc, Bool, true, false, not, Option, none, some, List, [], ◌∷◌, ◌++◌, ltb, ◌==◌,
  if◌then◌else◌, length, Result, ◌>>=◌, ◌>>◌, refuse_if, Bytes, bytes_eq, to_le_bytes, ok, err,
}
use Prim.Native.Nat.{Ordering, bit_and}
pub use Cursor.{Reader}
unfoldable pub use Cursor.{take_bytes, u8, u16, u32, u64, remaining, is_exhausted}
use jetrun.Cas.Name.{
  TreeError, bytes_cmp, is_empty, is_utf8, empty_symlink_target, unknown_tag, name_not_utf8,
  duplicate_name, unsupported_version, truncated, trailing_bytes,
}
use jetrun.Cas.Name as EntryName

abbrev pub digest_len : ℕ
digest_len = 32

abbrev pub tree_format_version : ℕ
tree_format_version = 1

abbrev pub tag_file : ℕ
tag_file = 1

abbrev pub tag_dir : ℕ
tag_dir = 2

abbrev pub tag_symlink : ℕ
tag_symlink = 3

abbrev pub flag_executable : ℕ
flag_executable = 1

pub data Node : Type 0 where
  file : Bytes → ℕ → Bool → Node
  dir : Bytes → Node
  symlink : Bytes → Node

unfoldable pub tag : Node → ℕ
tag (file digest size executable) = tag_file
tag (dir digest) = tag_dir
tag (symlink target) = tag_symlink

abbrev pub Tree : Type 0
Tree = List (Bytes × Node)

-- `BTreeMap::insert`: the new map, and the value that it replaced.
unfoldable pub insert : Bytes → Node → Tree → Tree × Option Node
insert name node [] = ((name, node) ∷ [], none)
insert name node ((k, v) ∷ es) =
    let rest = insert name node es in
    elim (bytes_cmp name k) [
      | Ordering.lt ↦ ((name, node) ∷ (k, v) ∷ es, none)
      | Ordering.eq ↦ ((k, node) ∷ es, some v)
      | Ordering.gt ↦ ((k, v) ∷ rest.0, rest.1)
    ]

unfoldable pub get : Bytes → Tree → Option Node
get name [] = none
get name ((k, v) ∷ es) = if bytes_eq k name then some v else get name es

unfoldable pub blob_digests : Tree → List Bytes
blob_digests [] = []
blob_digests ((name, file digest size executable) ∷ es) = digest ∷ blob_digests es
blob_digests ((name, dir digest) ∷ es) = blob_digests es
blob_digests ((name, symlink target) ∷ es) = blob_digests es

unfoldable pub subtree_digests : Tree → List Bytes
subtree_digests [] = []
subtree_digests ((name, file digest size executable) ∷ es) = subtree_digests es
subtree_digests ((name, dir digest) ∷ es) = digest ∷ subtree_digests es
subtree_digests ((name, symlink target) ∷ es) = subtree_digests es

unfoldable pub encode_node : Node → Bytes
encode_node (file digest size executable) =
    digest ++ (to_le_bytes 8 size ++ ((if executable then flag_executable else 0) ∷ []))
encode_node (dir digest) = digest
encode_node (symlink target) = to_le_bytes 2 (length target) ++ target

unfoldable pub encode_entry : Bytes → Node → Bytes
encode_entry name node = tag node ∷ (to_le_bytes 2 (length name) ++ (name ++ encode_node node))

unfoldable pub encode_entries : Tree → Bytes
encode_entries [] = []
encode_entries ((name, node) ∷ es) = encode_entry name node ++ encode_entries es

unfoldable pub encode : Tree → Bytes
encode t = to_le_bytes 2 tree_format_version ++ (to_le_bytes 4 (length t) ++ encode_entries t)

-- The arms of the `match tag` in `decode`.
unfoldable pub decode_node : ℕ → Reader → Result (Node × Reader) TreeError
decode_node t r =
    if t == tag_file
    then (do
      (digest, r) ← take_bytes digest_len r
      (size, r) ← u64 r
      (flags, r) ← u8 r
      ok (file digest size (not (bit_and flags flag_executable == 0)), r))
    else if t == tag_dir
    then (do (digest, r) ← take_bytes digest_len r; ok (dir digest, r))
    else if t == tag_symlink
    then (do
      (n, r) ← u16 r
      (target, r) ← take_bytes n r
      refuse_if (not (is_utf8 target)) name_not_utf8
      refuse_if (is_empty target) empty_symlink_target
      ok (symlink target, r))
    else err (unknown_tag t)

abbrev pub is_some : Option Node → Bool
is_some none = false
is_some (some node) = true

-- One round of the loop of `decode`.
unfoldable pub decode_entry : Tree → Reader → Result (Tree × Reader) TreeError
decode_entry entries r = do
  (t, r) ← u8 r
  (name_len, r) ← u16 r
  (text, r) ← take_bytes name_len r
  refuse_if (not (is_utf8 text)) name_not_utf8
  name ← EntryName.new text
  (node, r) ← decode_node t r
  let (entries, old) = insert name node entries
  refuse_if (is_some old) (duplicate_name name)
  ok (entries, r)

unfoldable pub decode_entries : ℕ → Tree → Reader → Result (Tree × Reader) TreeError
decode_entries zero entries r = ok (entries, r)
decode_entries (suc count) entries r = do
  (entries, r) ← decode_entry entries r
  decode_entries count entries r

unfoldable pub decode : Bytes → Result Tree TreeError
decode bytes = do
  let r : Reader = record { b = bytes; at = 0 }
  (version, r) ← u16 r
  refuse_if (not (version == tree_format_version)) (unsupported_version version)
  (count, r) ← u32 r
  refuse_if (ltb (remaining r) count) truncated
  (entries, r) ← decode_entries count [] r
  refuse_if (not (is_exhausted r)) (trailing_bytes (remaining r))
  ok entries
