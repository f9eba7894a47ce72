-- ===== src/Cas/Tree/Entries.antt =====
-- crates/jet-cas/src/tree.rs: one entry of a manifest is read back as it was written.
use jetrun.Prelude.{
  ℕ, ◌^◌, ◌<◌, ◌≡◌, refl, sym, Bool, true, false, not, [], ◌∷◌, ◌++◌, ◌==◌, if◌then◌else◌, length,
  Bytes, to_le_bytes, ok,
}
use Prim.Native.Nat.{bit_and}
use mathlib.Core.List.{append_assoc}
use jetrun.Cas.Tree.{
  Tree, Node, file, dir, symlink, tag, Reader, encode_node, encode_entry, decode_node, decode_entry,
  digest_len,
}
use jetrun.Cas.Tree.Cursor.{At, take_bytes-At, u8-At, u16-At, u64-At}
use jetrun.Cas.Tree.Sorted.{Above, insert_last}
use jetrun.Cas.Name.{is_utf8, is_empty}
use jetrun.Cas.Name as EntryName

-- A name that `EntryName::new` accepts, in a Rust string.
abbrev pub IsName : Bytes → Type 0
IsName name = (is_utf8 name ≡ true) × (EntryName.new name ≡ ok name) × (length name < 2 ^ 16)

-- The fields hold what their Rust types can hold, and a symlink's target fits its length field.
abbrev pub IsNode : Node → Type 0
IsNode (file digest size executable) = (length digest ≡ digest_len) × (size < 2 ^ 64)
IsNode (dir digest) = length digest ≡ digest_len
IsNode (symlink target) =
    (is_utf8 target ≡ true) × (is_empty target ≡ false) × (length target < 2 ^ 16)

flag_read : (x : Bool) → not (bit_and (if x then 1 else 0) 1 == 0) ≡ x
flag_read true = refl
flag_read false = refl

pub decode_node-encode_node :
    (node : Node) (rest : Bytes) (r : Reader)
    → IsNode node
    → At r (encode_node node ++ rest)
    → (r' : Reader) × (decode_node (tag node) r ≡ ok (node, r')) × At r' rest
unfolding decode_node encode_node tag
decode_node-encode_node (file digest size x) rest r (hd, hs) a =
    let flag : ℕ = if x then 1 else 0 in
    let (r1, e1, a1) =
      take_bytes-At digest_len digest (to_le_bytes 8 size ++ (flag ∷ rest)) r (sym hd)
        (rw append_assoc at a) in
    let (r2, e2, a2) = u64-At (flag ∷ rest) r1 size hs a1 in
    let (r3, e3, a3) = u8-At rest r2 flag a2 in (r3, rw (e1, e2, e3, flag_read x), a3)
decode_node-encode_node (dir digest) rest r hd a =
    let (r1, e1, a1) = take_bytes-At digest_len digest rest r (sym hd) a in (r1, rw e1, a1)
decode_node-encode_node (symlink target) rest r (hu, he, hl) a =
    let (r1, e1, a1) = u16-At (target ++ rest) r (length target) hl a in
    let (r2, e2, a2) = take_bytes-At (length target) target rest r1 refl a1 in
    (r2, rw (e1, e2, hu, he), a2)

pub decode_entry-encode_entry :
    (name : Bytes) (node : Node) (acc : Tree) (rest : Bytes) (r : Reader)
    → IsName name
    → IsNode node
    → Above name acc
    → At r (encode_entry name node ++ rest)
    → (r' : Reader) × (decode_entry acc r ≡ ok (acc ++ ((name, node) ∷ []), r')) × At r' rest
unfolding decode_entry encode_entry
decode_entry-encode_entry name node acc rest r (hu, hn, hl) v above a =
    let (r1, e1, a1) =
      u8-At (to_le_bytes 2 (length name) ++ (name ++ (encode_node node ++ rest))) r (tag node)
        (simp append_assoc at a) in
    let (r2, e2, a2) = u16-At (name ++ (encode_node node ++ rest)) r1 (length name) hl a1 in
    let (r3, e3, a3) = take_bytes-At (length name) name (encode_node node ++ rest) r2 refl a2 in
    let (r4, e4, a4) = decode_node-encode_node node rest r3 v a3 in
    (r4, rw (e1, e2, e3, hu, hn, e4, insert_last name node acc above), a4)
