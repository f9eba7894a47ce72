-- ===== src/Cas/Store/Materialize/Tests.antt =====
-- crates/jet-cas/src/store.rs: small workspaces written out. The hash of a manifest is 32 times its
-- length, which tells the manifests here apart.
use jetrun.Prelude.{
  ℕ, true, false, none, some, List, [], ◌∷◌, ok, err, Result, ◌≡◌, refl, any, length, replicate,
  Bytes, codes, bytes_eq, All,
}
use jetrun.Prelude.Stateful.{Outcome, continue}
use jetrun.Cas.Name as EntryName
use jetrun.Cas.Name.{bytes_cmp, is_utf8, utf8_from, next_byte, lead_byte, is_empty}
use jetrun.Cas.Tree.{
  Tree, file, dir, symlink, insert, encode, encode_entries, encode_entry, encode_node, tag, decode,
  decode_entries, decode_entry, decode_node, take_bytes, u8, u16, u32, u64, remaining, is_exhausted,
  digest_len,
}
use jetrun.Cas.Link.{
  Errno, eopnotsupp, eperm, Intent, overlay_lower, private_inode, LinkMode, reflink, hardlink, copy,
  Capabilities, cap_unknown, cap_no, Place, nothing, same_inode, duplicate, Calls, try_reflink,
  raw_reflink, try_hardlink, link_or_copy, clone_or_else, copied, cloned, linked, is_unsupported,
  is_unlinkable, may_clone, reflink_supported,
}
use jetrun.Cas.Link
use jetrun.Cas.Store.{
  Object, CasError, PathBuf, io_error, destination_exists, tree_too_deep, missing_object, has,
  get_bytes, get_tree,
}
use jetrun.Cas.Store.Materialize.{
  MaterializeStats, made_dir, placed, chmod, made_symlink, World, Kernel, want, filed, place_file,
  own_mode, set_mode, materialize_file, materialize_node, materialize_entries, materialize_into,
  materialize_tree,
}
use jetrun.Cas.Store.Materialize.Confined.{IsConfined, materialize_tree-IsConfined}
use jetrun.Cas.Store.Materialize.Counted.{Answers, materialize_tree-Agrees}

program : Unit {0}
unfolding insert encode encode_entries encode_entry encode_node tag decode decode_entries
    decode_entry decode_node take_bytes u8 u16 u32 u64 remaining is_exhausted bytes_cmp is_utf8
    utf8_from next_byte lead_byte is_empty EntryName.contains EntryName.new bytes_eq any has
    get_bytes get_tree Link.materialize try_reflink raw_reflink try_hardlink link_or_copy
    clone_or_else copied cloned linked is_unsupported is_unlinkable may_clone reflink_supported
    continue want filed place_file own_mode set_mode materialize_file materialize_node
    materialize_entries materialize_into materialize_tree
program = tt

abbrev digest : ℕ → Bytes
digest n = replicate digest_len n

abbrev hash : Bytes → Bytes
hash bytes = digest (length bytes)

abbrev object : Bytes → Bytes → Object
object d bytes = record { digest = d; bytes = bytes; modified = 0 }

abbrev source : Tree
source = (codes "run", file (digest 200) 9 true) ∷ (codes "text", file (digest 200) 9 false) ∷ []

abbrev root : Tree
root = (codes "link", symlink (codes "/etc")) ∷ (codes "src", dir (hash (encode source))) ∷ []

abbrev objects : List Object
objects =
    object (hash (encode source)) (encode source)
    ∷ object (hash (encode root)) (encode root)
    ∷ object (digest 200) (codes "fn main()")
    ∷ []

-- A filesystem that never clones.
abbrev plain : Calls
plain = record {
  remove_file = none;
  open_source = none;
  create_new = none;
  ficlone = some eopnotsupp;
  remove_partial = none;
  hard_link = none;
  copy_file = none;
}

abbrev kernel : Kernel
kernel = record {
  exists = λ path. false;
  create_dir = λ path. none;
  before = λ path. nothing;
  calls = λ path. plain;
  metadata = λ path. none;
  set_permissions = λ path. none;
  symlink_call = λ path. none;
}

abbrev out : PathBuf
out = codes "out" ∷ []

abbrev in_src : Bytes → PathBuf
in_src name = codes "out" ∷ codes "src" ∷ name ∷ []

abbrev run : Kernel → Intent → Result MaterializeStats CasError × World
run k intent = materialize_tree hash objects k intent (hash (encode root)) out cap_unknown 0

-- Under an overlay the plain file is linked, without a change of its mode, and the executable one is
-- copied.
overlay : (run kernel overlay_lower).1.log ≡ (
    placed (in_src (codes "text")) (digest 200) 9 false hardlink same_inode
    ∷ chmod (in_src (codes "run")) 365 duplicate
    ∷ placed (in_src (codes "run")) (digest 200) 9 true copy duplicate
    ∷ made_dir (codes "out" ∷ codes "src" ∷ [])
    ∷ made_symlink (codes "out" ∷ codes "link" ∷ []) (codes "/etc")
    ∷ made_dir out
    ∷ [])
unfolding program
overlay = refl

counters :
    (run kernel overlay_lower).0
    ≡ ok (record { reflinked = 0; hardlinked = 1; copied = 1; dirs = 2; symlinks = 1; bytes = 18 })
unfolding program
counters = refl

one_ioctl : (run kernel overlay_lower).1.ioctls ≡ 1
unfolding program
one_ioctl = refl

existing :
    (run (record kernel { exists = λ path. true }) overlay_lower).0 ≡ err (destination_exists out)
unfolding program
existing = refl

refused :
    (run (record kernel { symlink_call = λ path. some eperm }) overlay_lower).0
    ≡ err (io_error (codes "symlink") (codes "out" ∷ codes "link" ∷ []) eperm)
unfolding program
refused = refl

absent :
    (materialize_tree hash [] kernel overlay_lower (digest 7) out cap_no 0).0
    ≡ err (missing_object (digest 7))
unfolding program
absent = refl

-- A manifest that names itself is bounded.
abbrev knot : Tree
knot = (codes "a", dir (digest 47)) ∷ []

too_deep :
    (materialize_tree
      (λ bytes. digest 47)
      (object (digest 47) (encode knot) ∷ [])
      kernel
      overlay_lower
      (digest 47)
      out
      cap_no
      0).0
    ≡ err (tree_too_deep 128)
unfolding program
too_deep = refl

materialize_tree-IsConfined_example :
    All (IsConfined objects overlay_lower out) (run kernel overlay_lower).1.log
materialize_tree-IsConfined_example =
    materialize_tree-IsConfined hash objects kernel overlay_lower (hash (encode root)) out
      cap_unknown 0

materialize_tree-Agrees_example : Outcome Answers (λ e w. Unit {0}) (run kernel overlay_lower)
materialize_tree-Agrees_example =
    materialize_tree-Agrees hash objects kernel overlay_lower (hash (encode root)) out cap_unknown 0
