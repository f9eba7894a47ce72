-- ===== src/Cas/Tree/Tests.antt =====
-- A concrete manifest, after the unit tests of crates/jet-cas/src/tree.rs.
use jetrun.Prelude.{
  ℕ, ◌^◌, ◌<◌, ◌≡◌, refl, ◌↔◌, true, false, some, [], ◌∷◌, arith, length, replicate, Bytes, codes,
  bytes_eq, ok, err,
}
use jetrun.Cas.Tree.{
  Tree, file, dir, symlink, insert, get, encode, encode_entries, encode_entry, encode_node, tag,
  decode, decode_entries, decode_entry, decode_node, take_bytes, u8, u16, u32, u64, remaining,
  is_exhausted, digest_len,
}
use jetrun.Cas.Name as EntryName
use jetrun.Cas.Name.{
  bytes_cmp, is_utf8, utf8_from, next_byte, lead_byte, is_empty, contains, name_has_separator,
}
use jetrun.Cas.Name.Valid.{IsComponent, new_iff}
use jetrun.Cas.Tree.RoundTrip.{IsTree, decode-encode_tree, encode_tree_injective}
use jetrun.Cas.Tree.Safety.{IsSafe, decode-IsSafe}

program : Unit {0}
unfolding insert get encode encode_entries encode_entry encode_node tag decode decode_entries
    decode_entry decode_node take_bytes u8 u16 u32 u64 remaining is_exhausted bytes_cmp is_utf8
    utf8_from next_byte lead_byte is_empty contains EntryName.new bytes_eq
program = tt

abbrev digest : ℕ → Bytes
digest n = replicate digest_len n

abbrev sample : Tree
sample =
    (codes "build.sh", file (digest 7) 44 true)
    ∷ (codes "link", symlink (codes "main.rs"))
    ∷ (codes "src", dir (digest 9))
    ∷ []

sample_order :
    (insert
      (codes "link")
      (symlink (codes "main.rs"))
      (insert
        (codes "build.sh")
        (file (digest 7) 44 true)
        (insert (codes "src") (dir (digest 9)) []).0).0).0
    ≡ sample
unfolding program
sample_order = refl

sample_decoded : decode (encode sample) ≡ ok sample
unfolding program
sample_decoded = refl

traversal_name : EntryName.new (codes "../x") ≡ err (name_has_separator (codes "../x"))
unfolding program
traversal_name = refl

-- Overlong and surrogate encodings are not UTF-8; a four-byte character is.
utf8_cases :
    (is_utf8 (0xc0 ∷ 0x80 ∷ []) ≡ false)
    × (is_utf8 (0xed ∷ 0xa0 ∷ 0x80 ∷ []) ≡ false)
    × (is_utf8 (0xf0 ∷ 0x9f ∷ 0x9a ∷ 0x80 ∷ []) ≡ true)
unfolding program
utf8_cases = (refl, refl, refl)

sample-IsTree : IsTree sample
unfolding program
sample-IsTree = record {
  names = ((refl, refl, omega arith), ((refl, refl, omega arith), ((refl, refl, omega arith), tt)));
  nodes = ((refl, omega arith), ((refl, refl, omega arith), (refl, tt)));
  sorted = ((refl, (refl, tt)), ((refl, tt), (tt, tt)));
  count_u32 = omega arith;
}

length-sample : length (encode sample) < 2 ^ 64
unfolding program
length-sample = omega arith

decode-encode_tree_example : decode (encode sample) ≡ ok sample
decode-encode_tree_example = decode-encode_tree sample sample-IsTree length-sample

encode_tree_injective_example : sample ≡ sample
encode_tree_injective_example =
    encode_tree_injective sample sample sample-IsTree sample-IsTree length-sample refl

decode-IsSafe_example : IsSafe sample
decode-IsSafe_example = decode-IsSafe (encode sample) sample sample_decoded

found : get (codes "src") (insert (codes "src") (dir (digest 3)) sample).0 ≡ some (dir (digest 3))
unfolding program
found = refl

new_iff_example :
    (EntryName.new (codes "main.rs") ≡ ok (codes "main.rs")) ↔ IsComponent (codes "main.rs")
new_iff_example = new_iff (codes "main.rs")
