-- ===== src/Cas/Store/Intact/Tests.antt =====
-- crates/jet-cas/src/store.rs: putting and reading back, in a store that holds neither.
use jetrun.Prelude.{
  refl, ◌^◌, ◌<◌, ◌≡◌, sym, false, List, [], ◌∷◌, arith, length, replicate, Result, Bytes, codes,
  bytes_eq, ok,
}
use jetrun.Cas.Name as EntryName
use jetrun.Cas.Name.{bytes_cmp, is_utf8, utf8_from, next_byte, lead_byte, is_empty}
use jetrun.Cas.Tree.{Tree, file, encode, encode_entries, encode_entry, encode_node, tag, digest_len}
use jetrun.Cas.Tree.RoundTrip.{IsTree}
use jetrun.Cas.Store.{
  Object, CasError, get_bytes, get_bytes_verified, put_bytes, put_tree, get_tree, tree_digest,
}
use jetrun.Cas.Store.Intact.{IsIntact, get_bytes-put_bytes, get_tree-put_tree}

program : Unit {0}
unfolding encode encode_entries encode_entry encode_node tag bytes_cmp is_utf8 utf8_from next_byte
    lead_byte is_empty EntryName.contains EntryName.new get_bytes bytes_eq
program = tt

abbrev hash : Bytes → Bytes
hash bytes = replicate digest_len (length bytes)

abbrev objects : List Object
objects = record { digest = replicate digest_len 3; bytes = codes "abc"; modified = 0 } ∷ []

abbrev source : Tree
source = (codes "main.rs", file (replicate digest_len 200) 9 false) ∷ []

source-IsTree : IsTree source
unfolding program
source-IsTree = record {
  names = ((refl, refl, omega arith), tt);
  nodes = ((refl, omega arith), tt);
  sorted = (tt, tt);
  count_u32 = omega arith;
}

length-source : length (encode source) < 2 ^ 64
unfolding program
length-source = omega arith

source-IsIntact : IsIntact objects (tree_digest hash source) (encode source)
unfolding program
source-IsIntact b h = cc

abc-IsIntact : IsIntact objects (hash (codes "abc")) (codes "abc")
unfolding program
abc-IsIntact b h = sym (ok-injective h)
  where
    ok-injective : {a b : Bytes} → ◌≡◌ {A = Result Bytes CasError} (ok a) (ok b) → a ≡ b
    ok-injective h = cc

get_bytes-put_bytes_example :
    (get_bytes (put_bytes hash objects (codes "abc") 5).1 (put_bytes hash objects (codes "abc") 5).0
      ≡ ok (codes "abc"))
    × (get_bytes_verified hash
          (put_bytes hash objects (codes "abc") 5).1
          (put_bytes hash objects (codes "abc") 5).0
        ≡ ok (codes "abc"))
get_bytes-put_bytes_example = get_bytes-put_bytes hash objects (codes "abc") 5 abc-IsIntact

get_tree-put_tree_example :
    get_tree hash (put_tree hash objects source 5).1 (put_tree hash objects source 5).0 ≡ ok source
get_tree-put_tree_example =
    get_tree-put_tree hash objects source 5 source-IsTree length-source source-IsIntact
