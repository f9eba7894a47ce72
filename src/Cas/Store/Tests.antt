-- ===== src/Cas/Store/Tests.antt =====
-- crates/jet-cas/src/store.rs: collections of small stores. The hash of a manifest is 32 times its
-- length, which tells the manifests here apart.
use jetrun.Cas.Store.Fuel.{stored}
use jetrun.Cas.Store.Reach.{AreApart}
use jetrun.Cas.Store.Sweep.{IsCollected, gc-IsCollected}
use jetrun.Prelude.{
  sym, ◌∙◌, subst, ◌≢◌, inl, inr, In, Result, >>=-eq-ok, ok, ℕ, ◌≡◌, refl, false, some, List, [],
  ◌∷◌, any, length, replicate, Bytes, codes, bytes_eq,
}
use jetrun.Cas.Name as EntryName
use jetrun.Cas.Name.{bytes_cmp, is_utf8, utf8_from, next_byte, lead_byte, is_empty}
use jetrun.Cas.Tree.{
  Tree, file, dir, insert, encode, encode_entries, encode_entry, encode_node, tag, decode,
  decode_entries, decode_entry, decode_node, take_bytes, u8, u16, u32, u64, remaining, is_exhausted,
  digest_len, blob_digests, subtree_digests,
}
use jetrun.Cas.Store.{
  Object, get_bytes, get_tree, mark, reversed, entries_in, sweep, gc, CasError, GcStats,
}

program : Unit {0}
unfolding insert encode encode_entries encode_entry encode_node tag decode decode_entries
    decode_entry decode_node take_bytes u8 u16 u32 u64 remaining is_exhausted bytes_cmp is_utf8
    utf8_from next_byte lead_byte is_empty EntryName.contains EntryName.new bytes_eq any
    blob_digests subtree_digests get_bytes get_tree mark reversed entries_in sweep gc
program = tt

abbrev digest : ℕ → Bytes
digest n = replicate digest_len n

abbrev hash : Bytes → Bytes
hash bytes = digest (length bytes)

abbrev object : Bytes → Bytes → Object
object d bytes = record { digest = d; bytes = bytes; modified = 0 }

abbrev source : Tree
source = (codes "main.rs", file (digest 200) 9 false) ∷ []

abbrev root : Tree
root = (codes "src", dir (hash (encode source))) ∷ []

abbrev objects : List Object
objects =
    object (hash (encode source)) (encode source)
    ∷ object (hash (encode root)) (encode root)
    ∷ object (digest 200) (codes "fn main()")
    ∷ object (digest 201) (codes "garbage")
    ∷ []

-- What the root reaches is kept, and the rest deleted.
collected :
    gc hash objects (hash (encode root) ∷ []) 10 5
    ≡ some (
      record { live = 3; deleted = 1; bytes_freed = 7; spared_young = 0 },
      object (hash (encode source)) (encode source)
          ∷ object (hash (encode root)) (encode root)
          ∷ object (digest 200) (codes "fn main()")
          ∷ [],
    )
unfolding program
collected = refl

-- A root that lists one manifest both as a directory and as a file: the manifest is marked as a blob,
-- is not visited, and what it lists is deleted.
abbrev mixed : Tree
mixed =
    (codes "backup", file (hash (encode source)) 9 false)
    ∷ (codes "src", dir (hash (encode source)))
    ∷ []

abbrev mixed_objects : List Object
mixed_objects =
    object (hash (encode source)) (encode source)
    ∷ object (hash (encode mixed)) (encode mixed)
    ∷ object (digest 200) (codes "fn main()")
    ∷ []

mixed_loses :
    gc hash mixed_objects (hash (encode mixed) ∷ []) 10 5
    ≡ some (
      record { live = 2; deleted = 1; bytes_freed = 9; spared_young = 0 },
      object (hash (encode source)) (encode source)
          ∷ object (hash (encode mixed)) (encode mixed)
          ∷ [],
    )
unfolding program
mixed_loses = refl

abbrev small : List Object
small =
    object (hash (encode source)) (encode source)
    ∷ object (digest 200) (codes "fn main()")
    ∷ object (digest 201) (codes "garbage")
    ∷ []

source_read : get_tree hash small (hash (encode source)) ≡ ok source
unfolding program
source_read = refl

blob_unread : (t : Tree) → get_tree hash small (digest 200) ≢ ok t
unfolding program
blob_unread t h = cc

garbage_unread : (t : Tree) → get_tree hash small (digest 201) ≢ ok t
unfolding program
garbage_unread t h = cc

one_blob : (b : Bytes) → In b (blob_digests source) → b ≡ digest 200
unfolding program
one_blob b (inl q) = q
one_blob b (inr m) = absurd m

ok-injective : (a b : Tree) → ◌≡◌ {A = Result Tree CasError} (ok a) (ok b) → a ≡ b
ok-injective a b h = cc

-- The only manifest of the small store is the one it holds.
small_tree : (d : Bytes) (t : Tree) → get_tree hash small d ≡ ok t → t ≡ source
unfolding get_tree
small_tree d t g =
    let (bytes, h, rest) = >>=-eq-ok (get_bytes small d) _ g in
    let (o, m, e) = stored hash small small d bytes h in
    by_object o m (subst (λ x. get_tree hash small x ≡ ok t) (sym e) g)
  where
    by_object : (o : Object) → In o small → get_tree hash small o.digest ≡ ok t → t ≡ source
    by_object o (inl q) k =
        ok-injective t source
          (sym (subst (λ o. get_tree hash small o.digest ≡ ok t) q k) ∙ source_read)
    by_object o (inr (inl q)) k =
        absurd (blob_unread t (subst (λ o. get_tree hash small o.digest ≡ ok t) q k))
    by_object o (inr (inr (inl q))) k =
        absurd (garbage_unread t (subst (λ o. get_tree hash small o.digest ≡ ok t) q k))
    by_object o (inr (inr (inr m))) k = absurd m

small-AreApart : AreApart hash small
small-AreApart d b t g m t' g' = blob_unread t' (
    subst (λ x. get_tree hash small x ≡ ok t')
      (one_blob b (subst (λ t. In b (blob_digests t)) (small_tree d t g) m)) g')

gc-IsCollected_example :
    (out : GcStats × List Object) × (gc hash small (hash (encode source) ∷ []) 10 5 ≡ some out)
    × IsCollected hash small (hash (encode source) ∷ []) 10 5 out
gc-IsCollected_example = gc-IsCollected hash small (hash (encode source) ∷ []) 10 5 small-AreApart
