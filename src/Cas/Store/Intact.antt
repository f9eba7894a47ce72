-- ===== src/Cas/Store/Intact.antt =====
-- crates/jet-cas/src/store.rs: what was put is what is read.
mod Tests
use jetrun.Prelude.{
  ℕ, ◌^◌, ◌<◌, ◌≡◌, refl, ap, ◌∙◌, inl, inr, true, List, [], ◌∷◌, Bool-cases, any, length, Bytes,
  bytes_eq, bytes_eq_refl, ok,
}
use jetrun.Cas.Tree.{Tree, encode}
use jetrun.Cas.Tree.RoundTrip.{IsTree, decode-encode_tree}
use jetrun.Cas.Store.{
  Object, has, get_bytes, put, put_bytes, get_bytes_verified, put_tree, get_tree, tree_digest,
}

-- An object of that name, if there is one, holds these bytes.
abbrev pub IsIntact : List Object → Bytes → Bytes → Type 0
IsIntact objects d bytes = (b : Bytes) → get_bytes objects d ≡ ok b → b ≡ bytes

pub has-get_bytes :
    (objects : List Object) (d : Bytes)
    → has objects d ≡ true
    → (b : Bytes) × (get_bytes objects d ≡ ok b)
unfolding has get_bytes any
has-get_bytes [] d h = cc
has-get_bytes (o ∷ objects) d h = elim (Bool-cases (bytes_eq o.digest d)) [
  | inl p ↦ (o.bytes, rw p refl)
  | inr p ↦ let (b, e) = has-get_bytes objects d (rw p at h) in (b, rw p e)
]

get_bytes-put :
    (objects : List Object) (d bytes : Bytes) (now : ℕ)
    → IsIntact objects d bytes
    → get_bytes (put objects d bytes now) d ≡ ok bytes
unfolding get_bytes
get_bytes-put objects d bytes now intact = elim (Bool-cases (has objects d)) [
  | inl p ↦ let (b, e) = has-get_bytes objects d p in rw p (e ∙ ap ok (intact b e))
  | inr p ↦ rw (p, bytes_eq_refl d) refl
]

-- When an object that already has the name of the bytes holds them: a blob that was put is read back,
-- by the read that verifies its digest too.
pub get_bytes-put_bytes :
    (blob_digest : Bytes → Bytes) (objects : List Object) (bytes : Bytes) (now : ℕ)
    → IsIntact objects (blob_digest bytes) bytes
    → (get_bytes
          (put_bytes blob_digest objects bytes now).1
          (put_bytes blob_digest objects bytes now).0
        ≡ ok bytes)
      × (get_bytes_verified blob_digest
            (put_bytes blob_digest objects bytes now).1
            (put_bytes blob_digest objects bytes now).0
          ≡ ok bytes)
unfolding put_bytes get_bytes_verified
get_bytes-put_bytes blob_digest objects bytes now intact =
    let read = get_bytes-put objects (blob_digest bytes) bytes now intact in
    (read, rw (read, bytes_eq_refl (blob_digest bytes)) refl)

-- When an object that already has the name of the manifest holds its encoding: a manifest whose names
-- are single path components of valid UTF-8 in their order, whose nodes fit their fields and whose
-- encoding fits in memory is read back after it was put.
pub get_tree-put_tree :
    (tree_hash : Bytes → Bytes) (objects : List Object) (t : Tree) (now : ℕ)
    → IsTree t
    → length (encode t) < 2 ^ 64
    → IsIntact objects (tree_digest tree_hash t) (encode t)
    → get_tree tree_hash (put_tree tree_hash objects t now).1 (put_tree tree_hash objects t now).0
      ≡ ok t
unfolding put_tree get_tree
get_tree-put_tree tree_hash objects t now v h intact =
    rw
      (
        get_bytes-put objects (tree_digest tree_hash t) (encode t) now intact,
        decode-encode_tree t v h,
        bytes_eq_refl (tree_digest tree_hash t),
      )
      refl
