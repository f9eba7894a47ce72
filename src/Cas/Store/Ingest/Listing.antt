-- ===== src/Cas/Store/Ingest/Listing.antt =====
-- crates/jet-cas/src/store.rs: the manifest of a directory, said without the walk.

use jetrun.Prelude.{ℕ, [], ◌∷◌, ok, Bytes, All, In, ◌≡◌, refl, ap, inl, inr, ◌⊎◌}
use jetrun.Cas.Name.Order.{bytes_cmp-eq}
use jetrun.Cas.Name.{bytes_cmp}
use jetrun.Cas.Tree.{Tree, Node, file, dir, symlink, insert}
use jetrun.Cas.Tree.Sorted.{Ordering-cases, insert_before, insert_here, insert_behind}
use jetrun.Cas.Store.{tree_digest}
use jetrun.Cas.Store.Ingest.{
  Dir, unreadable, readable, Entries, no_entries, bad_entry, entry, File, unstatable, symlink_to,
  directory, regular, special,
}
use jetrun.Cas.Store.Ingest.Kept.{IsFileOf}

-- A manifest has an entry of this name.
abbrev pub Has : Bytes → Tree → Type 0
Has name t = (node : Node) × In (name, node) t

-- Every entry of the directory has its name in the manifest.
abbrev pub HasNames : Entries → Tree → Type 0
HasNames no_entries t = Unit
HasNames (bad_entry e) t = Unit
HasNames (entry raw found rest) t = Has raw t × HasNames rest t

module _ (blob_digest tree_hash : Bytes → Bytes) where
  -- The manifest of a directory: each of its entries is one of the directory, under its name, and every
  -- name of the directory is there.
  unfoldable mutual
    pub IsListing : Dir → Tree → Type 0
    IsListing (unreadable e) t = ⊥
    IsListing (readable entries) t = All (IsListed entries) t × HasNames entries t

    pub IsListed : Entries → Bytes × Node → Type 0
    IsListed no_entries e = ⊥
    IsListed (bad_entry error) e = ⊥
    IsListed (entry raw found rest) e = ((e.0 ≡ raw) × IsNodeOf found e.1) ⊎ IsListed rest e

    pub IsNodeOf : File → Node → Type 0
    IsNodeOf (unstatable e) node = ⊥
    IsNodeOf (symlink_to link) node =
        (target : Bytes) × (link ≡ ok target) × (node ≡ symlink target)
    IsNodeOf (directory d staging) node =
        (t : Tree) × (node ≡ dir (tree_digest tree_hash t)) × IsListing d t
    IsNodeOf (regular reads executable) node =
        (a : Bytes × ℕ) × IsFileOf blob_digest reads a × (node ≡ file a.0 a.1 executable)
    IsNodeOf special node = ⊥

pub Has-insert : (name : Bytes) (node : Node) (t : Tree) → Has name (insert name node t).0
Has-insert name node [] = unfold insert in (node, inl refl)
Has-insert name node ((k, v) ∷ es) = elim (Ordering-cases (bytes_cmp name k)) [
  | inl e ↦ rw (insert_before name node k v es e) (node, inl refl)
  | inr (inl e) ↦
      rw (insert_here name node k v es e)
        (node, inl (ap (λ (x : Bytes). (x, node)) (bytes_cmp-eq name k e)))
  | inr (inr e) ↦
      let (n, m) = Has-insert name node es in rw (insert_behind name node k v es e) (n, inr m)
]

pub Has-insert_kept :
    (j name : Bytes) (node : Node) (t : Tree) → Has j t → Has j (insert name node t).0
Has-insert_kept j name node [] (n, m) = absurd m
Has-insert_kept j name node ((k, v) ∷ es) (n, inl m) = elim (Ordering-cases (bytes_cmp name k)) [
  | inl e ↦ rw (insert_before name node k v es e) (n, inr (inl m))
  | inr (inl e) ↦
      rw (insert_here name node k v es e) (node, inl (ap (λ (x : Bytes × Node). (x.0, node)) m))
  | inr (inr e) ↦ rw (insert_behind name node k v es e) (n, inl m)
]
Has-insert_kept j name node ((k, v) ∷ es) (n, inr m) = elim (Ordering-cases (bytes_cmp name k)) [
  | inl e ↦ rw (insert_before name node k v es e) (n, inr (inr m))
  | inr (inl e) ↦ rw (insert_here name node k v es e) (n, inr m)
  | inr (inr e) ↦
      let (n', m') = Has-insert_kept j name node es (n, m) in
      rw (insert_behind name node k v es e) (n', inr m')
]
