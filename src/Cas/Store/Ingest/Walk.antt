-- ===== src/Cas/Store/Ingest/Walk.antt =====
-- crates/jet-cas/src/store.rs: the walk of an ingestion, whatever it meets.
use jetrun.Prelude.{
  ℕ, ok, err, List, [], ◌∷◌, ◌++◌, Result, Bytes, All, All-split, ◌≡◌, refl, inl, inr, ◌∙◌, sym, ap,
  subst, codes,
}
use jetrun.Cas.Name.{TreeError}
use jetrun.Cas.Name as EntryName
use jetrun.Cas.Name.Order.{bytes_cmp-eq}
use jetrun.Cas.Name.Valid.{new-same}
use jetrun.Cas.Tree.{Tree, Node, dir, insert}
use jetrun.Cas.Tree.Sorted.{All-insert}
use jetrun.Cas.Store.{Object, CasError, PathBuf, tree_digest}
use jetrun.Cas.Store.Put.{Durability, Staging, Reads, Shelf, io_of}
use jetrun.Cas.Store.Ingest.{
  Dir, unreadable, readable, Entries, no_entries, bad_entry, entry, File, unstatable, symlink_to,
  directory, regular, special, ingest_dir_inner, ingest_entries, ingest_entry, ingest_dir, named,
}
use jetrun.Cas.Store.Ingest.Kept.{
  IsStored, IsPresent, AllPresent, AllPresent-kept, Grows-trans, files_of, files_in, files_at,
  IsFileOf,
}
use jetrun.Cas.Store.Ingest.Listing.{
  Has, HasNames, Has-insert, Has-insert_kept, IsListing, IsListed, IsNodeOf,
}
use jetrun.Cas.Store.Ingest.Steps.{
  io_of-ok, Onward, Onward-map, onward, stays, read_only, put_file-Onward, put_tree-Onward,
}

-- The digest of the directory's manifest, in the store with all that its entries point to.
abbrev pub IsIngested : (Bytes → Bytes) → (Bytes → Bytes) → Dir → Bytes → List Object → Type 0
IsIngested blob_digest tree_hash d digest objects =
    (t : Tree) × (digest ≡ tree_digest tree_hash t)
    × IsListing blob_digest tree_hash d t
    × AllPresent objects t
    × IsStored objects digest

named-same : (raw name : Bytes) → named (EntryName.new raw) ≡ ok name → name ≡ raw
named-same raw name h = through (EntryName.new raw) refl h
  where
    through : (r : Result Bytes TreeError) → EntryName.new raw ≡ r → named r ≡ ok name → name ≡ raw
    through (ok m) e q = subst (λ k. k ≡ raw) (ok-same q) (new-same raw m e)
      where
        ok-same : ◌≡◌ {A = Result Bytes CasError} (ok m) (ok name) → m ≡ name
        ok-same q = cc
    through (err e) p q = cc

module _ (hex_encode : Bytes → Bytes) (root : PathBuf) (durability : Durability) (now : ℕ)
    (blob_digest tree_hash : Bytes → Bytes) where
  module _ (P : Reads → Type 0) where
    abbrev pub Goes :
        {A : Type 0} → Shelf → (A → List Object → Type 0) → Result A CasError × Shelf → Type 0
    Goes s Q r = Onward blob_digest tree_hash P s Q r

    abbrev Full : Dir → Tree → List Object → Type 0
    Full d t objects = AllPresent objects t × IsListing blob_digest tree_hash d t

    abbrev Placed : File → Node → List Object → Type 0
    Placed f node objects = IsPresent objects node × IsNodeOf blob_digest tree_hash f node

    abbrev Listed : Entries → Bytes × Node → Type 0
    Listed entries e = IsListed blob_digest tree_hash entries e

    -- The manifest after some of all the entries: what is in it is of them, these have their names in it,
    -- and so has what was there.
    abbrev Gone : Entries → Entries → Tree → Tree → List Object → Type 0
    Gone whole entries acc t objects =
        AllPresent objects t
        × All (Listed whole) t
        × HasNames entries t
        × ((name : Bytes) → Has name acc → Has name t)

    mutual
      unfolding ingest_dir_inner ingest_entries ingest_entry files_of files_in files_at IsListing
          IsListed IsNodeOf

      ingest_dir_inner-Onward :
          (d : Dir) (path : PathBuf) (s : Shelf)
          → All P (files_of d)
          → Goes s
              (Full d)
              (ingest_dir_inner hex_encode root durability now blob_digest tree_hash d path s)
      ingest_dir_inner-Onward (unreadable e) path s h = stays blob_digest tree_hash P s
      ingest_dir_inner-Onward (readable entries) path s h =
          Onward-map blob_digest tree_hash P s s (Gone entries entries []) (Full (readable entries))
            (stays blob_digest tree_hash P s)
            (λ t s1 _ (present, listed, names, _). (present, (listed, names))) _
            (ingest_entries-Onward entries entries path [] s (λ e l. l) h tt tt)

      ingest_entries-Onward :
          (whole entries : Entries) (path : PathBuf) (acc : Tree) (s : Shelf)
          → ((e : Bytes × Node) → Listed entries e → Listed whole e)
          → All P (files_in entries)
          → AllPresent s.objects acc
          → All (Listed whole) acc
          → Goes s (Gone whole entries acc) (
              ingest_entries hex_encode root durability now blob_digest tree_hash entries path acc
                s)
      ingest_entries-Onward whole no_entries path acc s f h a l =
          (stays blob_digest tree_hash P s, (a, l, tt, λ name m. m))
      ingest_entries-Onward whole (bad_entry e) path acc s f h a l = stays blob_digest tree_hash P s
      ingest_entries-Onward whole (entry raw found rest) path acc s f h a l =
          let (here, there) = All-split P (files_at found) (files_in rest) h in
          onward blob_digest tree_hash P s (λ u _. _ ≡ _) (Gone whole (entry raw found rest) acc) _
            _ (read_only blob_digest tree_hash P s _)
            λ _ s1 g1 _.
              onward blob_digest tree_hash P s1 (λ name _. named (EntryName.new raw) ≡ ok name)
                (Gone whole (entry raw found rest) acc) _ _
                (read_only blob_digest tree_hash P s1 (named (EntryName.new raw)))
                λ name s2 g2 q.
                  onward blob_digest tree_hash P s2 (Placed found)
                    (Gone whole (entry raw found rest) acc) _ _
                    (ingest_entry-Onward found (path ++ (raw ∷ [])) s2 here)
                    λ node s3 g3 (p, n).
                      let same = named-same raw name q in
                      Onward-map blob_digest tree_hash P s3 s3
                        (Gone whole rest (insert name node acc).0)
                        (Gone whole (entry raw found rest) acc) (stays blob_digest tree_hash P s3)
                        (λ t s4 _ (present, listed, names, earlier). (
                          present,
                          listed,
                          (
                            subst (λ k. Has k t) same (earlier name (Has-insert name node acc)),
                            names,
                          ),
                          λ k m. earlier k (Has-insert_kept k name node acc m),
                        ))
                        _
                        (ingest_entries-Onward whole rest path (insert name node acc).0 s3
                          (λ e m. f e (inr m)) there
                          (All-insert (λ e. IsPresent s3.objects e.1) name node acc (λ k e. p) p
                            (AllPresent-kept blob_digest tree_hash P
                              (Grows-trans blob_digest tree_hash P g1
                                (Grows-trans blob_digest tree_hash P g2 g3))
                              acc a))
                          (All-insert (Listed whole) name node acc
                            (λ k e. f (k, node) (inl (sym (bytes_cmp-eq name k e) ∙ same, n)))
                            (f (name, node) (inl (same, n))) l))

      ingest_entry-Onward :
          (f : File) (path : PathBuf) (s : Shelf)
          → All P (files_at f)
          → Goes s
              (Placed f)
              (ingest_entry hex_encode root durability now blob_digest tree_hash f path s)
      ingest_entry-Onward (unstatable e) path s h = stays blob_digest tree_hash P s
      ingest_entry-Onward (symlink_to link) path s h =
          onward blob_digest tree_hash P s
            (λ target _. io_of (codes "read_link") path link ≡ ok target) (Placed (symlink_to link))
            _ _ (read_only blob_digest tree_hash P s (io_of (codes "read_link") path link))
            λ target s1 _ q.
              onward blob_digest tree_hash P s1 (λ u _. _ ≡ _) (Placed (symlink_to link)) _ _
                (read_only blob_digest tree_hash P s1 _)
                λ _ s2 _ _. (
                  stays blob_digest tree_hash P s2,
                  (tt, (target, io_of-ok _ path link target q, refl)),
                )
      ingest_entry-Onward (directory d staging) path s h =
          onward blob_digest tree_hash P s (Full d) (Placed (directory d staging)) _ _
            (ingest_dir_inner-Onward d path s h)
            λ t s1 _ (_, listing).
              onward blob_digest tree_hash P s1
                (λ digest objects. (digest ≡ tree_digest tree_hash t) × IsStored objects digest)
                (Placed (directory d staging)) _ _
                (put_tree-Onward blob_digest tree_hash P hex_encode root durability now staging t
                  s1)
                λ digest s2 _ (e, p).
                  (stays blob_digest tree_hash P s2, (p, (t, ap dir e, listing)))
      ingest_entry-Onward (regular reads executable) path s h =
          onward blob_digest tree_hash P s
            (λ a objects. IsFileOf blob_digest reads a × IsStored objects a.0)
            (Placed (regular reads executable)) _ _
            (put_file-Onward blob_digest tree_hash P hex_encode root durability now reads path s
              (h.0))
            λ a s1 _ (of, p). (stays blob_digest tree_hash P s1, (p, (a, of, refl)))
      ingest_entry-Onward special path s h = stays blob_digest tree_hash P s

    pub ingest_dir-Onward :
        (d : Dir) (staging : Staging) (path : PathBuf) (s : Shelf)
        → All P (files_of d)
        → Goes s
            (IsIngested blob_digest tree_hash d)
            (ingest_dir hex_encode root durability now blob_digest tree_hash d staging path s)
    unfolding ingest_dir
    ingest_dir-Onward d staging path s h =
        onward blob_digest tree_hash P s (Full d) (IsIngested blob_digest tree_hash d) _ _
          (ingest_dir_inner-Onward d path s h)
          λ t s1 _ (full, listing).
            Onward-map blob_digest tree_hash P s1 s1
              (λ digest objects. (digest ≡ tree_digest tree_hash t) × IsStored objects digest)
              (IsIngested blob_digest tree_hash d) (stays blob_digest tree_hash P s1)
              (λ digest s2 g (e, stored).
                (t, e, listing, AllPresent-kept blob_digest tree_hash P g t full, stored))
              _
              (put_tree-Onward blob_digest tree_hash P hex_encode root durability now staging t s1)
