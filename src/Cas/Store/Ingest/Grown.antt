-- ===== src/Cas/Store/Ingest/Grown.antt =====
-- crates/jet-cas/src/store.rs: an ingestion, whatever it meets.
use jetrun.Prelude.{
  ℕ, ok, err, either, List, [], ◌∷◌, Result, Bytes, All, In, ◌≡◌, refl, ◌⊎◌, inl, inr, ◌∙◌, sym, ap,
}
use jetrun.Prelude.Stateful.{Outcome}
use jetrun.Cas.Store.{Object, CasError, PathBuf}
use jetrun.Cas.Store.Put.{Durability, Staging, Reads, Shelf}
use jetrun.Cas.Store.Ingest.{Dir, ingest_dir}
use jetrun.Cas.Store.Ingest.Kept.{files_of, IsHashed, IsNew, Grows}
use jetrun.Cas.Store.Ingest.Walk.{Goes, IsIngested, ingest_dir-Onward}

-- A file that does not change: what is placed or copied is what was hashed.
abbrev pub IsSteady : Reads → Type 0
IsSteady r =
    (contents : Bytes) → IsHashed r contents → (r.placed ≡ contents) × (r.copied ≡ contents)

-- An object under the digest of its contents.
abbrev pub IsNamed : (Bytes → Bytes) → (Bytes → Bytes) → Object → Type 0
IsNamed blob_digest tree_hash o = (o.digest ≡ blob_digest o.bytes) ⊎ (o.digest ≡ tree_hash o.bytes)

module _ (hex_encode : Bytes → Bytes) (root : PathBuf) (durability : Durability) (now : ℕ)
    (blob_digest tree_hash : Bytes → Bytes) where
  each-In : (rs rest : List Reads) → ((r : Reads) → In r rest → In r rs) → All (λ r. In r rs) rest
  each-In rs [] f = tt
  each-In rs (r ∷ rest) f = (f r (inl refl), each-In rs rest (λ q m. f q (inr m)))

  -- Whatever is in the directory and in the store, however its files change while they are read and the
  -- system calls end, and whether ingest_dir succeeds or fails: every object that could be read before
  -- is read as before. An object that is new is a manifest under the digest of its contents, or it is
  -- of a file of the directory: its name is the digest of what a hashing read of the file gave, and
  -- its contents are what the placing, or the plain copy, found. On success the digest is that of the
  -- directory's manifest: each of its entries is one of the directory, under its name, a link with its
  -- target, a subdirectory with the digest of its own manifest, or a file with the digest of what a
  -- hashing read of it gave, the size that it had and whether its owner may execute it; and every name
  -- of the directory is there. An object of this digest is in the store, and so is every blob and every
  -- manifest that the entries name.
  pub ingest_dir-Grows :
      (d : Dir) (staging : Staging) (path : PathBuf) (s : Shelf)
      → Outcome
          (λ digest after.
            Grows blob_digest tree_hash (λ r. In r (files_of d)) s.objects after.objects
            × IsIngested blob_digest tree_hash d digest after.objects)
          (λ e after. Grows blob_digest tree_hash (λ r. In r (files_of d)) s.objects after.objects)
          (ingest_dir hex_encode root durability now blob_digest tree_hash d staging path s)
  ingest_dir-Grows d staging path s =
      ingest_dir-Onward hex_encode root durability now blob_digest tree_hash
        (λ r. In r (files_of d)) d staging path s (each-In (files_of d) (files_of d) (λ r m. m))

  IsNew-IsNamed :
      (o : Object) → IsNew blob_digest tree_hash IsSteady o → IsNamed blob_digest tree_hash o
  IsNew-IsNamed o (inl q) = inr q
  IsNew-IsNamed o (inr (r, steady, (contents, h, d, inl b))) =
      inl (d ∙ ap blob_digest (sym ((steady contents h).0) ∙ sym b))
  IsNew-IsNamed o (inr (r, steady, (contents, h, d, inr b))) =
      inl (d ∙ ap blob_digest (sym ((steady contents h).1) ∙ sym b))

  -- When no file of the directory changes between the read that is hashed and the one that is stored:
  -- however the system calls end, and whether ingest_dir succeeds or fails, every object that is in the
  -- store afterwards and was not before is named by the digest of its contents.
  pub ingest_dir-IsNamed :
      (d : Dir) (staging : Staging) (path : PathBuf) (s : Shelf) (o : Object)
      → All IsSteady (files_of d)
      → In o
          (ingest_dir hex_encode root durability now blob_digest tree_hash d staging path
            s).1.objects
      → In o s.objects ⊎ IsNamed blob_digest tree_hash o
  ingest_dir-IsNamed d staging path s o steady m =
      old_or_named _
        (ingest_dir-Onward hex_encode root durability now blob_digest tree_hash IsSteady d staging
          path s steady)
        m
    where
      old_or_named :
          (r : Result Bytes CasError × Shelf)
          → Goes hex_encode root durability now blob_digest tree_hash IsSteady s
              (IsIngested blob_digest tree_hash d)
              r
          → In o r.1.objects
          → In o s.objects ⊎ IsNamed blob_digest tree_hash o
      old_or_named (ok digest, after) (g, p) m =
          either (g.added o m) inl (λ n. inr (IsNew-IsNamed o n))
      old_or_named (err e, after) g m = either (g.added o m) inl (λ n. inr (IsNew-IsNamed o n))
