-- ===== src/Cas/Store/Ingest/Steps.antt =====
-- crates/jet-cas/src/store.rs: what each step of an ingestion does to the store.
use jetrun.Prelude.{
  ℕ, Option, none, some, List, leb, Result, ok, err, Bytes, codes, ◌≡◌, refl, inl, inr, Bool-cases,
}
use jetrun.Prelude.Stateful.{Run, Outcome, continue, continue-Ends, of_result}
use jetrun.Cas.Tree.{Tree, encode}
use jetrun.Cas.Link.{Errno, LinkMode, Slot}
use jetrun.Cas.Store.{Object, CasError, PathBuf, has, tree_digest}
use jetrun.Cas.Store.Intact.{has-get_bytes}
use jetrun.Cas.Store.Put.{
  Durability, relaxed, synced, Staging, Reads, Shelf, io_of, io_check, opened, read_chunks,
  hashed_contents, synced_file, seal_and_commit, insert_staged, placed_or_copied, place_new,
  put_file, insert_new, put_tree, small_file_limit,
}
use jetrun.Cas.Store.Ingest.Kept.{
  IsStored, IsHashed, IsFileOf, IsNew, Grows, Grows-refl, Grows-trans, put-Grows, put-IsStored,
}

pub io_of-ok :
    {A : Type 0} (op : Bytes) (path : PathBuf) (r : Result A Errno) (a : A)
    → io_of op path r ≡ ok a
    → r ≡ ok a
io_of-ok op path (ok b) a h = cc
io_of-ok op path (err e) a h = cc

-- Contents that were hashed were read.
hashed_contents-IsHashed :
    (r : Reads) (path : PathBuf) (size : ℕ) (contents : Bytes)
    → hashed_contents r path size ≡ ok contents
    → IsHashed r contents
unfolding hashed_contents
hashed_contents-IsHashed r path size contents h = elim (Bool-cases (leb size small_file_limit)) [
  | inl e ↦ inl (io_of-ok _ path r.whole contents (rw e at h))
  | inr e ↦ inr (chunked _ r.open_hashing (rw e at h))
]
  where
    chunked :
        (op : Bytes) (o : Option Errno)
        → opened path o (io_of op path (read_chunks r.chunks)) ≡ ok contents
        → read_chunks r.chunks ≡ ok contents
    chunked op none h = io_of-ok op path (read_chunks r.chunks) contents h
    chunked op (some e) h = cc

module _ (blob_digest tree_hash : Bytes → Bytes) (P : Reads → Type 0) where
  abbrev pub Grown : Shelf → Shelf → Type 0
  Grown s t = Grows blob_digest tree_hash P s.objects t.objects

  -- From a state onward: the store grows, and after a success P holds too.
  abbrev pub Onward :
      {A : Type 0} → Shelf → (A → List Object → Type 0) → Result A CasError × Shelf → Type 0
  Onward s Q r = Outcome (λ a t. Grown s t × Q a t.objects) (λ e t. Grown s t) r

  pub Onward-map :
      {A : Type 0} (s next : Shelf) (Q R : A → List Object → Type 0)
      → Grown s next
      → ((a : A) (t : Shelf) → Grown next t → Q a t.objects → R a t.objects)
      → (r : Result A CasError × Shelf) → Onward next Q r
      → Onward s R r
  Onward-map s next Q R g f (ok a, t) (h, q) = (Grows-trans blob_digest tree_hash P g h, f a t h q)
  Onward-map s next Q R g f (err e, t) h = Grows-trans blob_digest tree_hash P g h

  -- A step, and the rest from the state that it leaves.
  pub onward :
      {A B : Type 0} (s : Shelf) (Q : A → List Object → Type 0) (R : B → List Object → Type 0)
      (r : Result A CasError × Shelf) (f : A → Run Shelf CasError B)
      → Onward s Q r
      → ((a : A) (t : Shelf) → Grown s t → Q a t.objects → Onward t R (f a t))
      → Onward s R (continue r f)
  onward s Q R r f h k =
      continue-Ends (λ a t. Grown s t × Q a t.objects) (λ b t. Grown s t × R b t.objects)
        (λ e. Grown s) r f h (λ a t (g, q). Onward-map s t R R g (λ b u _ x. x) (f a t) (k a t g q))

  abbrev pub Nothing : {A : Type 0} → A → List Object → Type 0
  Nothing a objects = Unit

  pub stays : (s : Shelf) → Grown s s
  stays s = Grows-refl blob_digest tree_hash P s.objects

  pub read_only :
      {A : Type 0} (s : Shelf) (r : Result A CasError)
      → Onward s (λ a objects. r ≡ ok a) (of_result r s)
  read_only s (ok a) = (stays s, refl)
  read_only s (err e) = stays s

  io_check-Onward :
      (op : Bytes) (path : PathBuf) (o : Option Errno) (s : Shelf)
      → Onward s Nothing (io_check op path o s)
  io_check-Onward op path none s = (stays s, tt)
  io_check-Onward op path (some e) s = stays s

  module _ (hex_encode : Bytes → Bytes) (root : PathBuf) (durability : Durability) (now : ℕ) where
    -- An object that may be added under a name.
    abbrev pub IsFit : Bytes → Bytes → Type 0
    IsFit d bytes =
        IsNew blob_digest tree_hash P (record { digest = d; bytes = bytes; modified = now })

    abbrev pub Stores : Bytes → {A : Type 0} → A → List Object → Type 0
    Stores d a objects = IsStored objects d

    seal_and_commit-Onward :
        (staging : Staging) (d bytes : Bytes) (s : Shelf)
        → IsFit d bytes
        → Onward s (Stores d) (seal_and_commit hex_encode root durability now staging d bytes s)
    unfolding seal_and_commit
    seal_and_commit-Onward staging d bytes s fit =
        onward s Nothing (Stores d) _ _ (io_check-Onward _ _ staging.metadata s) λ _ s1 _ _.
          onward s1 Nothing (Stores d) _ _ (io_check-Onward _ _ staging.set_permissions s1)
            λ _ s2 _ _.
              onward s2 Nothing (Stores d) _ _ (io_check-Onward _ _ staging.create_dir_all s2)
                λ _ s3 _ _.
                  onward s3 Nothing (Stores d) _ _ (io_check-Onward _ _ staging.rename s3)
                    λ _ s4 _ _. (
                      put-Grows blob_digest tree_hash P s4.objects d bytes now fit,
                      put-IsStored blob_digest tree_hash P s4.objects d bytes now,
                    )

    synced_file-Onward :
        (how : Durability) (path : PathBuf) (o : Option Errno) (s : Shelf)
        → Onward s Nothing (synced_file hex_encode root durability now how path o s)
    synced_file-Onward relaxed path o s = (stays s, tt)
    synced_file-Onward synced path o s = io_check-Onward _ path o s

    insert_staged-Onward :
        (staging : Staging) (d bytes : Bytes) (s : Shelf)
        → IsFit d bytes
        → Onward s (Stores d) (insert_staged hex_encode root durability now staging d bytes s)
    unfolding insert_staged
    insert_staged-Onward staging d bytes s fit =
        onward s Nothing (Stores d) _ _ (io_check-Onward _ _ staging.create_file s) λ _ s1 _ _.
          onward s1 Nothing (Stores d) _ _ (io_check-Onward _ _ staging.write_all s1) λ _ s2 _ _.
            onward s2 Nothing (Stores d) _ _ (synced_file-Onward durability _ staging.sync_all s2)
              λ _ s3 _ _. seal_and_commit-Onward staging d bytes s3 fit

    placed_or_copied-Onward :
        (r : Reads) (path : PathBuf) (d : Bytes) (answer : Result LinkMode Errno × Slot) (s : Shelf)
        → IsFit d r.placed
        → IsFit d r.copied
        → Onward s (Stores d) (placed_or_copied hex_encode root durability now r path d answer s)
    unfolding placed_or_copied
    placed_or_copied-Onward r path d (ok mode, slot) s placed copied =
        seal_and_commit-Onward r.staging d r.placed _ placed
    placed_or_copied-Onward r path d (err e, slot) s placed copied =
        onward (record s { caps = slot.caps; ioctls = slot.ioctls }) Nothing (Stores d) _ _
          (io_check-Onward _ path r.open_ingest _)
          λ _ s1 _ _. insert_staged-Onward r.staging d r.copied s1 copied

    place_new-Onward :
        (r : Reads) (path : PathBuf) (d : Bytes) (s : Shelf)
        → IsFit d r.placed
        → IsFit d r.copied
        → Onward s (Stores d) (place_new hex_encode root durability now r path d s)
    unfolding place_new
    place_new-Onward r path d s placed copied = elim (Bool-cases (has s.objects d)) [
      | inl e ↦ rw e (stays s, has-get_bytes s.objects d e)
      | inr e ↦ rw e (placed_or_copied-Onward r path d _ s placed copied)
    ]

    abbrev Answered : Reads → Bytes × ℕ → List Object → Type 0
    Answered r a objects = IsFileOf blob_digest r a × IsStored objects a.0

    pub put_file-Onward :
        (r : Reads) (path : PathBuf) (s : Shelf)
        → P r
        → Onward s
            (λ a objects. IsFileOf blob_digest r a × IsStored objects a.0)
            (put_file hex_encode root durability now blob_digest r path s)
    unfolding put_file
    put_file-Onward r path s p =
        onward s (λ meta _. io_of (codes "stat for ingest") path r.stat ≡ ok meta) (Answered r) _ _
          (read_only s (io_of (codes "stat for ingest") path r.stat))
          λ meta s1 _ stated.
            onward s1 (λ a _. _ ≡ ok a) (Answered r) _ _ (read_only s1 _)
              λ _ s2 _ _.
                onward s2 (λ a _. hashed_contents r path meta.1 ≡ ok a) (Answered r) _ _
                  (read_only s2 (hashed_contents r path meta.1))
                  λ contents s3 _ e.
                    let hashed = hashed_contents-IsHashed r path meta.1 contents e in
                    onward s3 (Stores (blob_digest contents)) (Answered r) _ _
                      (place_new-Onward r path (blob_digest contents) s3
                        (inr (r, p, (contents, hashed, refl, inl refl)))
                        (inr (r, p, (contents, hashed, refl, inr refl))))
                      λ _ s4 _ stored. (
                        stays s4,
                        (
                          (contents, hashed, refl, (meta.0, io_of-ok _ path r.stat meta stated)),
                          stored,
                        ),
                      )

    insert_new-Onward :
        (staging : Staging) (t : Tree) (s : Shelf)
        → Onward s
            (Stores (tree_digest tree_hash t))
            (insert_new hex_encode root durability now tree_hash staging t s)
    insert_new-Onward staging t s = elim (Bool-cases (has s.objects (tree_digest tree_hash t))) [
      | inl e ↦ rw e (stays s, has-get_bytes s.objects _ e)
      | inr e ↦ rw e (insert_staged-Onward staging _ (encode t) s (inl refl))
    ]

    pub put_tree-Onward :
        (staging : Staging) (t : Tree) (s : Shelf)
        → Onward s
            (λ d objects. (d ≡ tree_digest tree_hash t) × IsStored objects d)
            (put_tree hex_encode root durability now tree_hash staging t s)
    unfolding put_tree
    put_tree-Onward staging t s =
        onward s (Stores (tree_digest tree_hash t))
          (λ d objects. (d ≡ tree_digest tree_hash t) × IsStored objects d) _ _
          (insert_new-Onward staging t s) λ _ s1 _ stored. (stays s1, (refl, stored))
