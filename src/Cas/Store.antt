-- ===== src/Cas/Store.antt =====
-- crates/jet-cas/src/store.rs: the object store, and its collector's mark and sweep. The objects are a
-- list of named contents with the time at which each was written; the keyed BLAKE3 of `crate::hash` is
-- a parameter for each of its two contexts. I/O fails in `Materialize`, `Put` and `Ingest`; elsewhere an object may be missing.
pub mod Mark
pub mod Fuel
pub mod Reach
pub mod Sweep
pub mod Intact
pub mod Materialize
pub mod Put
pub mod Ingest
mod Tests
use jetrun.Prelude.{
  ℕ, zero, suc, ◌+◌, ◌-◌, Bool, true, false, not, Option, none, some, List, [], ◌∷◌, ltb,
  if◌then◌else◌, any, keep, length, Result, ◌>>=◌, ◌>>◌, refuse_if, Bytes, bytes_eq, ok, err,
}
use jetrun.Cas.Name.{TreeError}
use jetrun.Cas.Link.{Errno}
use jetrun.Cas.Tree.{Tree, decode, encode, blob_digests, subtree_digests}

pub record Object : Type 0 where
  pub digest : Bytes
  pub bytes : Bytes
  pub modified : ℕ

-- The components of a path, from the root on.
abbrev pub PathBuf : Type 0
PathBuf = List Bytes

pub data CasError : Type 0 where
  missing_object : Bytes → CasError
  corrupt : Bytes → Bytes → CasError
  bad_tree : TreeError → CasError
  io_error : Bytes → PathBuf → Errno → CasError
  not_a_file : PathBuf → CasError
  unsupported_file_type : PathBuf → CasError
  non_utf8_name : PathBuf → CasError
  destination_exists : PathBuf → CasError
  tree_too_deep : ℕ → CasError

pub record GcStats : Type 0 where
  pub live : ℕ
  pub deleted : ℕ
  pub bytes_freed : ℕ
  pub spared_young : ℕ

-- `contains`, of a set of digests.
abbrev pub contains : List Bytes → Bytes → Bool
contains ds d = any (bytes_eq d) ds

unfoldable pub has : List Object → Bytes → Bool
has objects d = any (λ o. bytes_eq o.digest d) objects

unfoldable pub missing : List Object → List Bytes → List Bytes
missing objects ds = keep (λ d. not (has objects d)) ds

unfoldable pub get_bytes : List Object → Bytes → Result Bytes CasError
get_bytes [] d = err (missing_object d)
get_bytes (o ∷ objects) d = if bytes_eq o.digest d then ok o.bytes else get_bytes objects d

-- `insert_staged` and the commit: the object appears under its digest.
abbrev pub put : List Object → Bytes → Bytes → ℕ → List Object
put objects d bytes now =
    if has objects d
    then objects
    else record { digest = d; bytes = bytes; modified = now } ∷ objects

-- `?` on the error of the decoder.
abbrev pub decoded : Result Tree TreeError → Result Tree CasError
decoded (ok t) = ok t
decoded (err e) = err (bad_tree e)

-- `HashSet::insert`
abbrev pub set_insert : Bytes → List Bytes → List Bytes
set_insert d ds = if contains ds d then ds else d ∷ ds

module _ (blob_digest : Bytes → Bytes) where
  unfoldable pub put_bytes : List Object → Bytes → ℕ → Bytes × List Object
  put_bytes objects bytes now = (blob_digest bytes, put objects (blob_digest bytes) bytes now)

  unfoldable pub get_bytes_verified : List Object → Bytes → Result Bytes CasError
  get_bytes_verified objects d = do
    bytes ← get_bytes objects d
    refuse_if (not (bytes_eq (blob_digest bytes) d)) (corrupt d (blob_digest bytes))
    ok bytes

module _ (tree_hash : Bytes → Bytes) where
  -- `Tree::digest`
  abbrev pub tree_digest : Tree → Bytes
  tree_digest t = tree_hash (encode t)

  unfoldable pub put_tree : List Object → Tree → ℕ → Bytes × List Object
  put_tree objects t now = (tree_digest t, put objects (tree_digest t) (encode t) now)

  unfoldable pub get_tree : List Object → Bytes → Result Tree CasError
  get_tree objects d = do
    bytes ← get_bytes objects d
    t ← decoded (decode bytes)
    refuse_if (not (bytes_eq (tree_digest t) d)) (corrupt d (tree_digest t))
    ok t

  -- The two inner loops of the mark phase: every blob is live, and every subtree that is not yet live
  -- is pushed. The top of the stack is the head of the list.
  abbrev pub mark_blobs : List Bytes → List Bytes → List Bytes
  mark_blobs [] live = live
  mark_blobs (b ∷ bs) live = mark_blobs bs (set_insert b live)

  abbrev pub push_subtrees : List Bytes → List Bytes → List Bytes → List Bytes
  push_subtrees [] live queue = queue
  push_subtrees (s ∷ ss) live queue =
      if contains live s then push_subtrees ss live queue else push_subtrees ss live (s ∷ queue)

  -- An undecodable object is a leaf.
  abbrev pub marked : Result Tree CasError → List Bytes → List Bytes
  marked (ok t) live = mark_blobs (blob_digests t) live
  marked (err e) live = live

  abbrev pub pushed : Result Tree CasError → List Bytes → List Bytes → List Bytes
  pushed (ok t) live queue = push_subtrees (subtree_digests t) live queue
  pushed (err e) live queue = queue

  -- The mark loop, on fuel.
  unfoldable pub mark : List Object → ℕ → List Bytes → List Bytes → Option (List Bytes)
  mark objects zero live queue = none
  mark objects (suc fuel) live [] = some live
  mark objects (suc fuel) live (d ∷ queue) = elim (contains live d) [
    | true ↦ mark objects fuel live queue
    | false ↦
        let tree = get_tree objects d in
        let now_live = marked tree (d ∷ live) in
        mark objects fuel now_live (pushed tree now_live queue)
  ]

  -- `Vec::pop` takes the last root first.
  unfoldable pub reversed : List Bytes → List Bytes → List Bytes
  reversed [] acc = acc
  reversed (d ∷ ds) acc = reversed ds (d ∷ acc)

-- The sweep: an object that is not live and old enough is unlinked.
abbrev pub is_young : ℕ → ℕ → Object → Bool
is_young now min_age o = ltb (now - o.modified) min_age

unfoldable pub sweep : List Bytes → ℕ → ℕ → GcStats → List Object → GcStats × List Object
sweep live now min_age stats [] = (stats, [])
sweep live now min_age stats (o ∷ objects) =
    if contains live o.digest
    then (let (s, rest) = sweep live now min_age stats objects in (s, o ∷ rest))
    else if is_young now min_age o
    then (let (s, rest) =
          sweep live now min_age (record stats { spared_young = stats.spared_young + 1 }) objects in
        (s, o ∷ rest))
    else sweep live now min_age
        (record stats {
          deleted = stats.deleted + 1;
          bytes_freed = stats.bytes_freed + length o.bytes;
        })
        objects

module _ (tree_hash : Bytes → Bytes) where
  -- Fuel for the mark loop: each root, and each entry of each tree of the store, is popped at most
  -- once.
  abbrev pub entries_of : Result Tree CasError → ℕ
  entries_of (ok t) = length (subtree_digests t)
  entries_of (err e) = 0

  unfoldable pub entries_in : List Object → List Object → ℕ
  entries_in objects [] = 0
  entries_in objects (o ∷ os) =
      entries_of (get_tree tree_hash objects o.digest) + entries_in objects os

  abbrev pub swept : List Object → ℕ → ℕ → Option (List Bytes) → Option (GcStats × List Object)
  swept objects now min_age none = none
  swept objects now min_age (some live) = some (
      sweep live now min_age
        (record { live = length live; deleted = 0; bytes_freed = 0; spared_young = 0 }) objects)

  unfoldable pub gc : List Object → List Bytes → ℕ → ℕ → Option (GcStats × List Object)
  gc objects roots now min_age = swept objects now min_age (
      mark tree_hash objects (length roots + entries_in objects objects + 1) []
        (reversed tree_hash roots []))
