-- ===== src/Cas/Store/Put.antt =====
-- crates/jet-cas/src/store.rs: an object written to the staging area and committed, and a file put into
-- the store. `Staging` says how the system calls end, and `Reads` what each read of a file gives: the
-- file may change between them, so that what is hashed and what is placed are two things.
use jetrun.Prelude.{
  ℕ, ◌^◌, Bool, not, Option, none, some, List, [], ◌∷◌, ◌++◌, leb, if◌then◌else◌, Result, ok, err,
  refuse_if, Bytes, codes,
}
use jetrun.Prelude.Stateful.{Run, ◌>>=◌, ◌>>◌, pure, of_result}
use jetrun.Core.Digest.{fanout, to_hex}
use jetrun.Cas.Tree.{Tree, encode}
use jetrun.Cas.Link.{Errno, private_inode, LinkMode, Capabilities, Place, Calls, Slot}
use jetrun.Cas.Link
use jetrun.Cas.Store.{Object, CasError, PathBuf, io_error, not_a_file, has, put, tree_digest}

-- `SMALL_FILE_LIMIT`
abbrev pub small_file_limit : ℕ
small_file_limit = 2 ^ 20

pub data Durability : Type 0 where
  relaxed synced : Durability

-- How the calls on the staging file and the rename end.
pub record Staging : Type 0 where
  pub create_file : Option Errno
  pub write_all : Option Errno
  pub sync_all : Option Errno
  pub metadata : Option Errno
  pub set_permissions : Option Errno
  pub create_dir_all : Option Errno
  pub rename : Option Errno

-- A file as `put_file` meets it: whether it is a regular file and its length, its contents when it is
-- read whole, and in chunks; what stands at the staging path, how the placing ends, and what a clone or
-- a copy finds; what the plain copy finds.
pub record Reads : Type 0 where
  pub stat : Result (Bool × ℕ) Errno
  pub whole : Result Bytes Errno
  pub open_hashing : Option Errno
  pub chunks : List (Result Bytes Errno)
  pub staged : Place
  pub placing : Calls
  pub placed : Bytes
  pub open_ingest : Option Errno
  pub copied : Bytes
  pub staging : Staging

-- The objects, and the cached capability with the number of times it cost an ioctl.
pub record Shelf : Type 0 where
  pub objects : List Object
  pub caps : Capabilities
  pub ioctls : ℕ

-- `CasError::io` on the error of a call.
abbrev pub io_of : {A : Type 0} → Bytes → PathBuf → Result A Errno → Result A CasError
io_of op path (ok a) = ok a
io_of op path (err e) = err (io_error op path e)

abbrev pub io_check : Bytes → PathBuf → Option Errno → Run Shelf CasError (Unit {0})
io_check op path none s = (ok tt, s)
io_check op path (some e) s = (err (io_error op path e), s)

-- The loop over the chunks: an empty one is the end of the file. The hash of what was read bit by bit
-- is that of the whole.
abbrev pub behind : Bytes → Result Bytes Errno → Result Bytes Errno
behind bytes (ok rest) = ok (bytes ++ rest)
behind bytes (err e) = err e

unfoldable pub read_chunks : List (Result Bytes Errno) → Result Bytes Errno
read_chunks [] = ok []
read_chunks (err e ∷ chunks) = err e
read_chunks (ok [] ∷ chunks) = ok []
read_chunks (ok (b ∷ bytes) ∷ chunks) = behind (b ∷ bytes) (read_chunks chunks)

-- `hash_file`, up to the hash: what is hashed.
abbrev pub opened : PathBuf → Option Errno → Result Bytes CasError → Result Bytes CasError
opened path none read = read
opened path (some e) read = err (io_error (codes "open for hashing") path e)

unfoldable pub hashed_contents : Reads → PathBuf → ℕ → Result Bytes CasError
hashed_contents r path size =
    if leb size small_file_limit
    then io_of (codes "read for hashing") path r.whole
    else opened path r.open_hashing (io_of (codes "read for hashing") path (read_chunks r.chunks))

module _ (hex_encode : Bytes → Bytes) (root : PathBuf) where
  abbrev pub staging_path : Bytes → PathBuf
  staging_path d = root ++ (codes "tmp" ∷ (to_hex hex_encode d ++ codes ".staging") ∷ [])

  abbrev pub fanout_path : Bytes → PathBuf
  fanout_path d = root ++ (codes "objects" ∷ fanout d ∷ [])

  abbrev pub object_path : Bytes → PathBuf
  object_path d = root ++ (codes "objects" ∷ fanout d ∷ to_hex hex_encode d ∷ [])

module _ (hex_encode : Bytes → Bytes) (root : PathBuf) (durability : Durability) (now : ℕ) where
  -- `fsync`, if it is asked for.
  abbrev pub synced_file : Durability → PathBuf → Option Errno → Run Shelf CasError (Unit {0})
  synced_file relaxed path outcome = pure tt
  synced_file synced path outcome = io_check (codes "fsync staging file") path outcome

  abbrev pub committed : Bytes → Bytes → Run Shelf CasError (Unit {0})
  committed d bytes s = (ok tt, record s { objects = put s.objects d bytes now })

  -- The `fsync` of the directory after the rename may fail unnoticed.
  unfoldable pub seal_and_commit : Staging → Bytes → Bytes → Run Shelf CasError (Unit {0})
  seal_and_commit staging d bytes = do
    io_check (codes "stat staging file") (staging_path hex_encode root d) staging.metadata
    io_check (codes "seal staging file") (staging_path hex_encode root d) staging.set_permissions
    io_check (codes "create fanout dir") (fanout_path hex_encode root d) staging.create_dir_all
    io_check (codes "commit object") (object_path hex_encode root d) staging.rename
    committed d bytes

  unfoldable pub insert_staged : Staging → Bytes → Bytes → Run Shelf CasError (Unit {0})
  insert_staged staging d bytes = do
    io_check (codes "create staging file") (staging_path hex_encode root d) staging.create_file
    io_check (codes "write staging file") (staging_path hex_encode root d) staging.write_all
    synced_file durability (staging_path hex_encode root d) staging.sync_all
    seal_and_commit staging d bytes

  -- The answer of `link::materialize`: the capability that it notes is kept either way, and its error
  -- is dropped for a plain copy.
  unfoldable pub placed_or_copied :
      Reads → PathBuf → Bytes → Result LinkMode Errno × Slot → Run Shelf CasError (Unit {0})
  placed_or_copied r path d (ok mode, slot) s =
      seal_and_commit r.staging d r.placed (record s { caps = slot.caps; ioctls = slot.ioctls })
  placed_or_copied r path d (err e, slot) s =
      (do io_check (codes "open for ingest") path r.open_ingest; insert_staged r.staging d r.copied)
        (record s { caps = slot.caps; ioctls = slot.ioctls })

  unfoldable pub place_new : Reads → PathBuf → Bytes → Run Shelf CasError (Unit {0})
  place_new r path d s =
      if has s.objects d
      then (ok tt, s)
      else placed_or_copied r path d
          (Link.materialize r.placing private_inode
            (record { place = r.staged; caps = s.caps; ioctls = s.ioctls }))
          s

  module _ (blob_digest : Bytes → Bytes) where
    unfoldable pub put_file : Reads → PathBuf → Run Shelf CasError (Bytes × ℕ)
    put_file r path = do
      meta ← of_result (io_of (codes "stat for ingest") path r.stat)
      of_result (refuse_if (not meta.0) (not_a_file path))
      contents ← of_result (hashed_contents r path meta.1)
      place_new r path (blob_digest contents)
      pure (blob_digest contents, meta.1)

  module _ (tree_hash : Bytes → Bytes) where
    abbrev pub insert_new : Staging → Tree → Run Shelf CasError (Unit {0})
    insert_new staging t s =
        if has s.objects (tree_digest tree_hash t)
        then (ok tt, s)
        else insert_staged staging (tree_digest tree_hash t) (encode t) s

    unfoldable pub put_tree : Staging → Tree → Run Shelf CasError Bytes
    put_tree staging t = do insert_new staging t; pure (tree_digest tree_hash t)
