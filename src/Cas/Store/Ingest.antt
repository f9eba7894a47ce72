-- ===== src/Cas/Store/Ingest.antt =====
-- crates/jet-cas/src/store.rs: a directory taken into the store. The directory is its entries in the
-- order in which `read_dir` gives them, with names and targets as the system has them, which need not
-- be texts, and with the errors of reading it where they arise. A file is what its reads give. The
-- objects inserted before an error stay.
pub mod Kept
pub mod Listing
pub mod Steps
pub mod Walk
pub mod Grown
mod Tests
use jetrun.Prelude.{ℕ, not, Bool, List, [], ◌∷◌, ◌++◌, Result, ok, err, refuse_if, Bytes, codes}
use jetrun.Prelude.Stateful.{Run, ◌>>=◌, ◌>>◌, pure, fail, of_result}
use jetrun.Cas.Name.{TreeError, is_utf8}
use jetrun.Cas.Name as EntryName
use jetrun.Cas.Tree.{Tree, Node, file, dir, symlink, insert}
use jetrun.Cas.Link.{Errno}
use jetrun.Cas.Store.{CasError, PathBuf, bad_tree, io_error, non_utf8_name, unsupported_file_type}
use jetrun.Cas.Store.Put.{Durability, Staging, Reads, Shelf, io_of, put_file, put_tree}

mutual
  pub data Dir : Type 0 where
    unreadable : Errno → Dir
    readable : Entries → Dir

  pub data Entries : Type 0 where
    no_entries : Entries
    bad_entry : Errno → Entries
    entry : Bytes → File → Entries → Entries

  -- A symbolic link, a directory with how its manifest is staged, a regular file with whether its owner
  -- may execute it, and anything else.
  pub data File : Type 0 where
    unstatable : Errno → File
    symlink_to : Result Bytes Errno → File
    directory : Dir → Staging → File
    regular : Reads → Bool → File
    special : File

-- `EntryName::new`, with `?`
abbrev pub named : Result Bytes TreeError → Result Bytes CasError
named (ok name) = ok name
named (err e) = err (bad_tree e)

module _ (hex_encode : Bytes → Bytes) (root : PathBuf) (durability : Durability) (now : ℕ)
    (blob_digest tree_hash : Bytes → Bytes) where
  unfoldable mutual
    pub ingest_dir_inner : Dir → PathBuf → Run Shelf CasError Tree
    ingest_dir_inner (unreadable e) path = fail (io_error (codes "read_dir") path e)
    ingest_dir_inner (readable entries) path = ingest_entries entries path []

    pub ingest_entries : Entries → PathBuf → Tree → Run Shelf CasError Tree
    ingest_entries no_entries path tree = pure tree
    ingest_entries (bad_entry e) path tree = fail (io_error (codes "read_dir entry") path e)
    ingest_entries (entry raw found rest) path tree = do
      of_result (refuse_if (not (is_utf8 raw)) (non_utf8_name (path ++ (raw ∷ []))))
      name ← of_result (named (EntryName.new raw))
      node ← ingest_entry found (path ++ (raw ∷ []))
      ingest_entries rest path (insert name node tree).0

    pub ingest_entry : File → PathBuf → Run Shelf CasError Node
    ingest_entry (unstatable e) path = fail (io_error (codes "stat entry") path e)
    ingest_entry (symlink_to link) path = do
      target ← of_result (io_of (codes "read_link") path link)
      of_result (refuse_if (not (is_utf8 target)) (non_utf8_name path))
      pure (symlink target)
    ingest_entry (directory d staging) path = do
      sub ← ingest_dir_inner d path
      digest ← put_tree hex_encode root durability now tree_hash staging sub
      pure (dir digest)
    ingest_entry (regular reads executable) path = do
      answer ← put_file hex_encode root durability now blob_digest reads path
      pure (file answer.0 answer.1 executable)
    ingest_entry special path = fail (unsupported_file_type path)

  unfoldable pub ingest_dir : Dir → Staging → PathBuf → Run Shelf CasError Bytes
  ingest_dir d staging path = do
    tree ← ingest_dir_inner d path
    put_tree hex_encode root durability now tree_hash staging tree
