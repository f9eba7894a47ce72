-- ===== src/Cas/Store/Materialize.antt =====
-- crates/jet-cas/src/store.rs: a manifest written out as a directory. `Kernel` says how each system
-- call ends, by its path; what the calls did is logged, the latest first, and kept on an error.
pub mod Confined
pub mod Tally
pub mod Counted
mod Tests
use jetrun.Prelude.{
  ℕ, zero, suc, ◌+◌, ◌%◌, ◌^◌, Bool, true, false, Option, none, some, List, [], ◌∷◌, ◌++◌, Result,
  ok, err, Bytes, codes, if◌then◌else◌,
}
use jetrun.Prelude.Stateful.{Run, ◌>>=◌, ◌>>◌, pure, fail}
use jetrun.Cas.Tree.{Tree, Node, file, dir, symlink}
use jetrun.Cas.Link.{
  Errno, Intent, overlay_lower, private_inode, LinkMode, reflink, hardlink, copy, Capabilities,
  Place, Calls, Slot,
}
use jetrun.Cas.Link
use jetrun.Cas.Store.{
  Object, CasError, PathBuf, io_error, destination_exists, tree_too_deep, missing_object, has,
  get_tree,
}

abbrev pub max_depth : ℕ
max_depth = 128

-- Addition on `u64`.
abbrev pub add64 : ℕ → ℕ → ℕ
add64 a b = (a + b) % 2 ^ 64

pub record MaterializeStats : Type 0 where
  pub reflinked : ℕ
  pub hardlinked : ℕ
  pub copied : ℕ
  pub dirs : ℕ
  pub symlinks : ℕ
  pub bytes : ℕ

abbrev pub no_stats : MaterializeStats
no_stats = record { reflinked = 0; hardlinked = 0; copied = 0; dirs = 0; symlinks = 0; bytes = 0 }

abbrev pub files : MaterializeStats → ℕ
files stats = add64 (add64 stats.reflinked stats.hardlinked) stats.copied

abbrev pub count_mode : LinkMode → MaterializeStats → MaterializeStats
count_mode reflink stats = record stats { reflinked = add64 stats.reflinked 1 }
count_mode hardlink stats = record stats { hardlinked = add64 stats.hardlinked 1 }
count_mode copy stats = record stats { copied = add64 stats.copied 1 }

abbrev pub record_file : LinkMode → ℕ → MaterializeStats → MaterializeStats
record_file mode size stats =
    let counted = count_mode mode stats in record counted { bytes = add64 counted.bytes size }

-- A directory made, a file of this size placed and whether it is executable, what a failed placement
-- left, a mode set on the inode at a place, and a symbolic link made.
pub data Effect : Type 0 where
  made_dir : PathBuf → Effect
  placed : PathBuf → Bytes → ℕ → Bool → LinkMode → Place → Effect
  left : PathBuf → Place → Effect
  chmod : PathBuf → ℕ → Place → Effect
  made_symlink : PathBuf → Bytes → Effect

pub record World : Type 0 where
  pub caps : Capabilities
  pub ioctls : ℕ
  pub stats : MaterializeStats
  pub log : List Effect

pub record Kernel : Type 0 where
  pub exists : PathBuf → Bool
  pub create_dir : PathBuf → Option Errno
  pub before : PathBuf → Place
  pub calls : PathBuf → Calls
  pub metadata : PathBuf → Option Errno
  pub set_permissions : PathBuf → Option Errno
  pub symlink_call : PathBuf → Option Errno

-- `CasError::io` on the error of a call; the change is made on success.
abbrev pub checked :
    Option Errno → Bytes → PathBuf → (World → World) → Run World CasError (Unit {0})
checked none op path change w = (ok tt, change w)
checked (some e) op path change w = (err (io_error op path e), w)

abbrev pub unchanged : World → World
unchanged w = w

abbrev pub lift : {A : Type 0} → Result A CasError → Run World CasError A
lift r w = (r, w)

abbrev pub refuse_unless : Bool → CasError → Run World CasError (Unit {0})
refuse_unless true e w = (ok tt, w)
refuse_unless false e w = (err e, w)

abbrev pub dir_made : PathBuf → World → World
dir_made dest w = record w {
  stats = record (w.stats) { dirs = add64 w.stats.dirs 1 };
  log = made_dir dest ∷ w.log;
}

abbrev pub symlink_made : PathBuf → Bytes → World → World
symlink_made child target w = record w {
  stats = record (w.stats) { symlinks = add64 w.stats.symlinks 1 };
  log = made_symlink child target ∷ w.log;
}

abbrev pub mode_set : PathBuf → ℕ → Place → World → World
mode_set child mode place w = record w { log = chmod child mode place ∷ w.log }

-- The mode of a file that does not share the object's inode, in octal 644, 755, 444 and 555.
unfoldable pub want : Intent → Bool → ℕ
want private_inode false = 420
want private_inode true = 493
want overlay_lower false = 292
want overlay_lower true = 365

-- An executable entry gets an inode of its own.
abbrev pub place_of : Intent → Bool → Intent
place_of intent executable = if executable then private_inode else intent

-- The answer of `link::materialize`, recorded.
unfoldable pub filed :
    PathBuf
    → Bytes
    → ℕ
    → Bool
    → Result LinkMode Errno × Slot
    → World
    → Result (LinkMode × Place) CasError × World
filed child digest size executable (ok mode, s) w = (
  ok (mode, s.place),
  record w {
    caps = s.caps;
    ioctls = s.ioctls;
    stats = record_file mode size w.stats;
    log = placed child digest size executable mode s.place ∷ w.log;
  },
)
filed child digest size executable (err e, s) w = (
  err (io_error (codes "materialize file") child e),
  record w { caps = s.caps; ioctls = s.ioctls; log = left child s.place ∷ w.log },
)

abbrev pub started : Capabilities → ℕ → World
started caps ioctls = record { caps = caps; ioctls = ioctls; stats = no_stats; log = [] }

abbrev pub stats_of : Result (Unit {0}) CasError × World → Result MaterializeStats CasError × World
stats_of (ok done, w) = (ok w.stats, w)
stats_of (err e, w) = (err e, w)

module _ (tree_hash : Bytes → Bytes) (objects : List Object) (kernel : Kernel)
    (intent : Intent) where
  unfoldable pub place_file : PathBuf → Bytes → ℕ → Bool → Run World CasError (LinkMode × Place)
  place_file child digest size executable w =
      filed child digest size executable
        (Link.materialize (kernel.calls child) (place_of intent executable)
          (record { place = kernel.before child; caps = w.caps; ioctls = w.ioctls }))
        w

  unfoldable pub own_mode : PathBuf → Bool → Place → Run World CasError (Unit {0})
  own_mode child executable place = do
    checked (kernel.metadata child) (codes "stat for chmod") child unchanged
    checked (kernel.set_permissions child) (codes "chmod") child
        (mode_set child (want intent executable) place)

  -- The mode is set, unless the inode is the object's.
  unfoldable pub set_mode : PathBuf → Bool → LinkMode × Place → Run World CasError (Unit {0})
  set_mode child executable (hardlink, place) w = (ok tt, w)
  set_mode child executable (reflink, place) w = own_mode child executable place w
  set_mode child executable (copy, place) w = own_mode child executable place w

  unfoldable pub materialize_file : PathBuf → Bytes → ℕ → Bool → Run World CasError (Unit {0})
  materialize_file child digest size executable = do
    refuse_unless (has objects digest) (missing_object digest)
    answer ← place_file child digest size executable
    set_mode child executable answer

  unfoldable pub materialize_node :
      (Bytes → PathBuf → Run World CasError (Unit {0}))
      → PathBuf
      → Node
      → Run World CasError (Unit {0})
  materialize_node recurse child (file digest size executable) =
      materialize_file child digest size executable
  materialize_node recurse child (dir digest) = recurse digest child
  materialize_node recurse child (symlink target) =
      checked (kernel.symlink_call child) (codes "symlink") child (symlink_made child target)

  -- The loop over a manifest's entries.
  unfoldable pub materialize_entries :
      (Bytes → PathBuf → Run World CasError (Unit {0}))
      → PathBuf
      → Tree
      → Run World CasError (Unit {0})
  materialize_entries recurse dest [] = pure tt
  materialize_entries recurse dest ((name, node) ∷ es) = do
    materialize_node recurse (dest ++ (name ∷ [])) node
    materialize_entries recurse dest es

  -- `levels` is how many more levels may be opened, 129 less the depth.
  unfoldable pub materialize_into : ℕ → Bytes → PathBuf → Run World CasError (Unit {0})
  materialize_into zero d dest = fail (tree_too_deep max_depth)
  materialize_into (suc levels) d dest = do
    checked (kernel.create_dir dest) (codes "create dir") dest (dir_made dest)
    tree ← lift (get_tree tree_hash objects d)
    materialize_entries (materialize_into levels) dest tree

  unfoldable pub materialize_tree :
      Bytes → PathBuf → Capabilities → ℕ → Result MaterializeStats CasError × World
  materialize_tree d dest caps ioctls =
      if kernel.exists dest
      then (err (destination_exists dest), started caps ioctls)
      else stats_of (materialize_into (max_depth + 1) d dest (started caps ioctls))
