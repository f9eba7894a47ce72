-- ===== src/Cas/Store/Materialize/Counted.antt =====
-- crates/jet-cas/src/store.rs: the counters of `materialize_tree` and what it did.
use jetrun.Prelude.{
  ℕ, zero, suc, ◌+◌, Bool, true, false, Option, none, some, List, [], ◌∷◌, Result, ok, err, Bytes,
  refl,
}
use jetrun.Prelude.Stateful.{Run, Outcome, Keeps, >>=-Ends, if-either}
use jetrun.Cas.Tree.{Tree, Node, file, dir, symlink}
use jetrun.Cas.Link.{Errno, Intent, LinkMode, reflink, hardlink, copy, Place, Capabilities, Slot}
use jetrun.Cas.Store.{Object, CasError, PathBuf, has, get_tree}
use jetrun.Cas.Store.Materialize.{
  MaterializeStats, World, Kernel, checked, lift, refuse_unless, filed, started, stats_of,
  max_depth, place_file, own_mode, set_mode, materialize_file, materialize_node,
  materialize_entries, materialize_into, materialize_tree, unchanged,
}
use jetrun.Cas.Store.Materialize.Tally.{
  Agrees, chmod-Agrees, left-Agrees, placed-Agrees, dir_made-Agrees, symlink_made-Agrees,
}

abbrev Counted : World → Type 0
Counted w = Agrees w.stats w.log

checked-Counted :
    (o : Option Errno) (op : Bytes) (path : PathBuf) (change : World → World)
    → ((w : World) → Counted w → Counted (change w))
    → Keeps Counted (checked o op path change)
checked-Counted none op path change h w a = h w a
checked-Counted (some e) op path change h w a = a

filed-Counted :
    (child : PathBuf) (digest : Bytes) (size : ℕ) (executable : Bool)
    (r : Result LinkMode Errno × Slot)
    → Keeps Counted (filed child digest size executable r)
unfolding filed
filed-Counted child digest size executable (ok mode, s) w a =
    placed-Agrees child digest size executable mode s.place w.stats a
filed-Counted child digest size executable (err e, s) w a = left-Agrees child s.place a

refuse_unless-Counted : (b : Bool) (e : CasError) → Keeps Counted (refuse_unless b e)
refuse_unless-Counted true e w a = a
refuse_unless-Counted false e w a = a

lift-Counted : {A : Type 0} (r : Result A CasError) → Keeps Counted (lift r)
lift-Counted (ok t) w a = a
lift-Counted (err e) w a = a

module _ (tree_hash : Bytes → Bytes) (objects : List Object) (kernel : Kernel)
    (intent : Intent) where
  own_mode-Counted :
      (child : PathBuf) (executable : Bool) (place : Place)
      → Keeps Counted (own_mode tree_hash objects kernel intent child executable place)
  unfolding own_mode
  own_mode-Counted child executable place =
      >>=-Ends (λ a. Counted) (λ a. Counted) (λ e. Counted) _ _
        (checked-Counted (kernel.metadata child) _ child unchanged (λ w a. a))
        (λ done.
          checked-Counted (kernel.set_permissions child) _ child _
            (λ w a. chmod-Agrees child _ place a))

  set_mode-Counted :
      (child : PathBuf) (executable : Bool) (answer : LinkMode × Place)
      → Keeps Counted (set_mode tree_hash objects kernel intent child executable answer)
  unfolding set_mode
  set_mode-Counted child executable (hardlink, place) w a = a
  set_mode-Counted child executable (reflink, place) w a =
      own_mode-Counted child executable place w a
  set_mode-Counted child executable (copy, place) w a = own_mode-Counted child executable place w a

  place_file-Counted :
      (child : PathBuf) (digest : Bytes) (size : ℕ) (executable : Bool)
      → Keeps Counted (place_file tree_hash objects kernel intent child digest size executable)
  unfolding place_file
  place_file-Counted child digest size executable w = filed-Counted child digest size executable _ w

  materialize_file-Counted :
      (child : PathBuf) (digest : Bytes) (size : ℕ) (executable : Bool)
      → Keeps Counted
          (materialize_file tree_hash objects kernel intent child digest size executable)
  unfolding materialize_file
  materialize_file-Counted child digest size executable =
      >>=-Ends (λ a. Counted) (λ a. Counted) (λ e. Counted) _ _
        (refuse_unless-Counted (has objects digest) _)
        (λ done.
          >>=-Ends (λ a. Counted) (λ a. Counted) (λ e. Counted) _ _
            (place_file-Counted child digest size executable) (set_mode-Counted child executable))

  module _ (recurse : Bytes → PathBuf → Run World CasError (Unit {0}))
      (h : (d : Bytes) (path : PathBuf) → Keeps Counted (recurse d path)) where
    materialize_node-Counted :
        (child : PathBuf) (node : Node)
        → Keeps Counted (materialize_node tree_hash objects kernel intent recurse child node)
    unfolding materialize_node
    materialize_node-Counted child (file digest size executable) =
        materialize_file-Counted child digest size executable
    materialize_node-Counted child (dir digest) = h digest child
    materialize_node-Counted child (symlink target) =
        checked-Counted (kernel.symlink_call child) _ child _
          (λ w a. symlink_made-Agrees child target w.stats a)

    materialize_entries-Counted :
        (dest : PathBuf) (t : Tree)
        → Keeps Counted (materialize_entries tree_hash objects kernel intent recurse dest t)
    unfolding materialize_entries
    materialize_entries-Counted dest [] = λ w a. a
    materialize_entries-Counted dest ((name, node) ∷ es) =
        >>=-Ends (λ a. Counted) (λ a. Counted) (λ e. Counted) _ _ (materialize_node-Counted _ node)
          (λ done. materialize_entries-Counted dest es)

  materialize_into-Counted :
      (levels : ℕ) (d : Bytes) (path : PathBuf)
      → Keeps Counted (materialize_into tree_hash objects kernel intent levels d path)
  unfolding materialize_into
  materialize_into-Counted zero d dest = λ w a. a
  materialize_into-Counted (suc levels) d dest =
      >>=-Ends (λ a. Counted) (λ a. Counted) (λ e. Counted) _ _
        (checked-Counted (kernel.create_dir dest) _ dest _ (λ w a. dir_made-Agrees dest w.stats a))
        (λ done.
          >>=-Ends (λ t. Counted) (λ a. Counted) (λ e. Counted) _ _
            (lift-Counted (get_tree tree_hash objects d))
            (materialize_entries-Counted _ (materialize_into-Counted levels) dest))

-- An answer: the counters of the state, which agree with what was done.
abbrev pub Answers : MaterializeStats → World → Type 0
Answers stats w = Agrees stats w.log

-- The counters that a successful materialize_tree returns are, on u64, how many files it cloned, linked
-- and copied, how many directories and symbolic links it made, and the sum of the sizes that the
-- manifests claim for the files.
pub materialize_tree-Agrees :
    (tree_hash : Bytes → Bytes) (objects : List Object) (kernel : Kernel) (intent : Intent)
    (d : Bytes) (dest : PathBuf) (caps : Capabilities) (ioctls : ℕ)
    → Outcome Answers
        (λ e w. Unit)
        (materialize_tree tree_hash objects kernel intent d dest caps ioctls)
unfolding materialize_tree
materialize_tree-Agrees tree_hash objects kernel intent d dest caps ioctls =
    if-either (Outcome Answers (λ e w. Unit)) (kernel.exists dest) tt (
      final
        (materialize_into tree_hash objects kernel intent (max_depth + 1) d dest
          (started caps ioctls))
        (materialize_into-Counted tree_hash objects kernel intent (max_depth + 1) d dest
          (started caps ioctls)
          (record {
            reflinked = refl;
            hardlinked = refl;
            copied = refl;
            dirs = refl;
            symlinks = refl;
            bytes = refl;
          })))
  where
    final :
        (r : Result (Unit {0}) CasError × World)
        → Outcome (λ a. Counted) (λ e. Counted) r
        → Outcome Answers (λ e w. Unit) (stats_of r)
    final (ok done, w) h = h
    final (err e, w) h = tt
