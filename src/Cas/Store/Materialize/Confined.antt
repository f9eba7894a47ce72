-- ===== src/Cas/Store/Materialize/Confined.antt =====
-- crates/jet-cas/src/store.rs: what `materialize_tree` does to the disk, whatever the store holds.
use jetrun.Prelude.{
  ℕ, ◌+◌, zero, suc, Bool, true, false, Option, none, some, List, [], ◌∷◌, ◌++◌, Result, ok, err,
  Bytes, All, All-append, ◌≡◌, refl, ap, ◌∙◌, sym, Ensures, >>=-Ensures, refuse_if-Ensures,
  Ensures-ok,
}
use mathlib.Core.List.{append_assoc, append-nil}
use jetrun.Prelude.Stateful.{Run, Outcome, Ends, Keeps, >>=-Ends, if-either}
use jetrun.Cas.Name.Valid.{IsComponent}
use jetrun.Cas.Tree.{Tree, Node, file, dir, symlink, decode}
use jetrun.Cas.Tree.Safety.{IsSafe, decode-Ensures}
use jetrun.Cas.Link.{Errno, Intent, LinkMode, reflink, hardlink, copy, Place, Capabilities, Slot}
use jetrun.Cas.Link.Placed.{
  is_shared, holds, is_allowed, IsPlaced, IsUnshared, materialize-IsPlaced,
}
use jetrun.Cas.Store.{Object, CasError, PathBuf, has, get_tree, decoded, get_bytes}
use jetrun.Cas.Store.Materialize.{
  Effect, made_dir, placed, left, chmod, made_symlink, World, Kernel, checked, lift, refuse_unless,
  filed, place_of, place_file, own_mode, set_mode, materialize_file, materialize_node,
  materialize_entries, materialize_into, materialize_tree, unchanged, max_depth, started, stats_of,
  MaterializeStats,
}

-- A path at or under the destination, by names that are each one path component.
abbrev pub Below : PathBuf → PathBuf → Type 0
Below dest path = (rest : PathBuf) × (path ≡ dest ++ rest) × All IsComponent rest

decoded-Ensures : (r : _) → Ensures IsSafe r → Ensures IsSafe (decoded r)
decoded-Ensures (ok t) h = h
decoded-Ensures (err e) h = tt

get_tree-Ensures :
    (tree_hash : Bytes → Bytes) (objects : List Object) (d : Bytes)
    → Ensures IsSafe (get_tree tree_hash objects d)
unfolding get_tree
get_tree-Ensures tree_hash objects d = >>=-Ensures IsSafe (get_bytes objects d) _ λ bytes _.
    >>=-Ensures IsSafe (decoded (decode bytes)) _ λ t e.
      refuse_if-Ensures IsSafe _ _ (ok t)
        λ _. Ensures-ok IsSafe _ (decoded-Ensures _ (decode-Ensures bytes)) t e

module _ (objects : List Object) (intent : Intent) (root : PathBuf) where
  -- An effect is at or under the destination. A file placed has its contents in the store, and an
  -- inode of its own if it is executable or the intent asks for it; a mode is set on an inode that is
  -- not the store's.
  abbrev pub IsConfined : Effect → Type 0
  IsConfined (made_dir path) = Below root path
  IsConfined (placed path digest size executable mode place) =
      Below root path
      × (has objects digest ≡ true)
      × (place ≡ holds mode)
      × (is_allowed (place_of intent executable) mode ≡ true)
  IsConfined (left path place) = Below root path
  IsConfined (chmod path mode place) = Below root path × (is_shared place ≡ false)
  IsConfined (made_symlink path target) = Below root path

  abbrev Confined : World → Type 0
  Confined w = All IsConfined w.log

  Below-child :
      (dest : PathBuf) (name : Bytes)
      → Below root dest
      → IsComponent name
      → Below root (dest ++ (name ∷ []))
  Below-child dest name (rest, e, h) c = (
    rest ++ (name ∷ []),
    ap (λ p. p ++ (name ∷ [])) e ∙ append_assoc root rest (name ∷ []),
    All-append IsComponent rest (name ∷ []) h (c, tt),
  )

  checked-Keeps :
      (o : Option Errno) (op : Bytes) (path : PathBuf) (change : World → World)
      → ((w : World) → Confined w → Confined (change w))
      → Keeps Confined (checked o op path change)
  checked-Keeps none op path change h w p = h w p
  checked-Keeps (some e) op path change h w p = p

  -- Where a file was placed, for the mode that is set next.
  abbrev Own : LinkMode × Place → World → Type 0
  Own answer w = Confined w × (answer.1 ≡ holds answer.0)

  filed-Keeps :
      (child : PathBuf) (digest : Bytes) (size : ℕ) (executable : Bool) (before : Place)
      (r : Result LinkMode Errno × Slot)
      → Below root child
      → has objects digest ≡ true
      → Outcome (IsPlaced (place_of intent executable)) (IsUnshared before) r
      → Ends Confined Own (λ e. Confined) (filed child digest size executable r)
  unfolding filed
  filed-Keeps child digest size executable before (ok mode, s) below h (holds, allowed) w p =
      (((below, h, holds, allowed), p), holds)
  filed-Keeps child digest size executable before (err e, s) below h o w p = (below, p)

  module _ (tree_hash : Bytes → Bytes) (kernel : Kernel) where
    own_mode-Keeps :
        (child : PathBuf) (executable : Bool) (place : Place)
        → Below root child
        → is_shared place ≡ false
        → Keeps Confined (own_mode tree_hash objects kernel intent child executable place)
    unfolding own_mode
    own_mode-Keeps child executable place below h =
        >>=-Ends (λ a. Confined) (λ a. Confined) (λ e. Confined) _ _
          (checked-Keeps (kernel.metadata child) _ child unchanged (λ w p. p))
          (λ a. checked-Keeps (kernel.set_permissions child) _ child _ (λ w p. ((below, h), p)))

    set_mode-Keeps :
        (child : PathBuf) (executable : Bool) (answer : LinkMode × Place)
        → Below root child
        → Ends
            (Own answer)
            (λ a. Confined)
            (λ e. Confined)
            (set_mode tree_hash objects kernel intent child executable answer)
    unfolding set_mode
    set_mode-Keeps child executable (hardlink, place) below w (p, h) = p
    set_mode-Keeps child executable (reflink, place) below w (p, h) =
        own_mode-Keeps child executable place below (ap is_shared h) w p
    set_mode-Keeps child executable (copy, place) below w (p, h) =
        own_mode-Keeps child executable place below (ap is_shared h) w p

    place_file-Keeps :
        (child : PathBuf) (digest : Bytes) (size : ℕ) (executable : Bool)
        → Below root child
        → has objects digest ≡ true
        → Ends Confined Own
            (λ e. Confined)
            (place_file tree_hash objects kernel intent child digest size executable)
    unfolding place_file
    place_file-Keeps child digest size executable below h w =
        filed-Keeps child digest size executable (kernel.before child) _ below h
          (materialize-IsPlaced (kernel.calls child) (place_of intent executable) _) w

    materialize_file-Keeps :
        (child : PathBuf) (digest : Bytes) (size : ℕ) (executable : Bool)
        → Below root child
        → Keeps Confined
            (materialize_file tree_hash objects kernel intent child digest size executable)
    unfolding materialize_file
    materialize_file-Keeps child digest size executable below =
        >>=-Ends (λ a w. Confined w × (has objects digest ≡ true)) (λ a. Confined) (λ e. Confined) _
          _ (refused (has objects digest) _)
          (λ a w (p, h).
            >>=-Ends Own (λ a. Confined) (λ e. Confined)
              (place_file tree_hash objects kernel intent child digest size executable)
              (set_mode tree_hash objects kernel intent child executable)
              (place_file-Keeps child digest size executable below h)
              (λ answer. set_mode-Keeps child executable answer below) w p)
      where
        refused :
            (b : Bool) (e : CasError)
            → Ends Confined (λ a w. Confined w × (b ≡ true)) (λ e. Confined) (refuse_unless b e)
        refused true e w p = (p, refl)
        refused false e w p = p

    -- What the recursion, which the loop is given, must do.
    abbrev Recurses : (Bytes → PathBuf → Run World CasError (Unit {0})) → Type 0
    Recurses recurse =
        (d : Bytes) (path : PathBuf) → Below root path → Keeps Confined (recurse d path)

    module _ (recurse : Bytes → PathBuf → Run World CasError (Unit {0}))
        (h : Recurses recurse) where
      materialize_node-Keeps :
          (child : PathBuf) (node : Node)
          → Below root child
          → Keeps Confined (materialize_node tree_hash objects kernel intent recurse child node)
      unfolding materialize_node
      materialize_node-Keeps child (file digest size executable) below =
          materialize_file-Keeps child digest size executable below
      materialize_node-Keeps child (dir digest) below = h digest child below
      materialize_node-Keeps child (symlink target) below =
          checked-Keeps (kernel.symlink_call child) _ child _ (λ w p. (below, p))

      materialize_entries-Keeps :
          (dest : PathBuf) (t : Tree)
          → Below root dest
          → All (λ e. IsComponent e.0) t
          → Keeps Confined (materialize_entries tree_hash objects kernel intent recurse dest t)
      unfolding materialize_entries
      materialize_entries-Keeps dest [] below c = λ w p. p
      materialize_entries-Keeps dest ((name, node) ∷ es) below (c, cs) =
          >>=-Ends (λ a. Confined) (λ a. Confined) (λ e. Confined) _ _
            (materialize_node-Keeps _ node (Below-child dest name below c))
            (λ a. materialize_entries-Keeps dest es below cs)

    lift-Ends :
        (r : Result Tree CasError)
        → Ensures IsSafe r
        → Ends Confined (λ t w. Confined w × IsSafe t) (λ e. Confined) (lift r)
    lift-Ends (ok t) h w p = (p, h)
    lift-Ends (err e) h w p = p

    materialize_into-Keeps :
        (levels : ℕ) → Recurses (materialize_into tree_hash objects kernel intent levels)
    unfolding materialize_into
    materialize_into-Keeps zero d dest below = λ w p. p
    materialize_into-Keeps (suc levels) d dest below =
        >>=-Ends (λ a. Confined) (λ a. Confined) (λ e. Confined) _ _
          (checked-Keeps (kernel.create_dir dest) _ dest _ (λ w p. (below, p)))
          (λ a.
            >>=-Ends (λ t w. Confined w × IsSafe t) (λ a. Confined) (λ e. Confined) _ _
              (lift-Ends _ (get_tree-Ensures tree_hash objects d))
              (λ t w (p, s).
                materialize_entries-Keeps _ (materialize_into-Keeps levels) dest t below
                  s.components w p))

-- Whatever the store holds, hostile manifests included, however the system calls end and whether the
-- run succeeds or fails: every effect of materialize_tree is at the destination or under it, by names
-- that are each one path component. A file placed has its contents in the store and stands as its mode
-- says; it is no hard link where the intent is PrivateInode or the entry is executable; and no mode is
-- ever set on an inode that the store shares.
pub materialize_tree-IsConfined :
    (tree_hash : Bytes → Bytes) (objects : List Object) (kernel : Kernel) (intent : Intent)
    (d : Bytes) (dest : PathBuf) (caps : Capabilities) (ioctls : ℕ)
    → All
        (IsConfined objects intent dest)
        (materialize_tree tree_hash objects kernel intent d dest caps ioctls).1.log
unfolding materialize_tree
materialize_tree-IsConfined tree_hash objects kernel intent d dest caps ioctls =
    if-either
      (λ (r : Result MaterializeStats CasError × World).
        All (IsConfined objects intent dest) r.1.log)
      (kernel.exists dest) tt
      (final
        (materialize_into tree_hash objects kernel intent (max_depth + 1) d dest
          (started caps ioctls))
        (materialize_into-Keeps objects intent dest tree_hash kernel (max_depth + 1) d dest
          ([], sym (append-nil dest), tt) (started caps ioctls) tt))
  where
    final :
        (r : Result (Unit {0}) CasError × World)
        → Outcome
            (λ a w. All (IsConfined objects intent dest) w.log)
            (λ e w. All (IsConfined objects intent dest) w.log)
            r
        → All (IsConfined objects intent dest) (stats_of r).1.log
    final (ok done, w) h = h
    final (err e, w) h = h
