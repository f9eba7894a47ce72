-- ===== src/Cas/Link/Tests.antt =====
-- crates/jet-cas/src/link.rs: placements on a filesystem without clones and on one with them.
use jetrun.Prelude.{true, false, ◌≤◌, none, some, [], ◌∷◌, ok, err, ◌≡◌, refl}
use jetrun.Prelude.Stateful.{Outcome, continue}
use jetrun.Cas.Link.{
  eopnotsupp, exdev, eperm, other_errno, overlay_lower, private_inode, reflink, hardlink, copy,
  cap_unknown, cap_yes, cap_no, nothing, previous, same_inode, duplicate, clone, created, Calls,
  Slot, materialize, probe, scratch_clone, try_reflink, raw_reflink, try_hardlink, link_or_copy,
  clone_or_else, copied, cloned, linked, is_unsupported, is_unlinkable, may_clone,
  reflink_supported,
}
use jetrun.Cas.Link.Placed.{IsPlaced, IsUnshared, materialize-IsPlaced}
use jetrun.Cas.Link.Cached.{materialize_each, materialize_each-ioctls}

program : Unit {0}
unfolding materialize probe scratch_clone try_reflink raw_reflink try_hardlink link_or_copy
    clone_or_else copied cloned linked is_unsupported is_unlinkable may_clone reflink_supported
    continue materialize_each
program = tt

abbrev fine : Calls
fine = record {
  remove_file = none;
  open_source = none;
  create_new = none;
  ficlone = none;
  remove_partial = none;
  hard_link = none;
  copy_file = none;
}

-- As on ext4.
abbrev plain : Calls
plain = record fine { ficlone = some eopnotsupp }

abbrev across : Calls
across = record fine { ficlone = some exdev; hard_link = some exdev }

abbrev slot : Slot
slot = record { place = previous; caps = cap_unknown; ioctls = 0 }

clones :
    materialize fine overlay_lower slot
    ≡ (ok reflink, record { place = clone; caps = cap_yes; ioctls = 1 })
unfolding program
clones = refl

hardlinks :
    materialize plain overlay_lower slot
    ≡ (ok hardlink, record { place = same_inode; caps = cap_no; ioctls = 1 })
unfolding program
hardlinks = refl

copies :
    materialize plain private_inode slot
    ≡ (ok copy, record { place = duplicate; caps = cap_no; ioctls = 1 })
unfolding program
copies = refl

copies_across :
    materialize across overlay_lower slot
    ≡ (ok copy, record { place = duplicate; caps = cap_no; ioctls = 1 })
unfolding program
copies_across = refl

-- A failure that may pass is reported, and nothing is remembered.
fails :
    materialize (record fine { ficlone = some (other_errno (some 5)) }) overlay_lower slot
    ≡ (err (other_errno (some 5)), record { place = nothing; caps = cap_unknown; ioctls = 1 })
unfolding program
fails = refl

-- A partial file that cannot be removed stops the hard link.
stuck :
    (materialize (record plain { remove_partial = some eperm }) overlay_lower slot).1.place
    ≡ created
unfolding program
stuck = refl

probes :
    probe plain none none slot ≡ (ok false, record { place = nothing; caps = cap_no; ioctls = 1 })
unfolding program
probes = refl

materialize-IsPlaced_example :
    Outcome (IsPlaced private_inode) (IsUnshared previous) (materialize plain private_inode slot)
materialize-IsPlaced_example = materialize-IsPlaced plain private_inode slot

unsupported : (is_unsupported eopnotsupp ≡ true) × (is_unsupported exdev ≡ true)
unfolding is_unsupported
unsupported = (refl, refl)

materialize_each-ioctls_example :
    (materialize_each
      ((plain, overlay_lower, nothing) ∷ (across, private_inode, previous) ∷ [])
      slot).ioctls
    ≤ 1
unfolding may_clone reflink_supported
materialize_each-ioctls_example =
    materialize_each-ioctls
      ((plain, overlay_lower, nothing) ∷ (across, private_inode, previous) ∷ []) slot
      ((eopnotsupp, refl, unsupported.0), ((exdev, refl, unsupported.1), tt))
