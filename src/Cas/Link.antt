-- ===== src/Cas/Link.antt =====
-- crates/jet-cas/src/link.rs: from an object to a file of a workspace without a copy, where that is
-- safe. `Calls` says how the system calls on one destination end, which is the kernel's choice; what
-- an ended call leaves at the destination is written out. An error is its number, if it has one.
pub mod Placed
pub mod Cached
mod Tests
use jetrun.Prelude.{ℕ, ◌+◌, Bool, true, false, if◌then◌else◌, Option, none, some, Result, ok, err}
use jetrun.Prelude.Stateful.{Run, ◌>>=◌, ◌>>◌, pure, fail}

pub data Errno : Type 0 where
  eopnotsupp : Errno
  enotty : Errno
  exdev : Errno
  einval : Errno
  enosys : Errno
  emlink : Errno
  eperm : Errno
  enoent : Errno
  eexist : Errno
  other_errno : Option ℕ → Errno

pub data Intent : Type 0 where
  overlay_lower : Intent
  private_inode : Intent

pub data LinkMode : Type 0 where
  reflink : LinkMode
  hardlink : LinkMode
  copy : LinkMode

abbrev pub is_copy : LinkMode → Bool
is_copy reflink = false
is_copy hardlink = false
is_copy copy = true

-- The states of the `AtomicU8`.
pub data Capabilities : Type 0 where
  cap_unknown : Capabilities
  cap_yes : Capabilities
  cap_no : Capabilities

abbrev pub with_reflink : Bool → Capabilities
with_reflink true = cap_yes
with_reflink false = cap_no

unfoldable pub reflink_supported : Capabilities → Option Bool
reflink_supported cap_yes = some true
reflink_supported cap_no = some false
reflink_supported cap_unknown = none

-- What stands at a destination: nothing, what stood there before, a file just created, a clone of the
-- source, a second name of the source's inode, a copy of its bytes, or a copy that failed halfway.
pub data Place : Type 0 where
  nothing : Place
  previous : Place
  created : Place
  clone : Place
  same_inode : Place
  duplicate : Place
  torn : Place

-- How the calls on one destination end.
pub record Calls : Type 0 where
  pub remove_file : Option Errno
  pub open_source : Option Errno
  pub create_new : Option Errno
  pub ficlone : Option Errno
  pub remove_partial : Option Errno
  pub hard_link : Option Errno
  pub copy_file : Option Errno

-- The destination, the capabilities, and how often FICLONE was called.
pub record Slot : Type 0 where
  pub place : Place
  pub caps : Capabilities
  pub ioctls : ℕ

abbrev pub note_reflink : Bool → Slot → Slot
note_reflink supported s = record s { caps = with_reflink supported }

unfoldable pub is_unsupported : Errno → Bool
is_unsupported eopnotsupp = true
is_unsupported enotty = true
is_unsupported exdev = true
is_unsupported einval = true
is_unsupported enosys = true
is_unsupported emlink = false
is_unsupported eperm = false
is_unsupported enoent = false
is_unsupported eexist = false
is_unsupported (other_errno code) = false

-- A call, by its outcome: what it leaves at the destination if it succeeds, and if not.
abbrev pub call : Option Errno → Place → Place → Run Slot Errno (Unit {0})
call none done failed s = (ok tt, record s { place = done })
call (some e) done failed s = (err e, record s { place = failed })

-- A name that must be free.
abbrev pub is_free : Place → Bool
is_free nothing = true
is_free previous = false
is_free created = false
is_free clone = false
is_free same_inode = false
is_free duplicate = false
is_free torn = false

abbrev pub exclusive : Option Errno → Place → Run Slot Errno (Unit {0})
exclusive outcome done s = if is_free s.place then call outcome done s.place s else fail eexist s

-- The ioctl; after a failure the partial file is removed, if it can be.
abbrev pub cleaned : Option Errno → Place
cleaned none = nothing
cleaned (some e) = created

abbrev pub ioctl_ficlone : Calls → Run Slot Errno (Unit {0})
ioctl_ficlone calls s =
    call calls.ficlone clone (cleaned calls.remove_partial) (record s { ioctls = s.ioctls + 1 })

unfoldable pub raw_reflink : Calls → Run Slot Errno (Unit {0})
raw_reflink calls s =
    (do
      (λ (t : Slot). call calls.open_source t.place t.place t)
      exclusive calls.create_new created
      ioctl_ficlone calls)
      s

-- `ErrorKind::NotFound`
abbrev pub is_not_found : Errno → Bool
is_not_found eopnotsupp = false
is_not_found enotty = false
is_not_found exdev = false
is_not_found einval = false
is_not_found enosys = false
is_not_found emlink = false
is_not_found eperm = false
is_not_found enoent = true
is_not_found eexist = false
is_not_found (other_errno code) = false

-- The removal of what stood there; that nothing did is no error.
abbrev pub removal : Option Errno → Run Slot Errno (Unit {0})
removal none s = (ok tt, record s { place = nothing })
removal (some e) s = if is_not_found e then (ok tt, record s { place = nothing }) else (err e, s)

abbrev pub removed : Calls → Run Slot Errno (Unit {0})
removed calls = removal calls.remove_file

-- Whether the clone was made; a filesystem that never clones is remembered.
unfoldable pub cloned : Result (Unit {0}) Errno × Slot → Result Bool Errno × Slot
cloned (ok done, s) = (ok true, note_reflink true s)
cloned (err e, s) = if is_unsupported e then (ok false, note_reflink false s) else (err e, s)

-- `!= Some(false)`
abbrev pub may : Option Bool → Bool
may none = true
may (some supported) = supported

unfoldable pub may_clone : Capabilities → Bool
may_clone caps = may (reflink_supported caps)

unfoldable pub try_reflink : Calls → Run Slot Errno Bool
try_reflink calls s = if may_clone s.caps then cloned (raw_reflink calls s) else (ok false, s)

-- A link that is at its limit, or across filesystems, is permanent for the file.
unfoldable pub is_unlinkable : Errno → Bool
is_unlinkable emlink = true
is_unlinkable exdev = true
is_unlinkable eperm = true
is_unlinkable eopnotsupp = false
is_unlinkable enotty = false
is_unlinkable einval = false
is_unlinkable enosys = false
is_unlinkable enoent = false
is_unlinkable eexist = false
is_unlinkable (other_errno code) = false

unfoldable pub linked : Result (Unit {0}) Errno × Slot → Result Bool Errno × Slot
linked (ok done, s) = (ok true, s)
linked (err e, s) = if is_unlinkable e then (ok false, s) else (err e, s)

unfoldable pub try_hardlink : Calls → Intent → Run Slot Errno Bool
try_hardlink calls overlay_lower s = linked (exclusive calls.hard_link same_inode s)
try_hardlink calls private_inode s = (ok false, s)

unfoldable pub copied : Calls → Run Slot Errno LinkMode
copied calls s = (do call calls.copy_file duplicate torn; pure copy) s

unfoldable pub link_or_copy : Calls → Bool → Run Slot Errno LinkMode
link_or_copy calls true = pure hardlink
link_or_copy calls false = copied calls

unfoldable pub clone_or_else : Calls → Intent → Bool → Run Slot Errno LinkMode
clone_or_else calls intent true s = (ok reflink, s)
clone_or_else calls intent false s =
    (do is_linked ← try_hardlink calls intent; link_or_copy calls is_linked) s

unfoldable pub materialize : Calls → Intent → Run Slot Errno LinkMode
materialize calls intent s =
    (do removed calls; is_cloned ← try_reflink calls; clone_or_else calls intent is_cloned) s

-- What a removal leaves.
abbrev pub left : Option Errno → Place → Place
left none p = nothing
left (some e) p = p

-- The scratch clone of a probe is removed whatever became of it, and so is what an earlier probe left.
abbrev pub scrap : Option Errno → Slot → Slot
scrap outcome s = record s { place = if is_free s.place then nothing else left outcome s.place }

unfoldable pub scratch_clone : Calls → Option Errno → Slot → Result Bool Errno × Slot
scratch_clone calls remove_after s =
    let (answer, t) = raw_reflink calls s in cloned (answer, scrap remove_after t)

abbrev pub known_or : Option Bool → Slot → Result Bool Errno × Slot → Result Bool Errno × Slot
known_or (some known) s probed = (ok known, s)
known_or none s probed = probed

unfoldable pub probe : Calls → Option Errno → Option Errno → Run Slot Errno Bool
probe calls write_source remove_after s = known_or (reflink_supported s.caps) s (
    (do (λ (t : Slot). call write_source t.place t.place t); scratch_clone calls remove_after)
      (scrap calls.remove_file s))
