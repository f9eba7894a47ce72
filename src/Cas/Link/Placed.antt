-- ===== src/Cas/Link/Placed.antt =====
-- crates/jet-cas/src/link.rs: what stands at the destination after `materialize`.
use jetrun.Prelude.{
  Bool, true, false, Option, none, some, Result, ok, err, ◌≡◌, refl, ap, ◌⊎◌, inl, inr,
}
use jetrun.Prelude.Stateful.{Outcome, Ends, >>=-Ends, if-either}
use jetrun.Cas.Link.{
  Errno, Intent, overlay_lower, private_inode, LinkMode, reflink, hardlink, copy, Place, nothing,
  previous, created, clone, same_inode, duplicate, torn, Calls, Slot, materialize, try_reflink,
  raw_reflink, try_hardlink, link_or_copy, clone_or_else, copied, cloned, linked, is_unsupported,
  is_unlinkable, may_clone, call, exclusive, is_free, cleaned, eexist, removal, is_not_found,
}

abbrev pub is_shared : Place → Bool
is_shared nothing = false
is_shared previous = false
is_shared created = false
is_shared clone = false
is_shared same_inode = true
is_shared duplicate = false
is_shared torn = false

-- What a mode stands for.
abbrev pub holds : LinkMode → Place
holds reflink = clone
holds hardlink = same_inode
holds copy = duplicate

abbrev pub is_allowed : Intent → LinkMode → Bool
is_allowed overlay_lower mode = true
is_allowed private_inode reflink = true
is_allowed private_inode hardlink = false
is_allowed private_inode copy = true

-- The destination holds what the mode says, and the intent allows the mode.
abbrev pub IsPlaced : Intent → LinkMode → Slot → Type 0
IsPlaced intent mode s = (s.place ≡ holds mode) × (is_allowed intent mode ≡ true)

-- A failure leaves what was there, or nothing that shares the source's inode.
abbrev pub IsUnshared : Place → Errno → Slot → Type 0
IsUnshared before e s = (s.place ≡ before) ⊎ (is_shared s.place ≡ false)

abbrev At : Place → {A : Type 0} → A → Slot → Type 0
At p a s = s.place ≡ p

-- After an attempt: done, or nothing shared is there.
abbrev Tried : Place → Bool → Slot → Type 0
Tried done true s = s.place ≡ done
Tried done false s = is_shared s.place ≡ false

abbrev Unshared : Errno → Slot → Type 0
Unshared e s = is_shared s.place ≡ false

abbrev Empty : Slot → Type 0
Empty s = s.place ≡ nothing

Empty-Unshared : (e : Errno) (s : Slot) → Empty s → Unshared e s
Empty-Unshared e s h = ap is_shared h

open-Ends :
    (o : Option Errno) → Ends Empty (At nothing) Unshared (λ (t : Slot). call o t.place t.place t)
open-Ends none s h = h
open-Ends (some e) s h = Empty-Unshared e s h

exclusive-Ends :
    (o : Option Errno) (done : Place) → Ends Empty (At done) Unshared (exclusive o done)
exclusive-Ends none done s h =
    if-either (Outcome (At done) Unshared) (is_free s.place) refl (Empty-Unshared eexist s h)
exclusive-Ends (some e) done s h =
    if-either (Outcome (At done) Unshared) (is_free s.place) (Empty-Unshared e s h)
      (Empty-Unshared eexist s h)

call-Ends :
    (o : Option Errno) (done failed : Place)
    → is_shared failed ≡ false
    → (s : Slot) → Outcome (At done) Unshared (call o done failed s)
call-Ends none done failed h s = refl
call-Ends (some e) done failed h s = h

cleaned-unshared : (o : Option Errno) → is_shared (cleaned o) ≡ false
cleaned-unshared none = refl
cleaned-unshared (some e) = refl

raw_reflink-Ends : (calls : Calls) → Ends Empty (At clone) Unshared (raw_reflink calls)
unfolding raw_reflink
raw_reflink-Ends calls =
    >>=-Ends (At nothing) (At clone) Unshared _ _ (open-Ends calls.open_source) (λ a.
      >>=-Ends (At created) (At clone) Unshared _ _ (exclusive-Ends calls.create_new created)
        (λ b s h.
          call-Ends calls.ficlone clone (cleaned calls.remove_partial)
            (cleaned-unshared calls.remove_partial) _))

cloned-Ends :
    (r : Result (Unit {0}) Errno × Slot)
    → Outcome (At clone) Unshared r
    → Outcome (Tried clone) Unshared (cloned r)
unfolding cloned
cloned-Ends (ok done, s) h = h
cloned-Ends (err e, s) h = if-either (Outcome (Tried clone) Unshared) (is_unsupported e) h h

try_reflink-Ends : (calls : Calls) → Ends Empty (Tried clone) Unshared (try_reflink calls)
unfolding try_reflink
try_reflink-Ends calls s h =
    if-either (Outcome (Tried clone) Unshared) (may_clone s.caps)
      (cloned-Ends (raw_reflink calls s) (raw_reflink-Ends calls s h)) (ap is_shared h)

abbrev Apart : Slot → Type 0
Apart s = is_shared s.place ≡ false

link-Ends : (o : Option Errno) → Ends Apart (At same_inode) Unshared (exclusive o same_inode)
link-Ends none s h = if-either (Outcome (At same_inode) Unshared) (is_free s.place) refl h
link-Ends (some e) s h = if-either (Outcome (At same_inode) Unshared) (is_free s.place) h h

linked-Ends :
    (r : Result (Unit {0}) Errno × Slot)
    → Outcome (At same_inode) Unshared r
    → Outcome (Tried same_inode) Unshared (linked r)
unfolding linked
linked-Ends (ok done, s) h = h
linked-Ends (err e, s) h = if-either (Outcome (Tried same_inode) Unshared) (is_unlinkable e) h h

-- A hard link is made under an overlay only.
abbrev Linked : Intent → Bool → Slot → Type 0
Linked intent made s = Tried same_inode made s × (made ≡ true → is_allowed intent hardlink ≡ true)

try_hardlink-Ends :
    (calls : Calls) (intent : Intent)
    → Ends Apart (Linked intent) Unshared (try_hardlink calls intent)
unfolding try_hardlink
try_hardlink-Ends calls overlay_lower s h =
    allowed _ (linked-Ends (exclusive calls.hard_link same_inode s) (link-Ends calls.hard_link s h))
  where
    allowed :
        (r : Result Bool Errno × Slot)
        → Outcome (Tried same_inode) Unshared r
        → Outcome (Linked overlay_lower) Unshared r
    allowed (ok made, t) g = (g, λ e. refl)
    allowed (err e, t) g = g
try_hardlink-Ends calls private_inode s h = (h, λ e. e)

copied-Ends :
    (calls : Calls) (intent : Intent) → Ends Apart (IsPlaced intent) Unshared (copied calls)
unfolding copied
copied-Ends calls intent s h =
    >>=-Ends (At duplicate) (IsPlaced intent) Unshared {P = Apart} _ _
      (λ s h. call-Ends calls.copy_file duplicate torn refl s) (λ a s h. (h, always intent)) s h
  where
    always : (i : Intent) → is_allowed i copy ≡ true
    always overlay_lower = refl
    always private_inode = refl

link_or_copy-Ends :
    (calls : Calls) (intent : Intent) (made : Bool)
    → Ends (Linked intent made) (IsPlaced intent) Unshared (link_or_copy calls made)
unfolding link_or_copy
link_or_copy-Ends calls intent true s (h, g) = (h, g refl)
link_or_copy-Ends calls intent false s (h, g) = copied-Ends calls intent s h

clone_or_else-Ends :
    (calls : Calls) (intent : Intent) (made : Bool)
    → Ends (Tried clone made) (IsPlaced intent) Unshared (clone_or_else calls intent made)
unfolding clone_or_else
clone_or_else-Ends calls overlay_lower true s h = (h, refl)
clone_or_else-Ends calls private_inode true s h = (h, refl)
clone_or_else-Ends calls intent false s h =
    >>=-Ends (Linked intent) (IsPlaced intent) Unshared _ _ (try_hardlink-Ends calls intent)
      (link_or_copy-Ends calls intent) s h

module _ (before : Place) where
  removal-Ends :
      (o : Option Errno) → Ends (λ s. s.place ≡ before) (At nothing) (IsUnshared before) (removal o)
  removal-Ends none s h = refl
  removal-Ends (some e) s h =
      if-either (Outcome (At nothing) (IsUnshared before)) (is_not_found e) refl (inl h)

-- For every destination, whatever stands there, however the system calls end and whatever is known of
-- the filesystem: if materialize succeeds, then the destination holds what the returned mode says (a
-- clone, a second name of the object's inode, or a copy of its bytes), and for the intent
-- PrivateInode the mode is not Hardlink. If it fails, then the destination is as before, or it does
-- not share the object's inode.
pub materialize-IsPlaced :
    (calls : Calls) (intent : Intent) (s : Slot)
    → Outcome (IsPlaced intent) (IsUnshared s.place) (materialize calls intent s)
unfolding materialize
materialize-IsPlaced calls intent s =
    >>=-Ends (At nothing) (IsPlaced intent) (IsUnshared s.place) _ _
      (removal-Ends s.place calls.remove_file)
      (λ a t h. weaken _ (
        >>=-Ends (Tried clone) (IsPlaced intent) Unshared _ _ (try_reflink-Ends calls)
          (clone_or_else-Ends calls intent) t h))
      s refl
  where
    weaken :
        (r : Result LinkMode Errno × Slot)
        → Outcome (IsPlaced intent) Unshared r
        → Outcome (IsPlaced intent) (IsUnshared s.place) r
    weaken (ok mode, t) h = h
    weaken (err e, t) h = inr h
