-- ===== src/Cas/Link/Cached.antt =====
-- crates/jet-cas/src/link.rs: the cached capability, over a whole workspace.
use jetrun.Prelude.{
  ℕ, ◌+◌, ◌≤◌, Bool, true, false, Option, none, some, Result, ok, err, List, [], ◌∷◌, ◌≡◌, refl,
  Bool-cases, inl, inr, ◌⊎◌, if◌then◌else◌, All, arith,
}
use jetrun.Prelude.Stateful.{Outcome, Ends, Keeps, >>=-Ends, if-either}
use jetrun.Cas.Link.{
  Errno, Intent, overlay_lower, private_inode, LinkMode, Place, created, Capabilities, Calls, Slot,
  materialize, try_reflink, raw_reflink, try_hardlink, link_or_copy, clone_or_else, copied, cloned,
  linked, is_unsupported, is_unlinkable, may_clone, call, exclusive, is_free, removal, is_not_found,
  same_inode, duplicate, torn, reflink_supported,
}

-- A file of a workspace: its calls, its intent, and what stands at its destination.
abbrev pub Step : Type 0
Step = Calls × Intent × Place

-- The files one after another, each at its own destination, over one `Capabilities`.
unfoldable pub materialize_each : List Step → Slot → Slot
materialize_each [] s = s
materialize_each ((calls, intent, place) ∷ steps) s =
    materialize_each steps (materialize calls intent (record s { place = place })).1

-- The filesystem under the store never clones.
abbrev pub NeverClones : Calls → Type 0
NeverClones calls = (e : Errno) × (calls.ficlone ≡ some e) × (is_unsupported e ≡ true)

abbrev potential : Capabilities → ℕ
potential caps = if may_clone caps then 1 else 0

potential-le : (caps : Capabilities) → potential caps ≤ 1
potential-le caps = if-either (λ n. n ≤ 1) (may_clone caps) (omega arith) (omega arith)

potential-one : (caps : Capabilities) → may_clone caps ≡ true → potential caps ≡ 1
potential-one caps e = rw e refl

module _ (n : ℕ) where
  abbrev Spare : Slot → Type 0
  Spare s = s.ioctls + potential s.caps ≤ n

  abbrev Before : Slot → Type 0
  Before s = s.ioctls + 1 ≤ n

  abbrev Never : {A : Type 0} → A → Slot → Type 0
  Never a s = true ≡ false

  -- The ioctl was not reached, or its answer is that it never will be.
  abbrev Refused : Errno → Slot → Type 0
  Refused e s = Spare s ⊎ ((is_unsupported e ≡ true) × (s.ioctls ≤ n))

  spare : (s : Slot) → Before s → Spare s
  spare s h = omega (arith, potential-le s.caps)

  call-Keeps :
      (P : Slot → Type 0) (o : Option Errno) (done failed : Place) (s : Slot)
      → ((p : Place) → P (record s { place = p }))
      → Outcome (λ a. P) (λ e. P) (call o done failed s)
  call-Keeps P none done failed s h = h done
  call-Keeps P (some e) done failed s h = h failed

  call-Before :
      (o : Option Errno) (done failed : Place) (s : Slot)
      → Before s
      → Outcome (λ a. Before) Refused (call o done failed s)
  call-Before none done failed s h = h
  call-Before (some e) done failed s h = inl (spare s h)

  exclusive-Before :
      (o : Option Errno) (done : Place) → Ends Before (λ a. Before) Refused (exclusive o done)
  exclusive-Before o done s h =
      if-either (Outcome (λ a. Before) Refused) (is_free s.place) (call-Before o done s.place s h)
        (inl (spare s h))

  raw_reflink-Refused :
      (calls : Calls) → NeverClones calls → Ends Before Never Refused (raw_reflink calls)
  unfolding raw_reflink
  raw_reflink-Refused calls (e, h, u) =
      >>=-Ends (λ a. Before) Never Refused _ _
        (λ s p. call-Before calls.open_source s.place s.place s p)
        (λ a.
          >>=-Ends (λ b. Before) Never Refused _ _ (exclusive-Before calls.create_new created)
            (λ b s p. rw h (inr (u, omega arith))))

  cloned-Keeps :
      (r : Result (Unit {0}) Errno × Slot)
      → Outcome Never Refused r
      → Outcome (λ b. Spare) (λ e. Spare) (cloned r)
  unfolding cloned may_clone reflink_supported
  cloned-Keeps (ok done, s) h = cc
  cloned-Keeps (err e, s) (inl h) =
      if-either (Outcome (λ b. Spare) (λ e. Spare)) (is_unsupported e) (omega arith) h
  cloned-Keeps (err e, s) (inr (u, h)) = rw u (omega arith)

  try_reflink-Keeps : (calls : Calls) → NeverClones calls → Keeps Spare (try_reflink calls)
  unfolding try_reflink
  try_reflink-Keeps calls h s p = elim (Bool-cases (may_clone s.caps)) [
    | inl e ↦ rw e (
        cloned-Keeps (raw_reflink calls s)
          (raw_reflink-Refused calls h s (omega (arith, potential-one s.caps e))))
    | inr e ↦ rw e p
  ]

  exclusive-Keeps : (o : Option Errno) (done : Place) → Keeps Spare (exclusive o done)
  exclusive-Keeps o done s p =
      if-either (Outcome (λ b. Spare) (λ e. Spare)) (is_free s.place)
        (call-Keeps Spare o done s.place s (λ q. p)) p

  linked-Keeps :
      (r : Result (Unit {0}) Errno × Slot)
      → Outcome (λ b. Spare) (λ e. Spare) r
      → Outcome (λ b. Spare) (λ e. Spare) (linked r)
  unfolding linked
  linked-Keeps (ok done, s) h = h
  linked-Keeps (err e, s) h = if-either (Outcome (λ b. Spare) (λ e. Spare)) (is_unlinkable e) h h

  try_hardlink-Keeps : (calls : Calls) (intent : Intent) → Keeps Spare (try_hardlink calls intent)
  unfolding try_hardlink
  try_hardlink-Keeps calls overlay_lower s p =
      linked-Keeps (exclusive calls.hard_link same_inode s)
        (exclusive-Keeps calls.hard_link same_inode s p)
  try_hardlink-Keeps calls private_inode s p = p

  link_or_copy-Keeps : (calls : Calls) (made : Bool) → Keeps Spare (link_or_copy calls made)
  unfolding link_or_copy copied
  link_or_copy-Keeps calls true s p = p
  link_or_copy-Keeps calls false s p =
      >>=-Ends (λ a. Spare) (λ a. Spare) (λ e. Spare) {P = Spare} _ _
        (λ s p. call-Keeps Spare calls.copy_file duplicate torn s (λ q. p)) (λ a s p. p) s p

  clone_or_else-Keeps :
      (calls : Calls) (intent : Intent) (made : Bool)
      → Keeps Spare (clone_or_else calls intent made)
  unfolding clone_or_else
  clone_or_else-Keeps calls intent true s p = p
  clone_or_else-Keeps calls intent false s p =
      >>=-Ends (λ a. Spare) (λ a. Spare) (λ e. Spare) {P = Spare} _ _
        (try_hardlink-Keeps calls intent) (link_or_copy-Keeps calls) s p

  removal-Keeps : (o : Option Errno) → Keeps Spare (removal o)
  removal-Keeps none s p = p
  removal-Keeps (some e) s p = if-either (Outcome (λ b. Spare) (λ e. Spare)) (is_not_found e) p p

  materialize-Keeps :
      (calls : Calls) (intent : Intent) → NeverClones calls → Keeps Spare (materialize calls intent)
  unfolding materialize
  materialize-Keeps calls intent h =
      >>=-Ends (λ a. Spare) (λ a. Spare) (λ e. Spare) _ _ (removal-Keeps calls.remove_file)
        (λ a.
          >>=-Ends (λ b. Spare) (λ a. Spare) (λ e. Spare) _ _ (try_reflink-Keeps calls h)
            (clone_or_else-Keeps calls intent))

  final : (r : Result LinkMode Errno × Slot) → Outcome (λ a. Spare) (λ e. Spare) r → Spare r.1
  final (ok mode, s) p = p
  final (err e, s) p = p

  materialize_each-Spare :
      (steps : List Step)
      → All (λ step. NeverClones step.0) steps
      → (s : Slot) → Spare s
      → Spare (materialize_each steps s)
  unfolding materialize_each
  materialize_each-Spare [] h s p = p
  materialize_each-Spare ((calls, intent, place) ∷ steps) (h, hs) s p =
      materialize_each-Spare steps hs _ (final _ (materialize-Keeps calls intent h _ p))

-- On a filesystem that never clones, any number of files placed one after another, whatever else
-- becomes of each of them, costs at most one call of FICLONE, and none if the cached capability says
-- no already.
pub materialize_each-ioctls :
    (steps : List Step) (s : Slot)
    → All (λ step. NeverClones step.0) steps
    → (materialize_each steps s).ioctls ≤ s.ioctls + (if may_clone s.caps then 1 else 0)
materialize_each-ioctls steps s h =
    let p = materialize_each-Spare (s.ioctls + potential s.caps) steps h s (omega arith) in
    omega arith
