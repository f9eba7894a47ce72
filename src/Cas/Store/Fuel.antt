-- ===== src/Cas/Store/Fuel.antt =====
-- crates/jet-cas/src/store.rs: the mark loop ends, within the fuel that `gc` gives it.
use jetrun.Prelude.{
  true, zero, suc, ◌<◌, refl, ap, ◌∙◌, some, Result-cases, bytes_eq, ℕ, ◌+◌, ◌≤◌, ◌≡◌, sym, inl,
  inr, false, List, [], ◌∷◌, arith, if◌then◌else◌, Bool-cases, length, In, Bytes, bytes_eq_iff, ok,
  err,
}
use jetrun.Cas.Store.{
  reversed, Object, CasError, contains, get_bytes, get_tree, marked, pushed, mark, entries_of,
  entries_in,
}
use jetrun.Cas.Store.Mark.{contains_iff, In-marked, length-pushed}

module _ (tree_hash : Bytes → Bytes) (objects : List Object) where
  -- The entries of the trees that are not live yet.
  owed : List Bytes → List Object → ℕ
  owed live [] = 0
  owed live (o ∷ os) =
      let rest = owed live os in
      if contains live o.digest
      then rest
      else entries_of tree_hash (get_tree tree_hash objects o.digest) + rest

  owed-all : (live : List Bytes) (os : List Object) → owed live os ≤ entries_in tree_hash objects os
  unfolding owed entries_in
  owed-all live [] = omega arith
  owed-all live (o ∷ os) = ground (arith, owed-all live os)

  owed-later :
      (live live' : List Bytes) (os : List Object)
      → ((x : Bytes) → In x live → In x live')
      → owed live' os ≤ owed live os
  unfolding owed
  owed-later live live' [] h = omega arith
  owed-later live live' (o ∷ os) h = elim (Bool-cases (contains live o.digest)) [
    | inl p ↦
        rw (p, (contains_iff live' o.digest).1 (h o.digest ((contains_iff live o.digest).0 p)))
          (owed-later live live' os h)
    | inr p ↦ elim (Bool-cases (contains live' o.digest)) [
      | inl q ↦ rw (p, q) (omega (arith, owed-later live live' os h))
      | inr q ↦ rw (p, q) (omega (arith, owed-later live live' os h))
    ]
  ]

  -- A tree that becomes live pays for its entries.
  owed-paid :
      (d : Bytes) (live live' : List Bytes) (os : List Object) (o : Object)
      → ((x : Bytes) → In x live → In x live')
      → contains live d ≡ false
      → In d live'
      → In o os
      → o.digest ≡ d
      → entries_of tree_hash (get_tree tree_hash objects d) + owed live' os ≤ owed live os
  unfolding owed
  owed-paid d live live' [] o h p m k e = absurd k
  owed-paid d live live' (i ∷ os) o h p m (inl q) e =
      rw (ap (λ o. o.digest) (sym q) ∙ e, p, (contains_iff live' d).1 m)
        (omega (arith, owed-later live live' os h))
  owed-paid d live live' (i ∷ os) o h p m (inr k) e = elim (Bool-cases (contains live i.digest)) [
    | inl c ↦
        rw (c, (contains_iff live' i.digest).1 (h i.digest ((contains_iff live i.digest).0 c)))
          (owed-paid d live live' os o h p m k e)
    | inr c ↦ elim (Bool-cases (contains live' i.digest)) [
      | inl c' ↦ rw (c, c') (omega (arith, owed-paid d live live' os o h p m k e))
      | inr c' ↦ rw (c, c') (omega (arith, owed-paid d live live' os o h p m k e))
    ]
  ]

  pub stored :
      (os : List Object) (d b : Bytes)
      → get_bytes os d ≡ ok b
      → (o : Object) × In o os × (o.digest ≡ d)
  unfolding get_bytes
  stored [] d b h = cc
  stored (o ∷ os) d b h = elim (Bool-cases (bytes_eq o.digest d)) [
    | inl p ↦ (o, inl refl, (bytes_eq_iff o.digest d).0 p)
    | inr p ↦ let (i, m, e) = stored os d b (rw p at h) in (i, inr m, e)
  ]

  absent :
      (d : Bytes) (e : CasError)
      → get_bytes objects d ≡ err e
      → entries_of tree_hash (get_tree tree_hash objects d) ≡ 0
  unfolding get_tree
  absent d e h = rw h refl

  paid :
      (d : Bytes) (live live' : List Bytes)
      → ((x : Bytes) → In x live → In x live')
      → contains live d ≡ false
      → In d live'
      → entries_of tree_hash (get_tree tree_hash objects d) + owed live' objects ≤ owed live objects
  paid d live live' h p m = elim (Result-cases (get_bytes objects d)) [
    | inl (b, g) ↦
        let (o, k, e) = stored objects d b g in owed-paid d live live' objects o h p m k e
    | inr (x, g) ↦ omega (arith, absent d x g, owed-later live live' objects h)
  ]

  -- One round of the loop.
  pub mark-seen :
      (fuel : ℕ) (live : List Bytes) (d : Bytes) (queue : List Bytes)
      → contains live d ≡ true
      → mark tree_hash objects (suc fuel) live (d ∷ queue) ≡ mark tree_hash objects fuel live queue
  unfolding mark
  mark-seen fuel live d queue p = rw (mark, p) refl

  pub mark-new :
      (fuel : ℕ) (live : List Bytes) (d : Bytes) (queue : List Bytes)
      → contains live d ≡ false
      → mark tree_hash objects (suc fuel) live (d ∷ queue)
        ≡ mark tree_hash objects fuel (marked tree_hash (get_tree tree_hash objects d) (d ∷ live)) (
            pushed tree_hash
              (get_tree tree_hash objects d)
              (marked tree_hash (get_tree tree_hash objects d) (d ∷ live))
              queue)
  unfolding mark
  mark-new fuel live d queue p = rw (mark, p) refl

  mark-ends :
      (fuel : ℕ) (live queue : List Bytes)
      → length queue + owed live objects < fuel
      → (result : List Bytes) × (mark tree_hash objects fuel live queue ≡ some result)
  unfolding mark
  mark-ends zero live queue h = absurd (omega arith)
  mark-ends (suc fuel) live [] h = (live, refl)
  mark-ends (suc fuel) live (d ∷ queue) h = elim (Bool-cases (contains live d)) [
    | inl p ↦ rw (mark-seen fuel live d queue p) (mark-ends fuel live queue (omega arith))
    | inr p ↦
        let tree = get_tree tree_hash objects d in
        let now_live = marked tree_hash tree (d ∷ live) in
        rw (mark-new fuel live d queue p) (
          mark-ends fuel now_live (pushed tree_hash tree now_live queue) (
            omega (
              arith,
              length-pushed tree_hash tree now_live queue,
              paid d live now_live (λ x m. In-marked tree_hash tree (d ∷ live) x (inr m)) p
                  (In-marked tree_hash tree (d ∷ live) d (inl refl)),
            )))
  ]

  length-reversed :
      (ds acc : List Bytes) → length (reversed tree_hash ds acc) ≡ length ds + length acc
  unfolding reversed
  length-reversed [] acc = omega arith
  length-reversed (d ∷ ds) acc = omega (arith, length-reversed ds (d ∷ acc))

  pub mark-total :
      (roots : List Bytes)
      → (live : List Bytes) × (mark tree_hash objects
            (length roots + entries_in tree_hash objects objects + 1)
            []
            (reversed tree_hash roots [])
          ≡ some live)
  mark-total roots =
      mark-ends _ [] (reversed tree_hash roots [])
        (omega (arith, length-reversed roots [], owed-all [] objects))
