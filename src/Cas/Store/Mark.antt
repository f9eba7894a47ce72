-- ===== src/Cas/Store/Mark.antt =====
-- crates/jet-cas/src/store.rs: the parts of the mark loop, as sets.
use jetrun.Prelude.{
  ◌+◌, ◌≤◌, ◌≡◌, sym, subst, ◌↔◌, ◌⊎◌, inl, inr, List, [], ◌∷◌, arith, Bool-cases, any-In, In-any,
  Reflects, length, In, Result, Bytes, bytes_eq_iff, bytes_eq_refl, ok, err,
}
use jetrun.Cas.Store.{
  CasError, contains, set_insert, mark_blobs, push_subtrees, marked, pushed, entries_of,
}
use jetrun.Cas.Tree.{Tree, blob_digests, subtree_digests}

pub contains_iff : (ds : List Bytes) (d : Bytes) → Reflects (contains ds d) (In d ds)
contains_iff ds d = (
  λ h. let (a, m, e) = any-In _ ds h in subst (λ a. In a ds) (sym ((bytes_eq_iff d a).0 e)) m,
  λ m. In-any _ ds d m (bytes_eq_refl d),
)

pub In-set_insert : (x b : Bytes) (ds : List Bytes) → In x (set_insert b ds) ↔ ((x ≡ b) ⊎ In x ds)
In-set_insert x b ds = elim (Bool-cases (contains ds b)) [
  | inl p ↦ rw p (
    λ m. inr m,
    λ w. elim w [ inl q ↦ subst (λ y. In y ds) (sym q) ((contains_iff ds b).0 p) | inr m ↦ m ],
  )
  | inr p ↦ rw p (λ m. m, λ w. w)
]

module _ (tree_hash : Bytes → Bytes) where
  pub In-mark_blobs :
      (x : Bytes) (bs live : List Bytes)
      → In x (mark_blobs tree_hash bs live) ↔ (In x bs ⊎ In x live)
  In-mark_blobs x [] live = (λ m. inr m, λ w. elim w [ inl k ↦ absurd k | inr m ↦ m ])
  In-mark_blobs x (b ∷ bs) live = (
    λ m. elim ((In-mark_blobs x bs _).0 m) [
      | inl k ↦ inl (inr k)
      | inr k ↦ elim ((In-set_insert x b live).0 k) [ inl q ↦ inl (inl q) | inr n ↦ inr n ]
    ],
    λ w. (In-mark_blobs x bs _).1 (elim w [
      | inl k ↦ elim k [ inl q ↦ inr ((In-set_insert x b live).1 (inl q)) | inr n ↦ inl n ]
      | inr n ↦ inr ((In-set_insert x b live).1 (inr n))
    ]),
  )

  pub pushed-In :
      (x : Bytes) (ss live queue : List Bytes)
      → In x (push_subtrees tree_hash ss live queue)
      → In x ss ⊎ In x queue
  pushed-In x [] live queue m = inr m
  pushed-In x (s ∷ ss) live queue m = elim (Bool-cases (contains live s)) [
    | inl p ↦ elim (pushed-In x ss live queue (rw p at m)) [ inl k ↦ inl (inr k) | inr k ↦ inr k ]
    | inr p ↦ elim (pushed-In x ss live (s ∷ queue) (rw p at m)) [
      | inl k ↦ inl (inr k)
      | inr k ↦ elim k [ inl q ↦ inl (inl q) | inr n ↦ inr n ]
    ]
  ]

  -- What was on the stack stays there, and each subtree is live or on the stack.
  pub In-pushed :
      (x : Bytes) (ss live queue : List Bytes)
      → (In x ss ⊎ In x queue)
      → In x live ⊎ In x (push_subtrees tree_hash ss live queue)
  In-pushed x [] live queue (inl k) = absurd k
  In-pushed x [] live queue (inr m) = inr m
  In-pushed x (s ∷ ss) live queue w = elim (Bool-cases (contains live s)) [
    | inl p ↦ rw p (elim w [
      | inl k ↦ elim k [
        | inl q ↦ inl (subst (λ y. In y live) (sym q) ((contains_iff live s).0 p))
        | inr n ↦ In-pushed x ss live queue (inl n)
      ]
      | inr n ↦ In-pushed x ss live queue (inr n)
    ])
    | inr p ↦ rw p (
        In-pushed x ss live (s ∷ queue)
          (elim w [ inl k ↦ elim k [ inl q ↦ inr (inl q) | inr n ↦ inl n ] | inr n ↦ inr (inr n) ]))
  ]

  length-push_subtrees :
      (ss live queue : List Bytes)
      → length (push_subtrees tree_hash ss live queue) ≤ length ss + length queue
  length-push_subtrees [] live queue = omega arith
  length-push_subtrees (s ∷ ss) live queue =
      ground (arith, length-push_subtrees ss live queue, length-push_subtrees ss live (s ∷ queue))

  -- What is live stays so.
  pub In-marked :
      (r : Result Tree CasError) (live : List Bytes) (x : Bytes)
      → In x live
      → In x (marked tree_hash r live)
  In-marked (ok t) live x m = (In-mark_blobs x (blob_digests t) live).1 (inr m)
  In-marked (err e) live x m = m

  pub length-pushed :
      (r : Result Tree CasError) (live queue : List Bytes)
      → length (pushed tree_hash r live queue) ≤ entries_of tree_hash r + length queue
  length-pushed (ok t) live queue = length-push_subtrees (subtree_digests t) live queue
  length-pushed (err e) live queue = omega arith
