-- ===== src/Cas/Store/Reach.antt =====
-- crates/jet-cas/src/store.rs: what the mark loop marks.
pub mod Sound
use jetrun.Prelude.{
  either, ℕ, zero, suc, refl, ◌∙◌, some, [], Bool-cases, ◌≡◌, sym, subst, ◌≢◌, ◌⊎◌, inl, inr, List,
  ◌∷◌, In, Result, Bytes, ok, err,
}
use jetrun.Cas.Store.Fuel.{mark-seen, mark-new}
use jetrun.Cas.Tree.{Tree, blob_digests, subtree_digests}
use jetrun.Cas.Store.{Object, CasError, contains, get_tree, marked, pushed, mark, reversed}
use jetrun.Cas.Store.Mark.{contains_iff, In-mark_blobs, pushed-In, In-pushed, In-marked}

module _ (tree_hash : Bytes → Bytes) (objects : List Object) where
  -- What a digest reaches from the roots: the entries of a stored tree, down every directory.
  pub data IsReached (roots : List Bytes) : Bytes → Type 0 where
    root : {d : Bytes} → In d roots → IsReached roots d
    subtree :
        {d s : Bytes} (t : Tree)
        → IsReached roots d
        → get_tree tree_hash objects d ≡ ok t
        → In s (subtree_digests t)
        → IsReached roots s
    blob :
        {d b : Bytes} (t : Tree)
        → IsReached roots d
        → get_tree tree_hash objects d ≡ ok t
        → In b (blob_digests t)
        → IsReached roots b

  -- No file entry of a stored tree names a stored tree.
  abbrev pub AreApart : Type 0
  AreApart =
      (d b : Bytes) (t : Tree)
      → get_tree tree_hash objects d ≡ ok t
      → In b (blob_digests t)
      → (t' : Tree) → get_tree tree_hash objects b ≢ ok t'

  -- The entries of what is live are live, or wait on the stack.
  abbrev IsClosed : List Bytes → List Bytes → Type 0
  IsClosed live queue =
      (d : Bytes) (t : Tree)
      → In d live
      → get_tree tree_hash objects d ≡ ok t
      → ((b : Bytes) → In b (blob_digests t) → In b live)
        × ((s : Bytes) → In s (subtree_digests t) → In s live ⊎ In s queue)

  -- A live digest on the top of the stack may go.
  IsClosed-seen :
      (live : List Bytes) (d : Bytes) (queue : List Bytes)
      → In d live
      → IsClosed live (d ∷ queue)
      → IsClosed live queue
  IsClosed-seen live d queue m c x t n g =
      let (bs, ss) = c x t n g in
      (
        bs,
        λ s k.
            either (ss s k) (λ l. inl l)
              (λ q. either q (λ e. inl (subst (λ y. In y live) (sym e) m)) (λ q. inr q)),
      )

  ok-injective : {a b : Tree} → ◌≡◌ {A = Result Tree CasError} (ok a) (ok b) → a ≡ b
  ok-injective h = cc

  ok≢err : {a : Tree} {e : CasError} → ◌≢◌ {A = Result Tree CasError} (ok a) (err e)
  ok≢err h = cc

  -- A round marks the top of the stack and its blobs, and pushes its subtrees.
  IsClosed-new :
      AreApart
      → (live : List Bytes) (d : Bytes) (queue : List Bytes) (r : Result Tree CasError)
      → get_tree tree_hash objects d ≡ r
      → IsClosed live (d ∷ queue)
      → IsClosed
          (marked tree_hash r (d ∷ live))
          (pushed tree_hash r (marked tree_hash r (d ∷ live)) queue)
  IsClosed-new apart live d queue (err e) h c x t (inl q) g =
      absurd (ok≢err (sym (subst (λ y. get_tree tree_hash objects y ≡ ok t) q g) ∙ h))
  IsClosed-new apart live d queue (err e) h c x t (inr m) g =
      let (bs, ss) = c x t m g in
      (
        λ b k. inr (bs b k),
        λ s k. either (ss s k) (λ l. inl (inr l)) (λ w. either w (λ q. inl (inl q)) (λ n. inr n)),
      )
  IsClosed-new apart live d queue (ok u) h c x t m g =
      either ((In-mark_blobs tree_hash x (blob_digests u) (d ∷ live)).0 m)
        (λ k. absurd (apart d x u h k t g))
        (λ k.
          either k
            (λ q.
              let same =
                ok-injective (sym h ∙ subst (λ y. get_tree tree_hash objects y ≡ ok t) q g) in
              (
                λ b n.
                    (In-mark_blobs tree_hash b (blob_digests u) (d ∷ live)).1
                      (inl (subst (λ t. In b (blob_digests t)) (sym same) n)),
                λ s n.
                    In-pushed tree_hash s (subtree_digests u) _ queue
                      (inl (subst (λ t. In s (subtree_digests t)) (sym same) n)),
              ))
            (λ n.
              let (bs, ss) = c x t n g in
              (
                λ b k. In-marked tree_hash (ok u) (d ∷ live) b (inr (bs b k)),
                λ s k.
                    either (ss s k) (λ l. inl (In-marked tree_hash (ok u) (d ∷ live) s (inr l)))
                      (λ w.
                        either w (λ q. inl (In-marked tree_hash (ok u) (d ∷ live) s (inl q)))
                          (λ l. In-pushed tree_hash s (subtree_digests u) _ queue (inr l))),
              )))

  some-injective : {a b : List Bytes} → some a ≡ some b → a ≡ b
  some-injective h = cc

  pushed-keeps :
      (r : Result Tree CasError) (live queue : List Bytes) (x : Bytes)
      → In x queue
      → In x live ⊎ In x (pushed tree_hash r live queue)
  pushed-keeps (ok t) live queue x m = In-pushed tree_hash x (subtree_digests t) live queue (inr m)
  pushed-keeps (err e) live queue x m = inr m

  -- The loop marks what is live and what waits, and what it marks is closed.
  mark-IsClosed :
      AreApart
      → (fuel : ℕ) (live queue result : List Bytes) → IsClosed live queue
      → mark tree_hash objects fuel live queue ≡ some result
      → IsClosed result [] × ((x : Bytes) → In x live ⊎ In x queue → In x result)
  unfolding mark
  mark-IsClosed apart zero live queue result c h = cc
  mark-IsClosed apart (suc fuel) live [] result c h =
      subst (λ l. IsClosed l [] × ((x : Bytes) → In x live ⊎ In x [] → In x l)) (some-injective h)
        (c, λ x w. either w (λ m. m) (λ k. absurd k))
  mark-IsClosed apart (suc fuel) live (d ∷ queue) result c h = elim (Bool-cases (contains live d)) [
    | inl p ↦
        let m = (contains_iff live d).0 p in
        let (closed, has) =
          mark-IsClosed apart fuel live queue result (IsClosed-seen live d queue m c)
            (sym (mark-seen tree_hash objects fuel live d queue p) ∙ h) in
        (
          closed,
          λ x w. has x (
              either w (λ k. inl k)
                (λ k. either k (λ q. inl (subst (λ y. In y live) (sym q) m)) (λ n. inr n))),
        )
    | inr p ↦
        let tree = get_tree tree_hash objects d in
        let now_live = marked tree_hash tree (d ∷ live) in
        let (closed, has) =
          mark-IsClosed apart fuel now_live (pushed tree_hash tree now_live queue) result
            (IsClosed-new apart live d queue tree refl c)
            (sym (mark-new tree_hash objects fuel live d queue p) ∙ h) in
        (
          closed,
          λ x w. has x (
              either w (λ k. inl (In-marked tree_hash tree (d ∷ live) x (inr k)))
                (λ k.
                  either k (λ q. inl (In-marked tree_hash tree (d ∷ live) x (inl q)))
                    (λ n. pushed-keeps tree now_live queue x n))),
        )
  ]

  In-reversed :
      (ds acc : List Bytes) (x : Bytes) → In x ds ⊎ In x acc → In x (reversed tree_hash ds acc)
  unfolding reversed
  In-reversed [] acc x w = either w (λ k. absurd k) (λ m. m)
  In-reversed (d ∷ ds) acc x w =
      In-reversed ds (d ∷ acc) x
        (either w (λ k. either k (λ q. inr (inl q)) (λ n. inl n)) (λ m. inr (inr m)))

  closed-reached :
      (roots live : List Bytes)
      → IsClosed live []
      → ((x : Bytes) → In x roots → In x live)
      → (d : Bytes) → IsReached roots d
      → In d live
  closed-reached roots live c has d (root m) = has d m
  closed-reached roots live c has s (subtree {d} t r g m) =
      either ((c d t (closed-reached roots live c has d r) g).1 s m) (λ l. l) (λ k. absurd k)
  closed-reached roots live c has b (blob {d} t r g m) =
      (c d t (closed-reached roots live c has d r) g).0 b m

  -- Everything that the roots reach is marked, when no file entry of a stored tree names a stored
  -- tree.
  pub reached-marked :
      AreApart
      → (fuel : ℕ) (roots live : List Bytes)
      → mark tree_hash objects fuel [] (reversed tree_hash roots []) ≡ some live
      → (d : Bytes) → IsReached roots d
      → In d live
  reached-marked apart fuel roots live h d r =
      let (closed, has) =
        mark-IsClosed apart fuel [] (reversed tree_hash roots []) live (λ x t m g. absurd m) h in
      closed-reached roots live closed (λ x m. has x (inr (In-reversed roots [] x (inl m)))) d r
