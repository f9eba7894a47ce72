-- ===== src/Cas/Store/Reach/Sound.antt =====
-- crates/jet-cas/src/store.rs: the mark loop marks nothing but what the roots reach.
use jetrun.Prelude.{
  ℕ, zero, suc, ◌≡◌, refl, sym, ◌∙◌, subst, ◌⊎◌, inl, inr, some, List, [], ◌∷◌, Bool-cases, either,
  In, Result, Bytes, ok, err,
}
use jetrun.Cas.Tree.{Tree, blob_digests, subtree_digests}
use jetrun.Cas.Store.{Object, CasError, contains, get_tree, marked, pushed, mark, reversed}
use jetrun.Cas.Store.Mark.{In-mark_blobs, pushed-In}
use jetrun.Cas.Store.Fuel.{mark-seen, mark-new}
use jetrun.Cas.Store.Reach.{IsReached, root, subtree, blob}

module _ (tree_hash : Bytes → Bytes) (objects : List Object) where
  some-injective : {a b : List Bytes} → some a ≡ some b → a ≡ b
  some-injective h = cc

  -- What a round marks or pushes is reached.
  round-reached :
      (roots live queue : List Bytes) (d : Bytes) (r : Result Tree CasError)
      → get_tree tree_hash objects d ≡ r
      → ((x : Bytes) → In x live ⊎ In x (d ∷ queue) → IsReached tree_hash objects roots x)
      → (x : Bytes)
      → In x (marked tree_hash r (d ∷ live))
        ⊎ In x (pushed tree_hash r (marked tree_hash r (d ∷ live)) queue)
      → IsReached tree_hash objects roots x
  round-reached roots live queue d (err e) g h x (inl (inl q)) = h x (inr (inl q))
  round-reached roots live queue d (err e) g h x (inl (inr m)) = h x (inl m)
  round-reached roots live queue d (err e) g h x (inr m) = h x (inr (inr m))
  round-reached roots live queue d (ok t) g h x (inl m) =
      either ((In-mark_blobs tree_hash x (blob_digests t) (d ∷ live)).0 m)
        (λ k. blob t (h d (inr (inl refl))) g k)
        (λ k. either k (λ q. h x (inr (inl q))) (λ n. h x (inl n)))
  round-reached roots live queue d (ok t) g h x (inr m) =
      either (pushed-In tree_hash x (subtree_digests t) _ queue m)
        (λ k. subtree t (h d (inr (inl refl))) g k) (λ n. h x (inr (inr n)))

  mark-sound :
      (roots : List Bytes) (fuel : ℕ) (live queue result : List Bytes)
      → ((x : Bytes) → In x live ⊎ In x queue → IsReached tree_hash objects roots x)
      → mark tree_hash objects fuel live queue ≡ some result
      → (x : Bytes) → In x result
      → IsReached tree_hash objects roots x
  unfolding mark
  mark-sound roots zero live queue result h e x m = cc
  mark-sound roots (suc fuel) live [] result h e x m =
      h x (inl (subst (In x) (sym (some-injective e)) m))
  mark-sound roots (suc fuel) live (d ∷ queue) result h e x m =
      elim (Bool-cases (contains live d)) [
        | inl p ↦
            mark-sound roots fuel live queue result
              (λ y w. h y (either w (λ k. inl k) (λ k. inr (inr k))))
              (sym (mark-seen tree_hash objects fuel live d queue p) ∙ e) x m
        | inr p ↦
            mark-sound roots fuel _ _ result
              (round-reached roots live queue d (get_tree tree_hash objects d) refl h)
              (sym (mark-new tree_hash objects fuel live d queue p) ∙ e) x m
      ]

  reversed-In :
      (ds acc : List Bytes) (x : Bytes) → In x (reversed tree_hash ds acc) → In x ds ⊎ In x acc
  unfolding reversed
  reversed-In [] acc x m = inr m
  reversed-In (d ∷ ds) acc x m =
      either (reversed-In ds (d ∷ acc) x m) (λ k. inl (inr k))
        (λ k. either k (λ q. inl (inl q)) (λ n. inr n))

  -- Nothing else is marked.
  pub marked-reached :
      (fuel : ℕ) (roots live : List Bytes)
      → mark tree_hash objects fuel [] (reversed tree_hash roots []) ≡ some live
      → (d : Bytes) → In d live
      → IsReached tree_hash objects roots d
  marked-reached fuel roots live h d m =
      mark-sound roots fuel [] (reversed tree_hash roots []) live
        (λ x w.
          either w (λ k. absurd k)
            (λ k. either (reversed-In roots [] x k) (λ n. root n) (λ n. absurd n)))
        h d m
