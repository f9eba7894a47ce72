-- ===== src/Cas/Tree/Sorted.antt =====
-- crates/jet-cas/src/tree.rs: the entries of a `Tree` stay in strictly increasing name order under
-- `Tree::insert`.
use jetrun.Prelude.{some, ◌≡◌, refl, ◌⊎◌, inl, inr, none, [], ◌∷◌, ◌++◌, All, Bytes}
use Prim.Native.Nat.{Ordering}
use jetrun.Cas.Tree.{Tree, Node, insert}
use jetrun.Cas.Name.{bytes_cmp}
use jetrun.Cas.Name.Order.{bytes_cmp-eq, bytes_cmp_flip, bytes_cmp_flop, bytes_cmp_trans}

-- A name is below all names of a tree.
abbrev pub Below : Bytes → Tree → Type 0
Below name = All (λ e. bytes_cmp name e.0 ≡ Ordering.lt)

-- All names of a tree are below a name.
abbrev pub Above : Bytes → Tree → Type 0
Above name = All (λ e. bytes_cmp e.0 name ≡ Ordering.lt)

abbrev pub IsSorted : Tree → Type 0
IsSorted [] = Unit {0}
IsSorted ((name, node) ∷ es) = Below name es × IsSorted es

lt-ne-eq : Ordering.eq ≡ Ordering.lt → ⊥
lt-ne-eq h = cc

pub Ordering-cases : (o : Ordering) → (o ≡ Ordering.lt) ⊎ ((o ≡ Ordering.eq) ⊎ (o ≡ Ordering.gt))
Ordering-cases Ordering.lt = inl refl
Ordering-cases Ordering.eq = inr (inl refl)
Ordering-cases Ordering.gt = inr (inr refl)

Below-trans :
    (name k : Bytes) (t : Tree) → bytes_cmp name k ≡ Ordering.lt → Below k t → Below name t
Below-trans name k [] h b = tt
Below-trans name k (e ∷ es) h (he, hes) =
    (bytes_cmp_trans name k e.0 h he, Below-trans name k es h hes)

module _ (name : Bytes) (node : Node) (k : Bytes) (v : Node) (es : Tree) where
  pub insert_before :
      bytes_cmp name k ≡ Ordering.lt
      → insert name node ((k, v) ∷ es) ≡ ((name, node) ∷ (k, v) ∷ es, none)
  unfolding insert
  insert_before e = rw (e, insert)

  pub insert_here :
      bytes_cmp name k ≡ Ordering.eq → insert name node ((k, v) ∷ es) ≡ ((k, node) ∷ es, some v)
  unfolding insert
  insert_here e = rw (e, insert)

  pub insert_behind :
      bytes_cmp name k ≡ Ordering.gt
      → insert name node ((k, v) ∷ es) ≡ ((k, v) ∷ (insert name node es).0, (insert name node es).1)
  unfolding insert
  insert_behind e = rw (e, insert)

pub insert_last :
    (name : Bytes) (node : Node) (t : Tree)
    → Above name t
    → insert name node t ≡ (t ++ ((name, node) ∷ []), none)
insert_last name node [] h = unfold insert in refl
insert_last name node ((k, v) ∷ es) (hk, hes) =
    rw (insert_behind name node k v es (bytes_cmp_flop k name hk), insert_last name node es hes)

-- What holds of the new entry and of all others holds of all entries after an insertion.
pub All-insert :
    (P : Bytes × Node → Type 0) (name : Bytes) (node : Node) (t : Tree)
    → ((k : Bytes) → bytes_cmp name k ≡ Ordering.eq → P (k, node))
    → P (name, node)
    → All P t
    → All P (insert name node t).0
All-insert P name node [] hk h ht = unfold insert in (h, tt)
All-insert P name node ((k, v) ∷ es) hk h (hv, hes) = elim (Ordering-cases (bytes_cmp name k)) [
  | inl e ↦ rw (insert_before name node k v es e) (h, (hv, hes))
  | inr (inl e) ↦ rw (insert_here name node k v es e) (hk k e, hes)
  | inr (inr e) ↦ rw (insert_behind name node k v es e) (hv, All-insert P name node es hk h hes)
]

pub insert-IsSorted :
    (name : Bytes) (node : Node) (t : Tree) → IsSorted t → IsSorted (insert name node t).0
insert-IsSorted name node [] s = unfold insert in (tt, tt)
insert-IsSorted name node ((k, v) ∷ es) (hk, hes) = elim (Ordering-cases (bytes_cmp name k)) [
  | inl e ↦ rw (insert_before name node k v es e) ((e, Below-trans name k es e hk), (hk, hes))
  | inr (inl e) ↦ rw (insert_here name node k v es e) (hk, hes)
  | inr (inr e) ↦ rw (insert_behind name node k v es e) (
    All-insert (λ e. bytes_cmp k e.0 ≡ Ordering.lt) name node es
        (λ k' e'. rw (← bytes_cmp-eq name k' e') (bytes_cmp_flip name k e))
        (bytes_cmp_flip name k e) hk,
    insert-IsSorted name node es hes,
  )
]
