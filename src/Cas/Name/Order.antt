-- ===== src/Cas/Name/Order.antt =====
-- crates/jet-cas/src/tree.rs: the derived order of `EntryName` is a strict total order.
use jetrun.Prelude.{refl, [], ◌∷◌, arith, Bytes, ◌≡◌}
use jetrun.Cas.Name.{bytes_cmp, Bytes}
use Prim.Native.Nat.{Ordering}

pub bytes_cmp-eq : (xs ys : Bytes) → bytes_cmp xs ys ≡ Ordering.eq → xs ≡ ys
unfolding bytes_cmp
bytes_cmp-eq [] [] h = refl
bytes_cmp-eq [] (y ∷ ys) h = cc
bytes_cmp-eq (x ∷ xs) [] h = cc
bytes_cmp-eq (x ∷ xs) (y ∷ ys) h = ground (arith, bytes_cmp-eq xs ys)

pub bytes_cmp_refl : (xs : Bytes) → bytes_cmp xs xs ≡ Ordering.eq
unfolding bytes_cmp
bytes_cmp_refl [] = refl
bytes_cmp_refl (x ∷ xs) = ground (arith, bytes_cmp_refl xs)

pub bytes_cmp_flip : (xs ys : Bytes) → bytes_cmp xs ys ≡ Ordering.gt → bytes_cmp ys xs ≡ Ordering.lt
unfolding bytes_cmp
bytes_cmp_flip [] [] h = cc
bytes_cmp_flip [] (y ∷ ys) h = cc
bytes_cmp_flip (x ∷ xs) [] h = refl
bytes_cmp_flip (x ∷ xs) (y ∷ ys) h = ground (arith, bytes_cmp_flip xs ys)

pub bytes_cmp_flop : (xs ys : Bytes) → bytes_cmp xs ys ≡ Ordering.lt → bytes_cmp ys xs ≡ Ordering.gt
unfolding bytes_cmp
bytes_cmp_flop [] [] h = cc
bytes_cmp_flop [] (y ∷ ys) h = refl
bytes_cmp_flop (x ∷ xs) [] h = cc
bytes_cmp_flop (x ∷ xs) (y ∷ ys) h = ground (arith, bytes_cmp_flop xs ys)

pub bytes_cmp_trans :
    (xs ys zs : Bytes)
    → bytes_cmp xs ys ≡ Ordering.lt
    → bytes_cmp ys zs ≡ Ordering.lt
    → bytes_cmp xs zs ≡ Ordering.lt
unfolding bytes_cmp
bytes_cmp_trans [] [] zs h k = cc
bytes_cmp_trans [] (y ∷ ys) [] h k = cc
bytes_cmp_trans [] (y ∷ ys) (z ∷ zs) h k = refl
bytes_cmp_trans (x ∷ xs) [] zs h k = cc
bytes_cmp_trans (x ∷ xs) (y ∷ ys) [] h k = cc
bytes_cmp_trans (x ∷ xs) (y ∷ ys) (z ∷ zs) h k = ground (arith, bytes_cmp_trans xs ys zs)
