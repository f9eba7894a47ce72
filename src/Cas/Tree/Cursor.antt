-- ===== src/Cas/Tree/Cursor.antt =====
-- crates/jet-cas/src/tree.rs: the bounds-checked cursor `Reader`.
use jetrun.Prelude.{
  true, ==_iff, zero, suc, refl, sym, [], ◌∷◌, drop, to_le_bytes, from_le_bytes-to_le_bytes, arith,
  lt→ltb, le→leb, length-append, take-append, drop-append, ℕ, ◌+◌, ◌-◌, ◌^◌, ◌<◌, ◌≡◌, Bool, ◌&&◌,
  ◌++◌, ltb, leb, ◌==◌, if◌then◌else◌, length, Result, ◌>>=◌, Bytes, slice, from_le_bytes, ok, err,
}
use jetrun.Cas.Name.{TreeError, truncated}
use native.Mathlib.Nat.{zero-add, suc-add}

pub record Reader : Type 0 where
  pub b : Bytes
  pub at : ℕ

-- `Reader::take`. `checked_add` fails where the sum leaves the 64 bits of a `usize`.
unfoldable pub take_bytes : ℕ → Reader → Result (Bytes × Reader) TreeError
take_bytes n r =
    let end = r.at + n in
    if ltb end (2 ^ 64) && leb end (length r.b)
    then ok (slice r.b r.at end, record r { at = end })
    else err truncated

-- The fixed-width integers, little-endian.
unfoldable pub u8 : Reader → Result (ℕ × Reader) TreeError
u8 r = do (s, r) ← take_bytes 1 r; ok (from_le_bytes s, r)

unfoldable pub u16 : Reader → Result (ℕ × Reader) TreeError
u16 r = do (s, r) ← take_bytes 2 r; ok (from_le_bytes s, r)

unfoldable pub u32 : Reader → Result (ℕ × Reader) TreeError
u32 r = do (s, r) ← take_bytes 4 r; ok (from_le_bytes s, r)

unfoldable pub u64 : Reader → Result (ℕ × Reader) TreeError
u64 r = do (s, r) ← take_bytes 8 r; ok (from_le_bytes s, r)

unfoldable pub remaining : Reader → ℕ
remaining r = length r.b - r.at

unfoldable pub is_exhausted : Reader → Bool
is_exhausted r = r.at == length r.b

-- A reader that has `rest` before it, in a buffer that a 64-bit machine can hold.
pub record At (r : Reader) (rest : Bytes) : Type 0 where
  pub ahead : drop r.at r.b ≡ rest
  pub inside : r.at + length rest ≡ length r.b
  pub bounded : length r.b < 2 ^ 64

sum-sub : (m n : ℕ) → m + n - m ≡ n
sum-sub m n = omega arith

drop-nil : (n : ℕ) → drop {A = ℕ} n [] ≡ []
drop-nil zero = refl
drop-nil (suc n) = refl

drop-add : (m n : ℕ) (b : Bytes) → drop (m + n) b ≡ drop n (drop m b)
drop-add zero n b = rw zero-add
drop-add (suc m) n [] = rw suc-add (sym (drop-nil n))
drop-add (suc m) n (x ∷ b) = rw suc-add (drop-add m n b)

-- Reading as many bytes as `xs` has gives `xs` and moves the cursor behind them.
pub take_bytes-At :
    (n : ℕ) (xs rest : Bytes) (r : Reader)
    → n ≡ length xs
    → At r (xs ++ rest)
    → (r' : Reader) × (take_bytes n r ≡ ok (xs, r')) × At r' rest
unfolding take_bytes
take_bytes-At n xs rest r e a = (
  record r { at = r.at + n },
  rw (
    e,
    lt→ltb (r.at + length xs) (2 ^ 64) (omega (arith, a.inside, a.bounded, length-append xs rest)),
    le→leb (r.at + length xs) (length r.b) (omega (arith, a.inside, length-append xs rest)),
    sum-sub r.at (length xs),
    a.ahead,
    take-append xs rest,
  ),
  record {
    ahead = rw (drop-add r.at n r.b, a.ahead, e) (drop-append xs rest);
    inside = omega (arith, a.inside, length-append xs rest);
    bounded = a.bounded;
  },
)

one_byte : (v : ℕ) → from_le_bytes (v ∷ []) ≡ v
one_byte v = omega arith

module _ (rest : Bytes) (r : Reader) where
  pub u8-At : (v : ℕ) → At r (v ∷ rest) → (r' : Reader) × (u8 r ≡ ok (v, r')) × At r' rest
  unfolding u8
  u8-At v a =
      let (r', e, a') = take_bytes-At 1 (v ∷ []) rest r refl a in (r', rw e (rw (one_byte v)), a')

  pub u16-At :
      (v : ℕ)
      → v < 2 ^ 16
      → At r (to_le_bytes 2 v ++ rest)
      → (r' : Reader) × (u16 r ≡ ok (v, r')) × At r' rest
  unfolding u16
  u16-At v h a =
      let (r', e, a') = take_bytes-At 2 (to_le_bytes 2 v) rest r refl a in
      (r', rw e (rw (from_le_bytes-to_le_bytes 2 v h)), a')

  pub u32-At :
      (v : ℕ)
      → v < 2 ^ 32
      → At r (to_le_bytes 4 v ++ rest)
      → (r' : Reader) × (u32 r ≡ ok (v, r')) × At r' rest
  unfolding u32
  u32-At v h a =
      let (r', e, a') = take_bytes-At 4 (to_le_bytes 4 v) rest r refl a in
      (r', rw e (rw (from_le_bytes-to_le_bytes 4 v h)), a')

  pub u64-At :
      (v : ℕ)
      → v < 2 ^ 64
      → At r (to_le_bytes 8 v ++ rest)
      → (r' : Reader) × (u64 r ≡ ok (v, r')) × At r' rest
  unfolding u64
  u64-At v h a =
      let (r', e, a') = take_bytes-At 8 (to_le_bytes 8 v) rest r refl a in
      (r', rw e (rw (from_le_bytes-to_le_bytes 8 v h)), a')

pub remaining-At : (r : Reader) (rest : Bytes) → At r rest → remaining r ≡ length rest
unfolding remaining
remaining-At r rest a = omega (arith, a.inside)

pub is_exhausted-At : (r : Reader) → At r [] → is_exhausted r ≡ true
unfolding is_exhausted
is_exhausted-At r a = (==_iff r.at (length r.b)).1 (omega (arith, a.inside))
