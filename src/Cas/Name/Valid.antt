-- ===== src/Cas/Name/Valid.antt =====
-- crates/jet-cas/src/tree.rs: which names `EntryName::new` lets through.
use jetrun.Prelude.{
  ℕ, ◌≤◌, ◌≡◌, refl, sym, ◌≢◌, ◌↔◌, inl, inr, false, [], ◌∷◌, arith, ◌==◌, le→ltb, ==_iff,
  Bool-cases, length, In, Bytes, codes, bytes_eq, bytes_eq_iff, ok,
}
use jetrun.Cas.Name.{contains, is_empty, new, name_max}

-- A single path component that cannot leave the directory that it is joined onto.
pub record IsComponent (name : Bytes) : Type 0 where
  pub nonempty : name ≢ []
  pub short : length name ≤ name_max
  pub not_here : name ≢ codes "."
  pub not_parent : name ≢ codes ".."
  pub no_separator : ¬ In b'/' name
  pub no_nul : ¬ In 0 name

contains-false : (c : ℕ) (bs : Bytes) → contains c bs ≡ false → ¬ In c bs
unfolding contains
contains-false c [] h m = m
contains-false c (b ∷ bs) h (inl e) = absurd (ground arith)
contains-false c (b ∷ bs) h (inr m) = contains-false c bs (ground arith) m

contains_absent : (c : ℕ) (bs : Bytes) → ¬ In c bs → contains c bs ≡ false
unfolding contains
contains_absent c [] h = refl
contains_absent c (b ∷ bs) h = elim (Bool-cases (b == c)) [
  | inl e ↦ absurd (h (inl (sym ((==_iff b c).0 e))))
  | inr e ↦ rw (e, contains_absent c bs (λ m. h (inr m)))
]

is_empty-false : (bs : Bytes) → is_empty bs ≡ false → bs ≢ []
unfolding is_empty
is_empty-false [] h = cc
is_empty-false (b ∷ bs) h = λ e. cc

is_empty_nonempty : (bs : Bytes) → bs ≢ [] → is_empty bs ≡ false
unfolding is_empty
is_empty_nonempty [] h = absurd (h refl)
is_empty_nonempty (b ∷ bs) h = refl

bytes_eq_ne : (xs ys : Bytes) → xs ≢ ys → bytes_eq xs ys ≡ false
bytes_eq_ne xs ys h = elim (Bool-cases (bytes_eq xs ys)) [
  | inl e ↦ absurd (h ((bytes_eq_iff xs ys).0 e))
  | inr e ↦ e
]

bytes_eq-false : (xs ys : Bytes) → bytes_eq xs ys ≡ false → xs ≢ ys
bytes_eq-false xs ys h = λ e. cc (h, (bytes_eq_iff xs ys).1 e)

-- A name that `EntryName::new` returns is the one that it was given.
pub new-same : (name m : Bytes) → new name ≡ ok m → m ≡ name
unfolding new
new-same name m h = ground arith

new-tests :
    (name m : Bytes)
    → new name ≡ ok m
    → (is_empty name ≡ false)
      × (length name ≤ name_max)
      × (bytes_eq name (codes ".") ≡ false)
      × (bytes_eq name (codes "..") ≡ false)
      × (contains b'/' name ≡ false)
      × (contains 0 name ≡ false)
unfolding new
new-tests name m h = ground arith

pub new-IsComponent : (name m : Bytes) → new name ≡ ok m → IsComponent name
new-IsComponent name m h =
    let (e, l, d, dd, s, n) = new-tests name m h in
    record {
      nonempty = is_empty-false name e;
      short = l;
      not_here = bytes_eq-false name (codes ".") d;
      not_parent = bytes_eq-false name (codes "..") dd;
      no_separator = contains-false b'/' name s;
      no_nul = contains-false 0 name n;
    }

-- `EntryName::new` accepts a name exactly when it is a single path component of 1 to 255 bytes, with
-- no separator and no NUL, and neither `.` nor `..`.
pub new_iff : (name : Bytes) → (new name ≡ ok name) ↔ IsComponent name
unfolding new
new_iff name = (
  new-IsComponent name name,
  λ v. rw (
    is_empty_nonempty name v.nonempty,
    le→ltb name_max (length name) v.short,
    bytes_eq_ne name (codes ".") v.not_here,
    bytes_eq_ne name (codes "..") v.not_parent,
    contains_absent b'/' name v.no_separator,
    contains_absent 0 name v.no_nul,
  ),
)
