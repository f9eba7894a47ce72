-- ===== src/Cas/Name.antt =====
-- crates/jet-cas/src/tree.rs: the validated path component `EntryName`, the errors of the module, and
-- the part of Rust's `str` that they rest on: UTF-8 validity and the order of the bytes.
pub mod Order
pub mod Valid
use jetrun.Prelude.{
  ◌-◌, ◌||◌, none, [], ◌∷◌, ltb, if◌then◌else◌, length, ◌>>=◌, ◌>>◌, refuse_if, codes, bytes_eq, ok,
  ℕ, Bytes, Option, Bool, Result, false, true, leb, some, ◌&&◌, ◌==◌,
}
use Prim.Native.Nat.{Ordering, compare, ℕ}
use mathlib.Core.Bool.{cond}

pub data TreeError : Type 0 where
  empty_name : TreeError
  name_too_long : ℕ → TreeError
  dot_name : Bytes → TreeError
  name_has_separator : Bytes → TreeError
  name_has_nul : Bytes → TreeError
  name_not_utf8 : TreeError
  duplicate_name : Bytes → TreeError
  empty_symlink_target : TreeError
  unsupported_version : ℕ → TreeError
  unknown_tag : ℕ → TreeError
  truncated : TreeError
  trailing_bytes : ℕ → TreeError

abbrev pub name_max : ℕ
name_max = 255

-- `s.contains(c)` for an ASCII character.
unfoldable pub contains : ℕ → Bytes → Bool
contains c [] = false
contains c (b ∷ bs) = b == c || contains c bs

unfoldable pub is_empty : Bytes → Bool
is_empty [] = true
is_empty (b ∷ bs) = false

-- `EntryName::new`
unfoldable pub new : Bytes → Result Bytes TreeError
new name = do
  refuse_if (is_empty name) empty_name
  refuse_if (ltb name_max (length name)) (name_too_long (length name))
  refuse_if (bytes_eq name (codes ".") || bytes_eq name (codes "..")) (dot_name name)
  refuse_if (contains b'/' name) (name_has_separator name)
  refuse_if (contains 0 name) (name_has_nul name)
  ok name

-- The bytes that may come next in a text: how many continuation bytes the character still needs,
-- and the range of the next one.
pub record Pending : Type 0 where
  pub need : ℕ
  pub lo : ℕ
  pub hi : ℕ

abbrev pub boundary : Pending
boundary = record { need = 0; lo = 0x80; hi = 0xbf }

abbrev within : ℕ → ℕ → ℕ → Bool
within lo hi b = leb lo b && leb b hi

unfoldable pub lead_byte : ℕ → Option Pending
lead_byte b =
    if ltb b 0x80
    then some boundary
    else if within 0xc2 0xdf b
    then some (record { need = 1; lo = 0x80; hi = 0xbf })
    else if b == 0xe0
    then some (record { need = 2; lo = 0xa0; hi = 0xbf })
    else if b == 0xed
    then some (record { need = 2; lo = 0x80; hi = 0x9f })
    else if within 0xe1 0xef b
    then some (record { need = 2; lo = 0x80; hi = 0xbf })
    else if b == 0xf0
    then some (record { need = 3; lo = 0x90; hi = 0xbf })
    else if within 0xf1 0xf3 b
    then some (record { need = 3; lo = 0x80; hi = 0xbf })
    else if b == 0xf4
    then some (record { need = 3; lo = 0x80; hi = 0x8f })
    else none

unfoldable pub next_byte : Pending → ℕ → Option Pending
unfolding lead_byte
next_byte p b =
    if p.need == 0
    then lead_byte b
    else if within p.lo p.hi b
    then some (record { need = p.need - 1; lo = 0x80; hi = 0xbf })
    else none

unfoldable pub utf8_from : Option Pending → Bytes → Bool
unfolding next_byte
utf8_from none bs = false
utf8_from (some p) [] = p.need == 0
utf8_from (some p) (b ∷ bs) = utf8_from (next_byte p b) bs

-- `std::str::from_utf8(b).is_ok()`
unfoldable pub is_utf8 : Bytes → Bool
unfolding utf8_from
is_utf8 = utf8_from (some boundary)

-- The order of `str`: byte by byte, a prefix first.
unfoldable pub bytes_cmp : Bytes → Bytes → Ordering
bytes_cmp [] [] = Ordering.eq
bytes_cmp [] (y ∷ ys) = Ordering.lt
bytes_cmp (x ∷ xs) [] = Ordering.gt
bytes_cmp (x ∷ xs) (y ∷ ys) =
    let rest = bytes_cmp xs ys in
    elim (compare x y) [
      | Ordering.lt ↦ Ordering.lt
      | Ordering.eq ↦ rest
      | Ordering.gt ↦ Ordering.gt
    ]
