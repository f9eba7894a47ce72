-- ===== src/Server/Http/Headers.antt =====
-- crates/jet-server/src/http.rs: the headers of a request, and its bearer token.
use jetrun.Prelude.{
  Bool, ◌&&◌, ◌||◌, Option, none, some, List, [], ◌∷◌, map, leb, ◌==◌, if◌then◌else◌, get_key,
  insert_key, Bytes, codes, ℕ,
}
use mathlib.Core.List.{reverse}
use jetrun.Core.Id.{strip_prefix}
use jetrun.Server.Verify.{to_ascii_lowercase}

abbrev pub RawHeaders : Type 0
RawHeaders = List (Bytes × Bytes)

-- `str::trim`, on the text of a header.
abbrev pub is_space : ℕ → Bool
is_space c = c == 32 || (leb 9 c && leb c 13)

unfoldable pub trim_start : Bytes → Bytes
trim_start [] = []
trim_start (c ∷ s) = if is_space c then trim_start s else c ∷ s

unfoldable pub trim : Bytes → Bytes
trim s = reverse (trim_start (reverse (trim_start s)))

-- `Headers::from`: of the values that are text, the last under each name.
module _ (to_str : Bytes → Option Bytes) where
  abbrev pub collected : Bytes → Option Bytes → RawHeaders → RawHeaders
  collected name none headers = headers
  collected name (some value) headers = insert_key (map to_ascii_lowercase name) value headers

  unfoldable pub collect : RawHeaders → RawHeaders → RawHeaders
  collect [] headers = headers
  collect ((name, value) ∷ raw) headers = collect raw (collected name (to_str value) headers)

  unfoldable pub lookup : RawHeaders → Bytes → Option Bytes
  lookup raw name = get_key name (collect raw [])

  abbrev pub trimmed : Option Bytes → Option Bytes
  trimmed none = none
  trimmed (some token) = some (trim token)

  abbrev pub after_bearer : Option Bytes → Option Bytes
  after_bearer none = none
  after_bearer (some value) = trimmed (strip_prefix (codes "Bearer ") value)

  abbrev pub text_of : Option Bytes → Option Bytes
  text_of none = none
  text_of (some value) = to_str value

  -- The first value of the header.
  unfoldable pub bearer : RawHeaders → Option Bytes
  bearer raw = after_bearer (text_of (get_key (codes "authorization") raw))
