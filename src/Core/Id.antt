-- ===== src/Core/Id.antt =====
-- crates/jet-core/src/id.rs: typed identifiers. `Ulid` stands for the type of the crate `ulid`, and
-- the functions that print and parse one are parameters of what uses them.
pub mod RoundTrip
use jetrun.Prelude.{
  Option, none, some, [], ◌∷◌, ◌++◌, ◌==◌, if◌then◌else◌, Result, Bytes, codes, ok, err,
}

-- The identifiers that `typed_id!` declares.
pub data IdKind : Type 0 where
  org_id user_id team_id project_id pipeline_id run_id step_id service_account_id role_id : IdKind
  token_id invitation_id worker_id volume_id secret_id : IdKind

-- `PREFIX`
unfoldable pub prefix : IdKind → Bytes
prefix org_id = codes "org"
prefix user_id = codes "user"
prefix team_id = codes "team"
prefix project_id = codes "proj"
prefix pipeline_id = codes "pipe"
prefix run_id = codes "run"
prefix step_id = codes "step"
prefix service_account_id = codes "sa"
prefix role_id = codes "role"
prefix token_id = codes "tok"
prefix invitation_id = codes "inv"
prefix worker_id = codes "wrk"
prefix volume_id = codes "vol"
prefix secret_id = codes "sec"

-- The structure that `typed_id!` declares for each kind: identifiers of two kinds have two types.
pub record TypedId (kind : IdKind) (Ulid : Type 0) : Type 0 where
  pub ulid : Ulid

pub record IdParseError : Type 0 where
  pub kind : Bytes
  pub got : Bytes

module _ {Ulid : Type 0} (to_string : Ulid → Bytes) where
  -- `to_canonical`, and `Display`.
  unfoldable pub to_canonical : {kind : IdKind} → TypedId kind Ulid → Bytes
  to_canonical id = to_string id.ulid

  -- The text that `Debug` writes.
  unfoldable pub to_debug : (kind : IdKind) → TypedId kind Ulid → Bytes
  to_debug kind id = prefix kind ++ (codes "_" ++ to_string id.ulid)

-- `str::strip_prefix`
unfoldable pub strip_prefix : Bytes → Bytes → Option Bytes
strip_prefix [] s = some s
strip_prefix (p ∷ ps) [] = none
strip_prefix (p ∷ ps) (b ∷ bs) = if p == b then strip_prefix ps bs else none

-- `Option::unwrap_or`
abbrev pub unwrap_or : Option Bytes → Bytes → Bytes
unwrap_or (some x) y = x
unwrap_or none y = y

module _ {Ulid : Type 0} (parse : Bytes → Option Ulid) where
  abbrev typed : (kind : IdKind) → Bytes → Option Ulid → Result (TypedId kind Ulid) IdParseError
  typed kind s (some u) = ok (record { ulid = u })
  typed kind s none = err (record { kind = prefix kind; got = s })

  -- `from_str`
  unfoldable pub from_str : (kind : IdKind) → Bytes → Result (TypedId kind Ulid) IdParseError
  from_str kind s = typed kind s (parse (unwrap_or (strip_prefix (prefix kind ++ codes "_") s) s))
