-- ===== src/Core/Tests.antt =====
-- crates/jet-core: identifiers, scopes and roles on examples. An identifier is a number, whose text is
-- that many letters.
use jetrun.Core.Id.{IdKind, TypedId, run_id, to_canonical, to_debug, from_str}
use jetrun.Core.Id.RoundTrip.{from_str-printed}
use jetrun.Core.Scope.{project_scope, pipeline_scope, scope_kind, covered_by}
use jetrun.Core.Scope.Cover.{IsWithin, own_id, covered_by_iff}
use jetrun.Core.Permission.{Permission, secret_read, billing_manage, holds}
use jetrun.Core.Role.{permissions, owner, admin, viewer, billing}
use jetrun.Core.Role.Ladder.{rank, Lower, permissions_ladder, permissions_reserved}
use jetrun.Prelude.{
  zero, suc, sym, ap, ◌∙◌, ◌≢◌, ◌↔◌, ◌⊎◌, inl, inr, true, false, arith, In, ok, ℕ, ◌≡◌, refl,
  Option, some, [], ◌∷◌, Bytes,
}

abbrev text : ℕ → Bytes
text zero = []
text (suc n) = b'A' ∷ text n

abbrev count : Bytes → ℕ
count [] = 0
count (x ∷ s) = suc (count s)

abbrev parsed : Bytes → Option ℕ
parsed s = some (count s)

count-text : (n : ℕ) → count (text n) ≡ n
count-text zero = refl
count-text (suc n) = ap suc (count-text n)

parsed-text : (n : ℕ) → parsed (text n) ≡ some n
parsed-text n = ap some (count-text n)

text-injective : (a b : ℕ) → text a ≡ text b → a ≡ b
text-injective a b h = sym (count-text a) ∙ (ap count h ∙ count-text b)

no_underscore : (n : ℕ) → ¬ In b'_' (text n)
no_underscore zero m = absurd m
no_underscore (suc n) (inl q) = absurd (differ q)
  where
    differ : ◌≢◌ {A = ℕ} 95 65
    differ q = omega arith
no_underscore (suc n) (inr m) = no_underscore n m

abbrev id : {kind : IdKind} → ℕ → TypedId kind ℕ
id n = record { ulid = n }

from_str-printed_example :
    (from_str parsed run_id (to_canonical text (id {kind = run_id} 3)) ≡ ok (id 3))
    × (from_str parsed run_id (to_debug text run_id (id 3)) ≡ ok (id 3))
from_str-printed_example = from_str-printed text parsed parsed-text no_underscore run_id (id 3)

-- A grant at a project covers its pipeline.
covered_by_iff_example :
    (covered_by text
        (pipeline_scope (id 1) (id 3) (id 4))
        (scope_kind (project_scope (id 1) (id 3)))
        (own_id text (project_scope (id 1) (id 3)))
      ≡ true)
    ↔ IsWithin (pipeline_scope (id 1) (id 3) (id 4)) (project_scope (id 1) (id 3))
covered_by_iff_example =
    covered_by_iff text text-injective (λ p. id 1) (λ l. id 3) (pipeline_scope (id 1) (id 3) (id 4))
      (project_scope (id 1) (id 3)) (refl, refl) refl

Lower-rank : Lower (rank viewer) (rank admin)
Lower-rank = omega arith

permissions_ladder_example :
    ((p : Permission) → holds (permissions viewer) p ≡ true → holds (permissions admin) p ≡ true)
    × ((p : Permission) × (holds (permissions admin) p ≡ true)
        × (holds (permissions viewer) p ≡ false))
permissions_ladder_example = permissions_ladder viewer admin Lower-rank

permissions_reserved_example :
    ((holds (permissions admin) secret_read ≡ true) ↔ (admin ≡ owner))
    × ((holds (permissions admin) billing_manage ≡ true) ↔ ((admin ≡ owner) ⊎ (admin ≡ billing)))
permissions_reserved_example = permissions_reserved admin
