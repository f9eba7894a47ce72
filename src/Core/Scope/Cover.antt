-- ===== src/Core/Scope/Cover.antt =====
-- crates/jet-core/src/authz.rs: grants flow down the hierarchy, and never up.
use jetrun.Prelude.{
  sym, ap, ◌∙◌, ◌≡◌, ◌↔◌, Bool, true, false, ◌||◌, Bytes, bytes_eq, bytes_eq_iff, bytes_eq_refl,
}
use jetrun.Core.Id.{org_id, project_id, pipeline_id, TypedId, IdKind, to_canonical}
use jetrun.Core.Scope.{
  Scope, org_scope, project_scope, pipeline_scope, scope_kind, scope_kind_eq, covered_by,
}

-- `IsWithin s t`: the scope `s` is `t` or lies below it, with all of `t`'s ancestors for its own.
abbrev pub IsWithin : {Ulid : Type 0} → Scope Ulid → Scope Ulid → Type 0
IsWithin (org_scope o) (org_scope o') = o ≡ o'
IsWithin (org_scope o) (project_scope o' p') = ⊥
IsWithin (org_scope o) (pipeline_scope o' p' l') = ⊥
IsWithin (project_scope o p) (org_scope o') = o ≡ o'
IsWithin (project_scope o p) (project_scope o' p') = (o ≡ o') × (p ≡ p')
IsWithin (project_scope o p) (pipeline_scope o' p' l') = ⊥
IsWithin (pipeline_scope o p l) (org_scope o') = o ≡ o'
IsWithin (pipeline_scope o p l) (project_scope o' p') = (o ≡ o') × (p ≡ p')
IsWithin (pipeline_scope o p l) (pipeline_scope o' p' l') = (o ≡ o') × (p ≡ p') × (l ≡ l')

pub same_id : {Ulid : Type 0} {kind : IdKind} (a b : TypedId kind Ulid) → a.ulid ≡ b.ulid → a ≡ b
same_id a b e = λ i. record { ulid = e i }

or_false : {P : Type 0} {b : Bool} → (b ≡ true) ↔ P → ((b || false) ≡ true) ↔ P
or_false {b = true} e = e
or_false {b = false} e = e

never : (false ≡ true) ↔ ⊥
never = (λ h. cc, λ h. absurd h)

both : {A B C : Type 0} → A ↔ B → B ↔ C → A ↔ C
both f g = (λ a. g.0 (f.0 a), λ c. f.1 (g.1 c))

module _ {Ulid : Type 0} (to_string : Ulid → Bytes) where
  -- The identifier under which a grant at a scope is stored.
  abbrev pub own_id : Scope Ulid → Bytes
  own_id (org_scope o) = to_canonical to_string o
  own_id (project_scope o p) = to_canonical to_string p
  own_id (pipeline_scope o p l) = to_canonical to_string l

  -- Two ULIDs with one text are one.
  module _ (injective : (a b : Ulid) → to_string a ≡ to_string b → a ≡ b) where
    pub canonical_iff :
        (kind : IdKind) (a b : TypedId kind Ulid)
        → (bytes_eq (to_canonical to_string a) (to_canonical to_string b) ≡ true) ↔ (a ≡ b)
    unfolding to_canonical
    canonical_iff kind a b = (
      λ h. same_id a b (injective a.ulid b.ulid ((bytes_eq_iff _ _).0 h)),
      λ e. rw e (bytes_eq_refl (to_string b.ulid)),
    )

    -- The hierarchy: the organization of each project and the project of each pipeline.
    module _ (org_of : TypedId project_id Ulid → TypedId org_id Ulid)
        (project_of : TypedId pipeline_id Ulid → TypedId project_id Ulid) where
      -- A scope names the ancestors that the hierarchy gives it.
      abbrev pub IsPlaced : Scope Ulid → Type 0
      IsPlaced (org_scope o) = Unit
      IsPlaced (project_scope o p) = o ≡ org_of p
      IsPlaced (pipeline_scope o p l) = (p ≡ project_of l) × (o ≡ org_of p)

      same_project :
          {o o' : TypedId org_id Ulid} {p p' : TypedId project_id Ulid}
          → o ≡ org_of p
          → o' ≡ org_of p'
          → (p ≡ p') ↔ ((o ≡ o') × (p ≡ p'))
      same_project h h' = (λ q. (h ∙ ap org_of q ∙ sym h', q), λ q. q.1)

      same_pipeline :
          {o o' : TypedId org_id Ulid} {p p' : TypedId project_id Ulid}
          {l l' : TypedId pipeline_id Ulid}
          → (p ≡ project_of l) × (o ≡ org_of p)
          → (p' ≡ project_of l') × (o' ≡ org_of p')
          → (l ≡ l') ↔ ((o ≡ o') × (p ≡ p') × (l ≡ l'))
      same_pipeline (g, h) (g', h') =
          (λ q. let e = g ∙ ap project_of q ∙ sym g' in (h ∙ ap org_of e ∙ sym h', e, q), λ q. q.2)

      -- When no two ULIDs have one text, and both scopes name the organization of their project and the
      -- project of their pipeline: a grant at a scope covers exactly the scopes that are it or lie below
      -- it. It never reaches a scope above it, a sibling, or another organization.
      pub covered_by_iff :
          (s t : Scope Ulid)
          → IsPlaced s
          → IsPlaced t
          → (covered_by to_string s (scope_kind t) (own_id t) ≡ true) ↔ IsWithin s t
      unfolding covered_by scope_kind scope_kind_eq
      covered_by_iff (org_scope o) (org_scope o') _ _ = or_false (canonical_iff _ o o')
      covered_by_iff (org_scope o) (project_scope o' p') _ _ = never
      covered_by_iff (org_scope o) (pipeline_scope o' p' l') _ _ = never
      covered_by_iff (project_scope o p) (org_scope o') _ _ = or_false (canonical_iff _ o o')
      covered_by_iff (project_scope o p) (project_scope o' p') h h' =
          both (or_false (canonical_iff _ p p')) (same_project h h')
      covered_by_iff (project_scope o p) (pipeline_scope o' p' l') _ _ = never
      covered_by_iff (pipeline_scope o p l) (org_scope o') _ _ = or_false (canonical_iff _ o o')
      covered_by_iff (pipeline_scope o p l) (project_scope o' p') h h' =
          both (or_false (canonical_iff _ p p')) (same_project (h.1) h')
      covered_by_iff (pipeline_scope o p l) (pipeline_scope o' p' l') h h' =
          both (or_false (canonical_iff _ l l')) (same_pipeline h h')
