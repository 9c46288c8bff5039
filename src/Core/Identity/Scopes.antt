-- ===== src/Core/Identity/Scopes.antt =====
-- Scope sets: equality by value, intersection, and the attenuation of actors.
use scrappy_os.Prelude.{◌≡◌, refl, ◌↔◌, true, ◌&&◌, List, [], ◌∷◌, arith, Bool-cases, inl, inr}
use scrappy_os.Core.Identity.{
  Scope, task_create, task_read, approval_read, approval_grant, audit_read, system_read, scope_eq,
  holds, Actor, intersect, with_scopes, has_scope,
}

pub scope_eq_iff : (a b : Scope) → (scope_eq a b ≡ true) ↔ (a ≡ b)
scope_eq_iff task_create task_create = (λ _. refl, λ _. refl)
scope_eq_iff task_read task_read = (λ _. refl, λ _. refl)
scope_eq_iff approval_read approval_read = (λ _. refl, λ _. refl)
scope_eq_iff approval_grant approval_grant = (λ _. refl, λ _. refl)
scope_eq_iff audit_read audit_read = (λ _. refl, λ _. refl)
scope_eq_iff system_read system_read = (λ _. refl, λ _. refl)
scope_eq_iff _ _ = (λ h. cc, λ e. cc)

pub holds-intersect :
    (scopes kept : List Scope) (s : Scope)
    → holds (intersect scopes kept) s ≡ (holds scopes s && holds kept s)
unfolding intersect
holds-intersect [] kept s = refl
holds-intersect (x ∷ scopes) kept s = elim (Bool-cases (scope_eq x s)) [
  | inl same ↦ rw ((scope_eq_iff x s).0 same) (ground (arith, holds-intersect scopes kept s))
  | inr other ↦ ground (arith, holds-intersect scopes kept s)
]

-- Narrowing an actor intersects: it holds a scope afterwards exactly if it held it before and the
-- scope is among those kept.
pub has_scope-with_scopes :
    (a : Actor) (kept : List Scope) (s : Scope)
    → has_scope (with_scopes a kept) s ≡ (has_scope a s && holds kept s)
unfolding has_scope with_scopes
has_scope-with_scopes a kept s = holds-intersect a.scopes kept s
