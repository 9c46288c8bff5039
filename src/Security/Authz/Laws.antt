-- ===== src/Security/Authz/Laws.antt =====
-- When a request is authorized, and how scope lists are parsed.
use scrappy_os.Core.Identity.Scopes.{scope_eq_iff, has_scope-with_scopes}
use scrappy_os.Prelude.{
  String, ◌≡◌, refl, sym, ◌↔◌, inl, inr, true, false, none, some, arith, eq_iff, Bool-cases,
  Option-cases, List,
}
use scrappy_os.Core.Identity.{
  Scope, task_create, scope_value, Actor, is_no_method, has_scope, with_scopes, holds,
}
use scrappy_os.Security.Authz.{
  Requested, member, text, other, scope_of_text, is_known_scope, evaluate,
}

-- A text that the lookup finds is the value of the scope found, and every value is found.
pub scope_of_text-value : (s : Scope) → scope_of_text (scope_value s) ≡ some s
unfolding scope_of_text
scope_of_text-value task_create = refl
scope_of_text-value _ = refl

pub scope_of_text_sound : (t : String) (s : Scope) → scope_of_text t ≡ some s → scope_value s ≡ t
unfolding scope_of_text
scope_of_text_sound t s h = ground (
  arith,
  eq_iff "task:create" t,
  eq_iff "task:read" t,
  eq_iff "approval:read" t,
  eq_iff "approval:grant" t,
  eq_iff "audit:read" t,
  eq_iff "system:read" t,
)

is_known_scope-text : (t : String) → is_known_scope (text t) ≡ false → scope_of_text t ≡ none
unfolding scope_of_text is_known_scope
is_known_scope-text t h = ground arith

-- The capability that a request names, if it names one.
abbrev pub Names : Requested → Scope → Type 0
Names (member s) required = s ≡ required
Names (text t) required = t ≡ scope_value required
Names (other t) required = ⊥

-- An operation is authorized exactly when what it asks for names a scope of this build, the actor
-- was authenticated by some method, and the actor holds that scope.
pub evaluate-allowed_iff :
    (a : Actor) (r : Requested)
    → ((evaluate a r).allowed ≡ true)
      ↔ ((s : Scope) × Names r s × (is_no_method a.auth_method ≡ false) × (has_scope a s ≡ true))
unfolding evaluate is_known_scope
evaluate-allowed_iff a (member s) = (
  λ h. (s, refl, ground arith, ground arith),
  λ (required, e, proved, held). rw (e, proved) (rw held),
)
evaluate-allowed_iff a (text t) = (
  λ h. elim (Option-cases (scope_of_text t)) [
    | inl missing ↦ absurd (ground arith)
    | inr (s, found) ↦ (s, sym (scope_of_text_sound t s found), ground arith, ground arith)
  ],
  λ (required, e, proved, held).
      let found = scope_of_text-value required in
      let known = Bool-cases (is_known_scope (text t)) in ground (arith, is_known_scope-text t),
)
evaluate-allowed_iff a (other t) = (λ h. absurd (unfold is_known_scope in cc), λ h. absurd h.1)

-- A request names at most one scope.
Names-unique : (r : Requested) (s s' : Scope) → Names r s → Names r s' → s ≡ s'
Names-unique (member x) s s' h h' = cc
Names-unique (text t) s s' h h' =
    (scope_eq_iff s s').0 ((eq_iff (scope_value s) (scope_value s')).1 (cc))
Names-unique (other t) s s' h h' = absurd h

-- Narrowing an actor never adds authority, and takes away exactly what was not kept: the narrowed
-- actor is authorized for a request exactly if the actor was and the scope named is among those
-- kept.
pub evaluate-with_scopes :
    (a : Actor) (kept : List Scope) (r : Requested)
    → ((evaluate (with_scopes a kept) r).allowed ≡ true)
      ↔ (((evaluate a r).allowed ≡ true) × (s : Scope) × Names r s × (holds kept s ≡ true))
evaluate-with_scopes a kept r = (
  λ h.
      let (s, names, proved, held) = (evaluate-allowed_iff (with_scopes a kept) r).0 h in
      let both = has_scope-with_scopes a kept s in
      (
        (evaluate-allowed_iff a r).1 (s, names, unfold with_scopes in proved, ground arith),
        s,
        names,
        ground arith,
      ),
  λ (h, s, names, keep).
      let (s', names', proved, held) = (evaluate-allowed_iff a r).0 h in
      let same = Names-unique r s' s names' names in
      (evaluate-allowed_iff (with_scopes a kept) r).1
        (s, names, unfold with_scopes in proved, rw (has_scope-with_scopes, keep) (ground arith)),
)
