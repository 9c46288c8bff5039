-- ===== src/Interface/Security/Scopes.antt =====
-- Which requests are let through to an endpoint.
use scrappy_os.Prelude.{
  String, ◌≡◌, ◌↔◌, refl, ap, ◌∙◌, sym, true, false, Option, none, some, List, [], ◌∷◌, arith,
  Bool-cases, inl, inr,
}
use scrappy_os.Core.Identity.{Actor, Scope, scope_value, is_no_method, has_scope}
use scrappy_os.Security.Authz.Laws.{evaluate-allowed_iff}
use scrappy_os.Security.Authz.{member, evaluate}
use scrappy_os.Security.Authn.{AuthResult, accepted, refused, invalid}
use scrappy_os.Interface.Security.{
  RequestSecurityContext, Request, Site, RequestState, Reply, known, http_error, unhandled,
  presented, authenticated, request_once, authenticate_request, scope_checked, require_scope,
}

-- The header that a request carries, if it carries one at most.
abbrev pub single_header : List String → Option (Option String)
single_header [] = some none
single_header (header ∷ []) = some (some header)
single_header (header ∷ other ∷ headers) = none

abbrev first_context : Request → Actor → RequestSecurityContext
first_context q a = record { actor = a; request_id = q.fresh_id; granted_scope = none }

-- The context of a request that was let through.
abbrev pub granted_context : Request → Scope → Actor → RequestSecurityContext
granted_context q scope a = record {
  actor = a;
  request_id = q.fresh_id;
  granted_scope = some (scope_value scope);
}

abbrev widened : Scope → RequestSecurityContext → RequestSecurityContext
widened scope d = record d { granted_scope = some (scope_value scope) }

module _ {S : Type 0} (site : Site S) where
  presented_iff :
      (headers : List String) (s : S) (a : Actor)
      → ((presented site headers s).0 ≡ accepted a) ↔ (
          (header : Option String) × (single_header headers ≡ some header)
          × ((site.authenticate header s).0 ≡ accepted a))
  unfolding presented
  presented_iff [] s a = (
    λ e. (none, refl, e),
    λ (header, f, e). let same : none ≡ header = cc in ap (λ h. (site.authenticate h s).0) same ∙ e,
  )
  presented_iff (h ∷ []) s a = (
    λ e. (some h, refl, e),
    λ (header, f, e).
        let same : some h ≡ header = cc in ap (λ x. (site.authenticate x s).0) same ∙ e,
  )
  presented_iff (h ∷ other ∷ headers) s a = (λ e. cc, λ (header, f, e). cc)

  authenticated_iff :
      (r : AuthResult Actor × S) (q : Request) (st : RequestState S) (c : RequestSecurityContext)
      → ((authenticated site r q st).0 ≡ known c)
        ↔ ((a : Actor) × (r.0 ≡ accepted a) × (first_context q a ≡ c))
  unfolding authenticated
  authenticated_iff (refused f, s) q st c = (λ e. cc, λ (a, f, e). cc)
  authenticated_iff (invalid, s) q st c = (λ e. cc, λ (a, f, e). cc)
  authenticated_iff (accepted b, s) q st c = (
    λ e. (b, refl, cc),
    λ (a, f, e). let same : b ≡ a = cc in ap (λ x. known (first_context q x)) same ∙ ap known e,
  )

  scope_checked_iff :
      (scope : Scope) (q : Request) (r : Reply × RequestState S) (c : RequestSecurityContext)
      → ((scope_checked site scope q r).0 ≡ known c) ↔ (
          (d : RequestSecurityContext) × (r.0 ≡ known d)
          × ((evaluate d.actor (member scope)).allowed ≡ true)
          × (widened scope d ≡ c))
  unfolding scope_checked
  scope_checked_iff scope q (http_error status detail, st) c = (λ e. cc, λ (d, f, ok_scope, e). cc)
  scope_checked_iff scope q (unhandled, st) c = (λ e. cc, λ (d, f, ok_scope, e). cc)
  scope_checked_iff scope q (known d, st) c =
      elim (Bool-cases (evaluate d.actor (member scope)).allowed) [
        | inl grants ↦ rw grants (
          λ e. (d, refl, grants, cc),
          λ (x, f, g, e).
              let same : d ≡ x = cc in ap (λ y. known (widened scope y)) same ∙ ap known e,
        )
        | inr denies ↦ rw denies (
          λ e. cc,
          λ (x, f, g, e).
              let same : d ≡ x = cc in
              let h : (evaluate d.actor (member scope)).allowed ≡ true =
                ap (λ (y : RequestSecurityContext). (evaluate y.actor (member scope)).allowed) same
                ∙ g in
              ground arith,
        )
      ]

held_iff :
    (a : Actor) (scope : Scope)
    → ((evaluate a (member scope)).allowed ≡ true)
      ↔ ((is_no_method a.auth_method ≡ false) × (has_scope a scope ≡ true))
held_iff a scope = (
  λ e.
      let (s, named, proved, held) = (evaluate-allowed_iff a (member scope)).0 e in
      let f : has_scope a scope ≡ has_scope a s = ap (has_scope a) named in (proved, f ∙ held),
  λ (proved, held). (evaluate-allowed_iff a (member scope)).1 (scope, refl, proved, held),
)

-- A request that was not authenticated before is let through to an endpoint that requires a scope
-- exactly if it carries at most one header, the authenticator accepts that header for an actor, the
-- actor was authenticated by some method and holds the scope; the context that the endpoint is
-- given names this actor and this scope.
pub require_scope-known_iff :
    {S : Type 0} (site : Site S) (scope : Scope) (q : Request) (st : RequestState S)
    (c : RequestSecurityContext)
    → st.security ≡ none
    → ((require_scope site scope q st).0 ≡ known c) ↔ (
        (header : Option String) × (a : Actor) × (single_header q.authorization ≡ some header)
        × ((site.authenticate header st.world).0 ≡ accepted a)
        × (is_no_method a.auth_method ≡ false)
        × (has_scope a scope ≡ true)
        × (granted_context q scope a ≡ c))
unfolding require_scope authenticate_request request_once
require_scope-known_iff {S = S} site scope q st c fresh =
    let r = presented site q.authorization st.world in
    let first : authenticate_request site q st ≡ authenticated site r q st = rw fresh refl in
    let same_reply : (authenticate_request site q st).0 ≡ (authenticated site r q st).0 =
      ap (λ (x : Reply × RequestState S). x.0) first in
    let (sound, complete) = scope_checked_iff site scope q (authenticate_request site q st) c in
    (
      λ e.
          let (d, f, allowed, g) = sound e in
          let (a, named, h) = (authenticated_iff site r q st d).0 (sym same_reply ∙ f) in
          let (header, single, taken) = (presented_iff site q.authorization st.world a).0 named in
          let f : (evaluate a (member scope)).allowed ≡ true =
            ap (λ (y : RequestSecurityContext). (evaluate y.actor (member scope)).allowed) h
            ∙ allowed in
          let (proved, held) = (held_iff a scope).0 f in
          (header, a, single, taken, proved, held, ap (widened scope) h ∙ g),
      λ (header, a, single, taken, proved, held, e).
          let named = (presented_iff site q.authorization st.world a).1 (header, single, taken) in
          let known_a = (authenticated_iff site r q st (first_context q a)).1 (a, named, refl) in
          complete
            (first_context q a, same_reply ∙ known_a, (held_iff a scope).1 (proved, held), e),
    )
