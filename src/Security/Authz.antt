-- ===== src/Security/Authz.antt =====
-- src/scrappy_os/security/authz.py: does this actor hold the capability this operation needs.
-- A verdict's `reason`, a text for people, is left out; its `rule` names the branch.
pub mod Laws
pub mod Parsing
mod Tests
use scrappy_os.Prelude.{
  String, Bool, true, false, Option, none, some, List, [], ◌∷◌, map, any, ◌==◌, if◌then◌else◌, eqb,
}
use scrappy_os.Prelude.Text.{split_on, strip}
use scrappy_os.Core.Identity.{Scope, scope_value, all_scopes, Actor, is_no_method, has_scope}

-- The `scope: object` that a caller asks for; `other` carries the object's text form.
pub data Requested : Type 0 where
  member : Scope → Requested
  text : String → Requested
  other : String → Requested

abbrev pub rendered : Requested → String
rendered (member s) = scope_value s
rendered (text t) = t
rendered (other t) = t

-- `Scope(text)`: the member with this value.
find_scope : List Scope → String → Option Scope
find_scope [] t = none
find_scope (s ∷ scopes) t = if scope_value s == t then some s else find_scope scopes t

unfoldable pub scope_of_text : String → Option Scope
unfolding find_scope
scope_of_text t = find_scope all_scopes t

unfoldable pub is_known_scope : Requested → Bool
is_known_scope (member s) = true
is_known_scope (text t) = any (λ s. scope_value s == t) all_scopes
is_known_scope (other t) = false

pub record AuthorizationVerdict : Type 0 where
  pub allowed : Bool
  pub actor_id : String
  pub scope : String
  pub rule : String

abbrev verdict : Actor → Requested → Bool → String → AuthorizationVerdict
verdict a r allowed rule = record {
  allowed = allowed;
  actor_id = a.id;
  scope = rendered r;
  rule = rule;
}

-- `required` is `Scope(str(scope))`, which is a member once the scope is known.
abbrev judge : Actor → Requested → Option Scope → AuthorizationVerdict
judge a r none = verdict a r false "unknown-scope"
judge a r (some required) =
    if is_no_method a.auth_method
    then verdict a r false "unauthenticated"
    else if has_scope a required
    then verdict a r true "scope-granted"
    else verdict a r false "missing-scope"

abbrev required_scope : Requested → Option Scope
required_scope (member s) = some s
required_scope r = scope_of_text (rendered r)

unfoldable pub evaluate : Actor → Requested → AuthorizationVerdict
evaluate a r =
    if is_known_scope r then judge a r (required_scope r) else verdict a r false "unknown-scope"

-- `AuthorizationDenied`, or the verdict.
pub data Authorized : Type 0 where
  granted : AuthorizationVerdict → Authorized
  denied : (actor_id scope : String) → Authorized

unfoldable pub authorize : Actor → Requested → Authorized
authorize a r = let v = evaluate a r in if v.allowed then granted v else denied v.actor_id v.scope

-- The loop of `parse_scopes`: the scopes found and the unknown names, in the order met.
abbrev pub add_chunk : String → List Scope × List String → List Scope × List String
add_chunk item (parsed, unknown) =
    if item == "" then (parsed, unknown) else elim (scope_of_text item) [
      | none ↦ (parsed, item ∷ unknown)
      | some s ↦ (s ∷ parsed, unknown)
    ]

collect : List String → List Scope × List String
collect [] = ([], [])
collect (chunk ∷ chunks) = add_chunk (strip chunk) (collect chunks)

-- Either every name was known, or the error carries those that were not.
pub data ParsedScopes : Type 0 where
  scopes : List Scope → ParsedScopes
  unknown_scopes : List String → ParsedScopes

abbrev pub finish : List Scope × List String → ParsedScopes
finish (parsed, []) = scopes parsed
finish (parsed, bad ∷ more) = unknown_scopes (bad ∷ more)

unfoldable pub parse_scopes : String → ParsedScopes
unfolding collect scope_of_text split_on strip
parse_scopes raw = finish (collect (split_on b',' raw))
