-- ===== src/Security/Authz/Tests.antt =====
-- Runs of the authorizer, and the theorems at concrete inputs.
use scrappy_os.Security.Authz.Parsing.{IsReading, IsGood, parse_scopes_iff}
use scrappy_os.Security.Authz.Laws.{Names, evaluate-allowed_iff, evaluate-with_scopes}
use scrappy_os.Prelude.{◌≢◌, ◌≡◌, refl, ◌↔◌, true, false, none, List, [], ◌∷◌, All, String}
use scrappy_os.Prelude.Text.{split_on}
use scrappy_os.Core.Identity.{
  Scope, task_read, audit_read, approval_grant, Actor, human, bearer_token, holds, has_scope,
  with_scopes, is_no_method, anonymous_actor,
}
use scrappy_os.Security.Authz.{
  member, text, evaluate, parse_scopes, scopes, unknown_scopes, is_known_scope, scope_of_text,
}

abbrev reader : Actor
reader = record {
  id = "ann";
  actor_type = human;
  display_name = none;
  scopes = task_read ∷ audit_read ∷ [];
  auth_method = bearer_token;
  metadata = [];
}

rules :
    ((evaluate reader (text "task:read")).rule ≡ "scope-granted")
    × ((evaluate reader (text "task:crate")).rule ≡ "unknown-scope")
    × ((evaluate reader (member approval_grant)).rule ≡ "missing-scope")
    × ((evaluate anonymous_actor (member task_read)).rule ≡ "unauthenticated")
unfolding evaluate is_known_scope scope_of_text has_scope
rules = (refl, refl, refl, refl)

lists :
    (parse_scopes " task:read,audit:read ,," ≡ scopes (task_read ∷ audit_read ∷ []))
    × (parse_scopes "task:read,task:crate" ≡ unknown_scopes ("task:crate" ∷ []))
unfolding parse_scopes
lists = (refl, refl)

evaluate-allowed_iff_example : ((evaluate reader (text "audit:read")).allowed ≡ true) ↔ (
    (s : Scope) × Names (text "audit:read") s
    × (is_no_method reader.auth_method ≡ false)
    × (has_scope reader s ≡ true))
evaluate-allowed_iff_example = evaluate-allowed_iff reader (text "audit:read")

evaluate-with_scopes_example :
    ((evaluate (with_scopes reader (task_read ∷ [])) (text "audit:read")).allowed ≡ true) ↔ (
      ((evaluate reader (text "audit:read")).allowed ≡ true)
      × (s : Scope) × Names (text "audit:read") s
      × (holds (task_read ∷ []) s ≡ true))
evaluate-with_scopes_example = evaluate-with_scopes reader (task_read ∷ []) (text "audit:read")

parse_scopes_iff_example :
    (((parsed : List Scope) × (parse_scopes "task:read, audit:read" ≡ scopes parsed))
      ↔ All IsGood (split_on b',' "task:read, audit:read"))
    × ((parsed : List Scope)
        → parse_scopes "task:read, audit:read" ≡ scopes parsed
        → IsReading (split_on b',' "task:read, audit:read") parsed)
    × ((unknown : List String)
        → parse_scopes "task:read, audit:read" ≡ unknown_scopes unknown
        → (unknown ≢ []) × ¬ All IsGood (split_on b',' "task:read, audit:read"))
parse_scopes_iff_example = parse_scopes_iff "task:read, audit:read"
