-- ===== src/Core/Identity.antt =====
-- src/scrappy_os/core/identity.py: actors and the scopes that they hold.
-- A frozenset of scopes is a list, read only through membership; `metadata` is a list of entries.
pub mod Scopes
use Prim.Native.String
use scrappy_os.Prelude.{
  String, Bool, true, false, not, ◌&&◌, Option, none, some, List, [], ◌∷◌, leb, any, ◌==◌,
  if◌then◌else◌,
}

pub data ActorType : Type 0 where
  human service node system : ActorType

pub data AuthMethod : Type 0 where
  no_method bearer_token local_process internal : AuthMethod

abbrev pub is_no_method : AuthMethod → Bool
is_no_method no_method = true
is_no_method _ = false

pub data Scope : Type 0 where
  task_create task_read approval_read approval_grant audit_read system_read : Scope

-- The members' string values.
abbrev pub scope_value : Scope → String
scope_value task_create = "task:create"
scope_value task_read = "task:read"
scope_value approval_read = "approval:read"
scope_value approval_grant = "approval:grant"
scope_value audit_read = "audit:read"
scope_value system_read = "system:read"

abbrev pub all_scopes : List Scope
all_scopes =
    task_create ∷ task_read ∷ approval_read ∷ approval_grant ∷ audit_read ∷ system_read ∷ []

abbrev pub read_only_scopes : List Scope
read_only_scopes = task_read ∷ audit_read ∷ system_read ∷ approval_read ∷ []

-- Members of a `StrEnum` are compared by value.
abbrev pub scope_eq : Scope → Scope → Bool
scope_eq a b = scope_value a == scope_value b

-- `scope in scopes`
abbrev pub holds : List Scope → Scope → Bool
holds scopes scope = any (λ s. scope_eq s scope) scopes

pub record Actor : Type 0 where
  pub id : String
  pub actor_type : ActorType
  pub display_name : Option String
  pub scopes : List Scope
  pub auth_method : AuthMethod
  pub metadata : List (String × String)

-- The fields' length limits.
abbrev pub fits_length : String → Bool
fits_length text = leb (String.count text) 128

abbrev pub fits_optional : Option String → Bool
fits_optional none = true
fits_optional (some text) = fits_length text

abbrev pub is_empty_list {ℓ} : {A : Type ℓ} → List A → Bool
is_empty_list [] = true
is_empty_list (_ ∷ _) = false

-- Construction runs the field limits and `_unauthenticated_actors_hold_no_scopes`.
unfoldable pub make_actor : Actor → Option Actor
make_actor a =
    if leb 1 (String.count a.id) && fits_length a.id && fits_optional a.display_name
    then if is_no_method a.auth_method && not (is_empty_list a.scopes) then none else some a
    else none

unfoldable pub has_scope : Actor → Scope → Bool
has_scope a scope = holds a.scopes scope

-- `self.scopes & scopes`
unfoldable pub intersect : List Scope → List Scope → List Scope
intersect [] kept = []
intersect (s ∷ scopes) kept =
    let rest = intersect scopes kept in if holds kept s then s ∷ rest else rest

-- `model_copy` does not validate again.
unfoldable pub with_scopes : Actor → List Scope → Actor
with_scopes a kept = record a { scopes = intersect a.scopes kept }

abbrev pub system_actor : Actor
system_actor = record {
  id = "scrappy";
  actor_type = system;
  display_name = some "Scrappy OS runtime";
  scopes = [];
  auth_method = internal;
  metadata = [];
}

abbrev pub anonymous_actor : Actor
anonymous_actor = record {
  id = "anonymous";
  actor_type = service;
  display_name = some "unauthenticated";
  scopes = [];
  auth_method = no_method;
  metadata = [];
}

-- With the user name resolved; `getpass` is not modelled.
abbrev pub local_cli_actor : String → Actor
local_cli_actor user = record {
  id = user;
  actor_type = human;
  display_name = some (String.◌++◌ "local user " user);
  scopes = all_scopes;
  auth_method = local_process;
  metadata = [];
}

abbrev pub on_behalf : Option Actor → List (String × String)
on_behalf none = []
on_behalf (some principal) = ("on_behalf_of", principal.id) ∷ []

abbrev pub agent_actor : String → Option Actor → Actor
agent_actor role principal = record {
  id = String.◌++◌ "agent:" role;
  actor_type = system;
  display_name = some (String.◌++◌ role " agent");
  scopes = [];
  auth_method = internal;
  metadata = on_behalf principal;
}
