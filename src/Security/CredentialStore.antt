-- ===== src/Security/CredentialStore.antt =====
-- src/scrappy_os/security/credential_store.py: where credentials live.
-- `CredentialStore` is the protocol, with the laws that its clients rely on; the other definitions
-- are its SQLite implementation on a list of rows. Columns of times and enumerations hold the
-- values that their text stands for. The order of `list` by creation time is left out.
pub mod Rows
pub mod Laws
pub mod Runs
pub mod Samples
mod Tests
use scrappy_os.Prelude.{
  ℕ, String, Bool, true, false, not, Option, none, some, List, [], ◌∷◌, ◌++◌, map, contains, length,
  ◌==◌, if◌then◌else◌, ◌≡◌, ◌+◌,
}
use scrappy_os.Core.Identity.{ActorType, AuthMethod, Scope, scope_value}
use scrappy_os.Security.Authz.{scope_of_text}
use scrappy_os.Security.Credentials.{
  Credential, with_revoked_at, with_last_used_at, is_some, is_usable_at,
}

-- A row of the `credentials` table; its scopes are texts.
pub record CredentialRow : Type 0 where
  pub credential_id : String
  pub actor_id : String
  pub actor_type : ActorType
  pub display_name : Option String
  pub scopes : List String
  pub verifier : String
  pub created_at : ℕ
  pub expires_at : Option ℕ
  pub revoked_at : Option ℕ
  pub last_used_at : Option ℕ
  pub auth_method : AuthMethod
  pub metadata : List (String × String)

abbrev pub keep_scope : Option Scope → List Scope → List Scope
keep_scope none scopes = scopes
keep_scope (some s) scopes = s ∷ scopes

-- Unknown scopes are dropped.
unfoldable pub load_scopes : List String → List Scope
unfolding scope_of_text
load_scopes [] = []
load_scopes (name ∷ names) = keep_scope (scope_of_text name) (load_scopes names)

-- `_row_to_credential`. What was validated when the row was written is not validated again.
unfoldable pub row_to_credential : CredentialRow → Credential
unfolding load_scopes
row_to_credential row = record {
  credential_id = row.credential_id;
  actor_id = row.actor_id;
  actor_type = row.actor_type;
  display_name = row.display_name;
  scopes = load_scopes row.scopes;
  verifier = row.verifier;
  created_at = row.created_at;
  expires_at = row.expires_at;
  revoked_at = row.revoked_at;
  last_used_at = row.last_used_at;
  auth_method = row.auth_method;
  metadata = row.metadata;
}

-- `_credential_params`
unfoldable pub credential_params : Credential → CredentialRow
credential_params c = record {
  credential_id = c.credential_id;
  actor_id = c.actor_id;
  actor_type = c.actor_type;
  display_name = c.display_name;
  scopes = map scope_value c.scopes;
  verifier = c.verifier;
  created_at = c.created_at;
  expires_at = c.expires_at;
  revoked_at = c.revoked_at;
  last_used_at = c.last_used_at;
  auth_method = c.auth_method;
  metadata = c.metadata;
}

-- `SELECT * FROM credentials WHERE credential_id = ?`
unfoldable pub find_row : String → List CredentialRow → Option CredentialRow
find_row id [] = none
find_row id (row ∷ rows) = if row.credential_id == id then some row else find_row id rows

-- `UPDATE credentials SET ... WHERE credential_id = ?`
unfoldable pub update_row :
    String → (CredentialRow → CredentialRow) → List CredentialRow → List CredentialRow
update_row id change [] = []
update_row id change (row ∷ rows) =
    (if row.credential_id == id then change row else row) ∷ update_row id change rows

-- `DELETE FROM credentials WHERE credential_id = ?`
unfoldable pub delete_row : String → List CredentialRow → List CredentialRow
delete_row id [] = []
delete_row id (row ∷ rows) =
    let rest = delete_row id rows in if row.credential_id == id then rest else row ∷ rest

abbrev pub load : Option CredentialRow → Option Credential
load none = none
load (some row) = some (row_to_credential row)

unfoldable pub get : String → List CredentialRow → Option Credential
unfolding find_row row_to_credential
get id rows = load (find_row id rows)

insert_row : Option CredentialRow → Credential → List CredentialRow → Option (List CredentialRow)
unfolding credential_params
insert_row none c rows = some (rows ++ credential_params c ∷ [])
insert_row (some _) c rows = none

-- `create`; `none` is the `CredentialError` of an id that is taken.
unfoldable pub create : Credential → List CredentialRow → Option (List CredentialRow)
unfolding insert_row find_row
create c rows = insert_row (find_row c.credential_id rows) c rows

abbrev pub set_revoked : ℕ → CredentialRow → CredentialRow
set_revoked when row = record row { revoked_at = some when }

abbrev pub set_used : ℕ → CredentialRow → CredentialRow
set_used when row = record row { last_used_at = some when }

revoke_found :
    Option Credential → String → ℕ → List CredentialRow → Option Credential × List CredentialRow
unfolding update_row
revoke_found none id when rows = (none, rows)
revoke_found (some existing) id when rows =
    if is_some existing.revoked_at
    then (some existing, rows)
    else (some (with_revoked_at when existing), update_row id (set_revoked when) rows)

-- `revoke`
unfoldable pub revoke : String → ℕ → List CredentialRow → Option Credential × List CredentialRow
unfolding revoke_found get
revoke id when rows = revoke_found (get id rows) id when rows

-- `update_last_used`
unfoldable pub update_last_used : String → ℕ → List CredentialRow → List CredentialRow
unfolding update_row
update_last_used id when rows = update_row id (set_used when) rows

revoke_old : Option ℕ → Credential → String → List CredentialRow → List CredentialRow
unfolding update_row
revoke_old none existing id rows = rows
revoke_old (some when) existing id rows =
    if is_some existing.revoked_at then rows else update_row id (set_revoked when) rows

-- The transaction of `rotate`, once the replacement is inserted; a failure rolls back.
rotated :
    Option (List CredentialRow)
    → Credential
    → String
    → Option ℕ
    → List CredentialRow
    → Option (Option Credential × List CredentialRow)
unfolding revoke_old
rotated none existing id revoke_old_at rows = none
rotated (some rows') existing id revoke_old_at rows =
    some (some existing, revoke_old revoke_old_at existing id rows')

rotate_found :
    Option Credential
    → String
    → Credential
    → Option ℕ
    → List CredentialRow
    → Option (Option Credential × List CredentialRow)
unfolding rotated create
rotate_found none id replacement revoke_old_at rows = some (none, rows)
rotate_found (some existing) id replacement revoke_old_at rows =
    rotated (create replacement rows) existing id revoke_old_at rows

-- `rotate`; `none` is an exception, which leaves the table as it was.
unfoldable pub rotate :
    String
    → Credential
    → Option ℕ
    → List CredentialRow
    → Option (Option Credential × List CredentialRow)
unfolding rotate_found get
rotate id replacement revoke_old_at rows =
    rotate_found (get id rows) id replacement revoke_old_at rows

-- `delete_many`, with the number that it reports.
pub delete_each : List String → List CredentialRow → List CredentialRow
unfolding delete_row
delete_each [] rows = rows
delete_each (id ∷ ids) rows = delete_each ids (delete_row id rows)

unfoldable pub delete_many : List String → List CredentialRow → ℕ × List CredentialRow
unfolding delete_each
delete_many ids rows = (length ids, delete_each ids rows)

abbrev of_actor : Option String → CredentialRow → Bool
of_actor none row = true
of_actor (some actor) row = row.actor_id == actor

-- `list`
unfoldable pub list_credentials : Option String → List CredentialRow → List Credential
unfolding row_to_credential
list_credentials actor [] = []
list_credentials actor (row ∷ rows) =
    let rest = list_credentials actor rows in
    if of_actor actor row then row_to_credential row ∷ rest else rest

count_usable : ℕ → List Credential → ℕ
unfolding is_usable_at
count_usable now [] = 0
count_usable now (c ∷ cs) = (if is_usable_at c now then 1 else 0) + count_usable now cs

-- `count_active`
unfoldable pub count_active : ℕ → List CredentialRow → ℕ
unfolding count_usable list_credentials
count_active now rows = count_usable now (list_credentials none rows)
