-- ===== src/Security/CredentialStore/Rows.antt =====
-- How the statements on the `credentials` table change what a lookup finds.
use scrappy_os.Prelude.{
  ℕ, ◌≡◌, refl, String, Option, none, some, List, [], ◌∷◌, ◌++◌, map, contains, ◌==◌, if◌then◌else◌,
  arith, eq_iff,
}
use scrappy_os.Core.Identity.{Scope, scope_value}
use scrappy_os.Security.Authz.Laws.{scope_of_text-value}
use scrappy_os.Security.Credentials.{Credential}
use scrappy_os.Security.CredentialStore.{
  CredentialRow, load_scopes, row_to_credential, credential_params, find_row, update_row,
  delete_row, delete_each, set_revoked, set_used,
}

load_scopes-values : (scopes : List Scope) → load_scopes (map scope_value scopes) ≡ scopes
unfolding load_scopes
load_scopes-values [] = refl
load_scopes-values (s ∷ scopes) = rw (scope_of_text-value s, load_scopes-values scopes) refl

-- A credential that was stored is read back as it was.
pub row_to_credential-params : (c : Credential) → row_to_credential (credential_params c) ≡ c
unfolding row_to_credential credential_params
row_to_credential-params c = rw (load_scopes-values c.scopes) refl

pub find_row-append :
    (id : String) (rows : List CredentialRow) (row : CredentialRow)
    → find_row row.credential_id rows ≡ none
    → find_row id (rows ++ row ∷ [])
      ≡ (if row.credential_id == id then some row else find_row id rows)
unfolding find_row
find_row-append id [] row fresh = refl
find_row-append id (r ∷ rows) row fresh = ground (
  arith,
  eq_iff r.credential_id id,
  eq_iff row.credential_id id,
  eq_iff r.credential_id row.credential_id,
  find_row-append id rows row,
)

abbrev pub changed : (CredentialRow → CredentialRow) → Option CredentialRow → Option CredentialRow
changed change none = none
changed change (some row) = some (change row)

pub find_row-set_revoked :
    (id j : String) (when : ℕ) (rows : List CredentialRow)
    → find_row j (update_row id (set_revoked when) rows)
      ≡ (if id == j then changed (set_revoked when) (find_row j rows) else find_row j rows)
unfolding find_row update_row
find_row-set_revoked id j when [] = ground arith
find_row-set_revoked id j when (r ∷ rows) = ground (
  arith,
  eq_iff r.credential_id id,
  eq_iff r.credential_id j,
  eq_iff id j,
  find_row-set_revoked id j when rows,
)

pub find_row-set_used :
    (id j : String) (when : ℕ) (rows : List CredentialRow)
    → find_row j (update_row id (set_used when) rows)
      ≡ (if id == j then changed (set_used when) (find_row j rows) else find_row j rows)
unfolding find_row update_row
find_row-set_used id j when [] = ground arith
find_row-set_used id j when (r ∷ rows) = ground (
  arith,
  eq_iff r.credential_id id,
  eq_iff r.credential_id j,
  eq_iff id j,
  find_row-set_used id j when rows,
)

find_row-delete_row :
    (id j : String) (rows : List CredentialRow)
    → find_row j (delete_row id rows) ≡ (if id == j then none else find_row j rows)
unfolding find_row delete_row
find_row-delete_row id j [] = ground arith
find_row-delete_row id j (r ∷ rows) = ground (
  arith,
  eq_iff r.credential_id id,
  eq_iff r.credential_id j,
  eq_iff id j,
  find_row-delete_row id j rows,
)

pub find_row-delete_each :
    (ids : List String) (j : String) (rows : List CredentialRow)
    → find_row j (delete_each ids rows) ≡ (if contains ids j then none else find_row j rows)
unfolding delete_each
find_row-delete_each [] j rows = refl
find_row-delete_each (id ∷ ids) j rows =
    ground (arith, find_row-delete_each ids j (delete_row id rows), find_row-delete_row id j rows)

-- A row that is found has the id that was looked for.
pub find_row-id :
    (id : String) (rows : List CredentialRow) (row : CredentialRow)
    → find_row id rows ≡ some row
    → row.credential_id ≡ id
unfolding find_row
find_row-id id [] row e = cc
find_row-id id (r ∷ rows) row e = ground (arith, eq_iff r.credential_id id, find_row-id id rows row)
