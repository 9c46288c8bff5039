-- ===== src/Security/CredentialProtocol.antt =====
-- The protocols `CredentialStore` and `SupportsDeletion` of
-- src/scrappy_os/security/credential_store.py: what the authenticator and the credential service
-- are given, with the laws by which they know it.
pub mod Replay
pub mod Revocation
use scrappy_os.Prelude.{
  ℕ, String, Bool, true, false, Option, none, some, List, [], ◌∷◌, contains, ◌==◌, if◌then◌else◌,
  ◌≡◌,
}
use scrappy_os.Security.Credentials.{Credential, with_revoked_at, with_last_used_at, is_some}

-- Revoking keeps an earlier revocation.
abbrev pub revoked_once : ℕ → Option Credential → Option Credential
revoked_once when none = none
revoked_once when (some c) = if is_some c.revoked_at then some c else some (with_revoked_at when c)

abbrev pub revoked_at_option : Option ℕ → Option Credential → Option Credential
revoked_at_option none c = c
revoked_at_option (some when) c = revoked_once when c

abbrev pub used_at : ℕ → Option Credential → Option Credential
used_at when none = none
used_at when (some c) = some (with_last_used_at when c)

-- The operations on a state `S` of the store; `none` is an exception, after which the state is as
-- it was. `delete_many` is there if the store supports deletion.
pub record CredentialStore (S : Type 0) : Type 0 where
  pub get : String → S → Option Credential
  pub create : Credential → S → Option S
  pub revoke : String → ℕ → S → Option Credential × S
  pub update_last_used : String → ℕ → S → S
  pub rotate : String → Credential → Option ℕ → S → Option (Option Credential × S)
  pub list_credentials : S → List Credential
  pub delete_many : Option (List String → S → S)
  pub create_taken :
      (c : Credential) (s : S) → is_some (get c.credential_id s) ≡ true → create c s ≡ none
  pub create_fresh :
      (c : Credential) (s : S)
      → get c.credential_id s ≡ none
      → (s' : S) × (create c s ≡ some s')
        × ((j : String) → get j s' ≡ (if c.credential_id == j then some c else get j s))
  pub revoke_lem :
      (id : String) (when : ℕ) (s : S)
      → ((revoke id when s).0 ≡ revoked_once when (get id s))
        × ((j : String)
            → get j (revoke id when s).1
              ≡ (if id == j then revoked_once when (get j s) else get j s))
  pub update_last_used_lem :
      (id : String) (when : ℕ) (s : S) (j : String)
      → get j (update_last_used id when s) ≡ (if id == j then used_at when (get j s) else get j s)
  pub rotate_absent :
      (id : String) (c : Credential) (old : Option ℕ) (s : S)
      → get id s ≡ none
      → rotate id c old s ≡ some (none, s)
  pub rotate_taken :
      (id : String) (c : Credential) (old : Option ℕ) (s : S)
      → is_some (get id s) ≡ true
      → is_some (get c.credential_id s) ≡ true
      → rotate id c old s ≡ none
  pub rotate_fresh :
      (id : String) (c : Credential) (old : Option ℕ) (s : S) (existing : Credential)
      → get id s ≡ some existing
      → get c.credential_id s ≡ none
      → (s' : S) × (rotate id c old s ≡ some (some existing, s'))
        × ((j : String)
            → get j s' ≡ (
                if c.credential_id == j
                then some c
                else if id == j
                then revoked_at_option old (get j s)
                else get j s))
  pub delete_many_lem :
      (delete : List String → S → S)
      → delete_many ≡ some delete
      → (ids : List String) (s : S) (j : String)
      → get j (delete ids s) ≡ (if contains ids j then none else get j s)
