-- ===== src/Security/CredentialStore/Samples.antt =====
-- Test data for the stores of credentials.
use Prim.Native.String
use scrappy_os.Prelude.{String, none, some, List, [], ◌∷◌}
use scrappy_os.Core.Identity.{service, bearer_token}
use scrappy_os.Security.Credentials.{Credential, Hmac}
use scrappy_os.Security.CredentialStore.{CredentialRow}
use scrappy_os.Security.CredentialProtocol.Replay.{StoreOp, create_op, revoke_op, use_op, rotate_op}

abbrev pub toy_hmac : Hmac
toy_hmac pepper secret = String.◌++◌ pepper secret

abbrev pub old_id : String
old_id = "cred_0123456789ab"

abbrev pub new_id : String
new_id = "cred_ba9876543210"

abbrev pub old_row : CredentialRow
old_row = record {
  credential_id = old_id;
  actor_id = "ci";
  actor_type = service;
  display_name = none;
  scopes = "system:read" ∷ "made:up" ∷ [];
  verifier = "pepperabc";
  created_at = 10;
  expires_at = some 900;
  revoked_at = none;
  last_used_at = none;
  auth_method = bearer_token;
  metadata = [];
}

abbrev pub gone_row : CredentialRow
gone_row = record old_row { credential_id = new_id; revoked_at = some 50 }

abbrev pub new_credential : Credential
new_credential = record {
  credential_id = new_id;
  actor_id = "ci";
  actor_type = service;
  display_name = none;
  scopes = [];
  verifier = "pepperxyz";
  created_at = 60;
  expires_at = none;
  revoked_at = none;
  last_used_at = none;
  auth_method = bearer_token;
  metadata = [];
}

abbrev pub busy_ops : List StoreOp
busy_ops =
    use_op old_id 20
    ∷ rotate_op old_id new_credential none
    ∷ revoke_op old_id 70
    ∷ create_op new_credential
    ∷ revoke_op old_id 80
    ∷ []
