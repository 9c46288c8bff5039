-- ===== src/Security/CredentialService/Tests.antt =====
-- Tests of security/credential_service.py over the table of credentials.
use scrappy_os.Prelude.{
  String, ◌≡◌, ◌↔◌, refl, none, some, true, false, List, [], ◌∷◌, contains, Any, ◌==◌,
  if◌then◌else◌,
}
use scrappy_os.Core.Identity.{human, service, local_process}
use scrappy_os.Security.AuditEvents.{Codec}
use scrappy_os.Security.Credentials.{Credential, Issue, IssuedCredential, issue_credential}
use scrappy_os.Security.Credentials.Issues.{issued_for}
use scrappy_os.Security.CredentialProtocol.{revoked_at_option}
use scrappy_os.Security.CredentialStore.{
  CredentialRow, get, delete_many, list_credentials, row_to_credential,
}
use scrappy_os.Security.CredentialStore
use scrappy_os.Security.CredentialStore.Laws.{sqlite_store}
use scrappy_os.Security.CredentialStore.Samples.{toy_hmac, old_id, new_id, old_row, gone_row}
use scrappy_os.Security.CredentialService.{
  CredentialService, Records, note_pruned, note_rotation, retired, rotate, replacement, prune,
  revoke,
}
use scrappy_os.Security.CredentialService.Trail.{revoke_op, administer, administer-silent}
use scrappy_os.Security.CredentialService.Pruning.{IsStale, prune_iff}
use scrappy_os.Security.CredentialService.Rotation.{HasAuthority, rotate_lem}

abbrev toy_codec : Codec
toy_codec = record {
  texts = record { redact_text = λ s. s; decimal = λ n. "many" };
  dumps = λ fields. "{}";
  sha256 = λ s. s;
  repr = λ v. "?";
  draw = λ n. ("id", n);
}

abbrev desk : CredentialService (List CredentialRow)
desk = record {
  store = sqlite_store;
  codec = toy_codec;
  hmac = toy_hmac;
  pepper = "pepper";
  actor = record {
    id = "kk";
    actor_type = human;
    display_name = none;
    scopes = [];
    auth_method = local_process;
    metadata = [];
  };
  isoformat = λ n. "then";
  accepts = λ n. true;
}

abbrev both : Records (List CredentialRow)
both = record { credentials = old_row ∷ gone_row ∷ []; trail = [] }

abbrev sqlite_delete : List String → List CredentialRow → List CredentialRow
sqlite_delete ids rows = (delete_many ids rows).1

prune-both : (prune desk 60 100 both).0 ≡ some (new_id ∷ [])
unfolding prune list_credentials
prune-both = refl

administer-nothing : (administer desk (revoke_op "cred_none" 70) both).trail ≡ both.trail
unfolding revoke CredentialStore.revoke
administer-nothing = refl

administer-silent_example :
    get old_id (administer desk (revoke_op "cred_none" 70) both).credentials
    ≡ get old_id both.credentials
administer-silent_example =
    administer-silent desk (revoke_op "cred_none" 70) both refl administer-nothing old_id

prune_iff_example :
    (ids : List String) × ((prune desk 60 100 both).0 ≡ (
      if (note_pruned desk (retired 60 100 (desk.store.list_credentials both.credentials)) []).0
      then some ids
      else none))
    × ((j : String)
        → (contains ids j ≡ true)
          ↔ Any
              (λ c. (c.credential_id ≡ j) × IsStale 60 100 c)
              (desk.store.list_credentials both.credentials))
    × ((j : String)
        → desk.store.get j (prune desk 60 100 both).1.credentials
          ≡ (if contains ids j then none else desk.store.get j both.credentials))
prune_iff_example = prune_iff desk sqlite_delete 60 100 both refl

abbrev only_old : Records (List CredentialRow)
only_old = record { credentials = old_row ∷ []; trail = [] }

abbrev old_credential : Credential
unfolding row_to_credential
old_credential = row_to_credential old_row

abbrev draw : Issue
draw = record {
  actor_id = "";
  actor_type = service;
  scopes = [];
  display_name = none;
  expires_at = none;
  metadata = [];
  now = 100;
  new_id = new_id;
  secret = "xyz";
}

abbrev new_issued : IssuedCredential
new_issued = record {
  credential = issued_for (replacement desk draw old_id old_credential) "pepperxyz";
  token = "scrp_ba9876543210_xyz";
}

old-found : desk.store.get old_id only_old.credentials ≡ some old_credential
unfolding get
old-found = refl

new-issued :
    issue_credential desk.hmac desk.pepper (replacement desk draw old_id old_credential)
    ≡ some new_issued
unfolding issue_credential row_to_credential
new-issued = refl

new-fresh : desk.store.get new_issued.credential.credential_id only_old.credentials ≡ none
unfolding get
new-fresh = refl

rotate_lem_example :
    HasAuthority old_credential new_issued.credential
    × ((r' : Records (List CredentialRow)) × (rotate desk old_id false draw 100 only_old ≡ (
      if (note_rotation desk old_id false 100 new_issued old_credential []).0
          then some
              (record { issued = new_issued; previous = old_credential; previous_revoked = false })
          else none,
      r',
    ))
        × ((j : String)
            → desk.store.get j r'.credentials ≡ (
                if new_issued.credential.credential_id == j
                then some new_issued.credential
                else if old_id == j
                then revoked_at_option (if false then some 100 else none) (some old_credential)
                else desk.store.get j only_old.credentials)))
rotate_lem_example =
    rotate_lem desk old_id false draw 100 only_old old_credential new_issued old-found new-issued
      new-fresh
