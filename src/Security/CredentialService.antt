-- ===== src/Security/CredentialService.antt =====
-- src/scrappy_os/security/credential_service.py: credentials issued, revoked, rotated and pruned,
-- over any store of the protocol, with the audit trail.
-- `none` is an exception, with the state that it leaves; the random parts of a credential and the
-- moment are arguments. Each operation changes the store first and records that afterwards; the
-- record may fail, and then the store stays changed.
pub mod Trail
pub mod Pruning
pub mod Rotation
mod Tests
use scrappy_os.Prelude.{
  ℕ, String, Bool, true, false, not, ◌&&◌, Option, none, some, List, [], ◌∷◌, map, ltb, length,
  if◌then◌else◌,
}
use scrappy_os.Core.Identity.{Actor}
use scrappy_os.Core.Tasks.{actor_type_value, label}
use scrappy_os.Core.Values.{bool, str, arr, JsonFields, end, field}
use scrappy_os.Core.Events.{
  EventType, credential_created, credential_rotated, credential_revoked, credential_pruned,
  scope_items, auth_method_value,
}
use scrappy_os.Security.AuditEvents.{Codec, AuditRow, record_event}
use scrappy_os.Security.Credentials.{
  Credential, Hmac, Issue, IssuedCredential, issue_credential, status_at, is_active,
}
use scrappy_os.Security.CredentialProtocol.{CredentialStore}

pub record CredentialService (S : Type 0) : Type 0 where
  pub store : CredentialStore S
  pub codec : Codec
  pub hmac : Hmac
  pub pepper : String
  pub actor : Actor
  pub isoformat : ℕ → String
  -- Whether the audit log carries out a write after so many events; where not, it raises.
  pub accepts : ℕ → Bool

-- The two things that the service changes.
pub record Records (S : Type 0) : Type 0 where
  pub credentials : S
  pub trail : List AuditRow

pub record RotationResult : Type 0 where
  pub issued : IssuedCredential
  pub previous : Credential
  pub previous_revoked : Bool

abbrev pub retired_at : Credential → Option ℕ
retired_at c = elim c.revoked_at [ some t ↦ some t | none ↦ c.expires_at ]

abbrev pub is_before : Option ℕ → ℕ → Bool
is_before none cutoff = false
is_before (some t) cutoff = ltb t cutoff

abbrev pub is_retired : ℕ → ℕ → Credential → Bool
is_retired older_than now c =
    not (is_active (status_at c now)) && is_before (retired_at c) older_than

-- The credentials that `prune` collects.
unfoldable pub retired : ℕ → ℕ → List Credential → List Credential
unfolding status_at
retired older_than now [] = []
retired older_than now (c ∷ cs) =
    let rest = retired older_than now cs in if is_retired older_than now c then c ∷ rest else rest

abbrev pub id_of : Credential → String
id_of c = c.credential_id

module _ {S : Type 0} (sv : CredentialService S) where
  -- The trail with the event of `_record`; the scopes stand in the order held, which the source
  -- sorts.
  pub noted : EventType → Credential → JsonFields → List AuditRow → List AuditRow
  unfolding record_event
  noted event_type c extra rows =
      record_event sv.codec
        (record {
          id = (sv.codec.draw (length rows)).0;
          timestamp = (sv.codec.draw (length rows)).1;
          event_type = event_type;
          task_id = none;
          actor = label sv.actor;
          actor_id = some sv.actor.id;
          actor_type = some (actor_type_value sv.actor.actor_type);
          auth_method = some (auth_method_value sv.actor.auth_method);
          component = "credentials";
          tool_name = none;
          risk = none;
          decision = none;
          success = none;
          duration_ms = none;
          payload = field "credential_id" (str c.credential_id) (
              field "actor_id" (str c.actor_id) (
                field "actor_type" (str (actor_type_value c.actor_type)) (
                  field "scopes" (arr (scope_items c.scopes)) (
                    field "administered_by" (str sv.actor.id)
                      (field "administrator_scopes" (arr (scope_items sv.actor.scopes)) extra)))));
        })
        rows

  -- `_record`: whether the event was recorded, and the trail after it.
  unfoldable pub note : EventType → Credential → JsonFields → List AuditRow → Bool × List AuditRow
  unfolding noted
  note event_type c extra rows =
      let ok = sv.accepts (length rows) in (ok, if ok then noted event_type c extra rows else rows)

  create_stored : Option S → IssuedCredential → Records S → Option IssuedCredential × Records S
  unfolding note
  create_stored none issued r = (none, r)
  create_stored (some s) issued r =
      let (ok, trail) = note credential_created issued.credential end r.trail in
      (if ok then some issued else none, record { credentials = s; trail = trail })

  create_issued : Option IssuedCredential → Records S → Option IssuedCredential × Records S
  unfolding create_stored
  create_issued none r = (none, r)
  create_issued (some issued) r =
      create_stored (sv.store.create issued.credential r.credentials) issued r

  -- `create`
  unfoldable pub create : Issue → Records S → Option IssuedCredential × Records S
  unfolding create_issued issue_credential
  create i r =
      create_issued
        (issue_credential sv.hmac sv.pepper
          (record i { metadata = ("created_by", sv.actor.id) ∷ [] }))
        r

  revoke_noted : Option Credential × S → ℕ → List AuditRow → Option Credential × Records S
  unfolding note
  revoke_noted (none, s) when rows = (none, record { credentials = s; trail = rows })
  revoke_noted (some c, s) when rows =
      let (ok, trail) =
        note credential_revoked c (field "revoked_at" (str (sv.isoformat when)) end) rows in
      (if ok then some c else none, record { credentials = s; trail = trail })

  -- `revoke`
  unfoldable pub revoke : String → ℕ → Records S → Option Credential × Records S
  unfolding revoke_noted
  revoke id when r = revoke_noted (sv.store.revoke id when r.credentials) when r.trail

  -- The next event, once the last is recorded.
  pub then_noted :
      Bool × List AuditRow → (List AuditRow → Bool × List AuditRow) → Bool × List AuditRow
  then_noted (false, rows) next = (false, rows)
  then_noted (true, rows) next = next rows

  unfoldable pub note_rotation :
      String → Bool → ℕ → IssuedCredential → Credential → List AuditRow → Bool × List AuditRow
  unfolding then_noted note
  note_rotation id revoke_previous when issued previous rows =
      then_noted
        (note credential_rotated issued.credential
          (field "rotated_from" (str id) (field "previous_revoked" (bool revoke_previous) end))
          rows)
        (λ rows'.
          if revoke_previous
          then note credential_revoked previous
              (field "revoked_at" (str (sv.isoformat when)) (field "reason" (str "rotation") end))
              rows'
          else (true, rows'))

  rotate_stored :
      Option (Option Credential × S)
      → String
      → Bool
      → ℕ
      → IssuedCredential
      → Records S
      → Option RotationResult × Records S
  unfolding note_rotation
  rotate_stored none id revoke_previous when issued r = (none, r)
  rotate_stored (some (none, s)) id revoke_previous when issued r =
      (none, record { credentials = s; trail = r.trail })
  rotate_stored (some (some previous, s)) id revoke_previous when issued r =
      let (ok, trail) = note_rotation id revoke_previous when issued previous r.trail in
      (
        if ok
            then some (record {
              issued = issued;
              previous = previous;
              previous_revoked = revoke_previous;
            })
            else none,
        record { credentials = s; trail = trail },
      )

  rotate_issued :
      Option IssuedCredential → String → Bool → ℕ → Records S → Option RotationResult × Records S
  unfolding rotate_stored
  rotate_issued none id revoke_previous when r = (none, r)
  rotate_issued (some issued) id revoke_previous when r =
      rotate_stored
        (sv.store.rotate id issued.credential (if revoke_previous then some when else none)
          r.credentials)
        id revoke_previous when issued r

  -- The issue that replaces a credential; what is drawn for it comes with `draw`.
  abbrev pub replacement : Issue → String → Credential → Issue
  replacement draw id existing = record draw {
    actor_id = existing.actor_id;
    actor_type = existing.actor_type;
    scopes = existing.scopes;
    display_name = existing.display_name;
    metadata = ("created_by", sv.actor.id) ∷ ("rotated_from", id) ∷ [];
  }

  rotate_found :
      Option Credential → String → Bool → Issue → ℕ → Records S → Option RotationResult × Records S
  unfolding rotate_issued issue_credential
  rotate_found none id revoke_previous draw when r = (none, r)
  rotate_found (some existing) id revoke_previous draw when r =
      rotate_issued (issue_credential sv.hmac sv.pepper (replacement draw id existing)) id
        revoke_previous when r

  -- `rotate`
  unfoldable pub rotate : String → Bool → Issue → ℕ → Records S → Option RotationResult × Records S
  unfolding rotate_found
  rotate id revoke_previous draw when r =
      rotate_found (sv.store.get id r.credentials) id revoke_previous draw when r

  unfoldable pub note_pruned : List Credential → List AuditRow → Bool × List AuditRow
  unfolding then_noted note
  note_pruned [] rows = (true, rows)
  note_pruned (c ∷ cs) rows = then_noted (note credential_pruned c end rows) (note_pruned cs)

  prune_retired :
      Option (List String → S → S) → List Credential → Records S → Option (List String) × Records S
  unfolding note_pruned
  prune_retired deletes [] r = (some [], r)
  prune_retired none (c ∷ cs) r = (none, r)
  prune_retired (some delete) (c ∷ cs) r =
      let (ok, trail) = note_pruned (c ∷ cs) r.trail in
      (
        if ok then some (map id_of (c ∷ cs)) else none,
        record { credentials = delete (map id_of (c ∷ cs)) r.credentials; trail = trail },
      )

  -- `prune`
  unfoldable pub prune : ℕ → ℕ → Records S → Option (List String) × Records S
  unfolding prune_retired retired
  prune older_than now r =
      prune_retired sv.store.delete_many
        (retired older_than now (sv.store.list_credentials r.credentials)) r
