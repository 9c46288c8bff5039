-- ===== src/Security/AuditEvents/Tests.antt =====
-- Tests of the audit trail.
use scrappy_os.Prelude.{◌≡◌, ◌≢◌, refl, none, some, [], ◌∷◌, ◌++◌}
use scrappy_os.Core.Identity.{Actor, human, bearer_token}
use scrappy_os.Core.Values.{str, JsonFields, end, field}
use scrappy_os.Core.Tasks.{actor_type_value}
use scrappy_os.Core.Enums.{read}
use scrappy_os.Core.Events.{task_created, make_event, auth_method_value}
use scrappy_os.Observability.Redaction.Secrets.{fields_with_secrets}
use scrappy_os.Security.AuditEvents.{
  AuditEvent, AuditRow, Codec, record_event, on_event, get_field, optional_risk,
}
use scrappy_os.Security.AuditEvents.Content.{record_event-with_secrets}
use scrappy_os.Security.AuditEvents.Attribution.{on_event-make_event}

abbrev toy_codec : Codec
toy_codec = record {
  texts = record { redact_text = λ s. s; decimal = λ n. "many" };
  dumps = λ fields. "{}";
  sha256 = λ s. s;
  repr = λ v. "?";
  draw = λ n. ("id", n);
}

abbrev login_event : AuditEvent
login_event = record {
  id = "id";
  timestamp = 1;
  event_type = task_created;
  task_id = none;
  actor = "scrappy";
  actor_id = none;
  actor_type = none;
  auth_method = none;
  component = "runtime";
  tool_name = none;
  risk = none;
  decision = none;
  success = none;
  duration_ms = none;
  payload = field "password" (str "hunter2") end;
}

abbrev kk : Actor
kk = record {
  id = "kk";
  actor_type = human;
  display_name = none;
  scopes = [];
  auth_method = bearer_token;
  metadata = [];
}

optional_risk-read : optional_risk (some (str "read")) ≡ some read
unfolding optional_risk
optional_risk-read = refl

record_event-with_secrets_example :
    record_event toy_codec
      (record login_event { payload = fields_with_secrets (λ v. str "other") login_event.payload })
      []
    ≡ record_event toy_codec login_event []
record_event-with_secrets_example =
    record_event-with_secrets toy_codec (λ v. str "other") login_event [] (λ v. refl)

kk-filled : kk.id ≢ ""
kk-filled e = cc

abbrev note_payload : JsonFields
note_payload = field "note" (str "hello") end

no-id : get_field "actor_id" note_payload ≡ none
unfolding get_field
no-id = refl

no-type : get_field "actor_type" note_payload ≡ none
unfolding get_field
no-type = refl

no-method : get_field "auth_method" note_payload ≡ none
unfolding get_field
no-method = refl

on_event-make_event_example :
    (row : AuditRow) × (on_event toy_codec
        (make_event task_created none "api" (some kk) note_payload)
        []
      ≡ [] ++ row ∷ [])
    × (row.event.actor_id ≡ some kk.id)
    × (row.event.actor_type ≡ some (actor_type_value kk.actor_type))
    × (row.event.auth_method ≡ some (auth_method_value kk.auth_method))
on_event-make_event_example =
    on_event-make_event toy_codec task_created none "api" kk note_payload [] kk-filled no-id no-type
      no-method
