-- ===== src/Security/AuditEvents/Content.antt =====
-- What of a payload the audit trail and the ledger of tool calls hold.
use scrappy_os.Prelude.{◌≡◌, ap, false, List, [], ◌∷◌, ◌++◌}
use scrappy_os.Core.Values.{Json, JsonFields, end}
use scrappy_os.Core.Calls.{ToolCall}
use scrappy_os.Observability.Redaction.{Texts, is_null, redact_payload}
use scrappy_os.Observability.Redaction.Secrets.{fields_with_secrets, redact_payload-with_secrets}
use scrappy_os.Security.Audit.{LedgerRow, record_call}
use scrappy_os.Security.AuditEvents.{AuditEvent, AuditRow, Codec, encode, record_event}

abbrev row_of : Codec → AuditEvent → JsonFields → AuditRow
row_of k e redacted =
    let stored = encode k redacted in
    record { event = record e { payload = end }; payload = stored.0; payload_sha256 = stored.1 }

-- No secret reaches the audit trail: an event whose payload has other values under its sensitive
-- keys leaves the same table, the digest included. Whether a secret is null is the exception.
pub record_event-with_secrets :
    (k : Codec) (other : Json → Json) (e : AuditEvent) (rows : List AuditRow)
    → ((v : Json) → is_null (other v) ≡ false)
    → record_event k (record e { payload = fields_with_secrets other e.payload }) rows
      ≡ record_event k e rows
unfolding record_event
record_event-with_secrets k other e rows filled =
    ap (λ redacted. rows ++ row_of k e redacted ∷ [])
      (redact_payload-with_secrets k.texts other filled e.payload)

-- No secret reaches the ledger of tool calls: a call whose arguments have other values under their
-- sensitive keys leaves the same ledger. Whether a secret is null is the exception.
pub record_call-with_secrets :
    (texts : Texts) (other : Json → Json) (call : ToolCall) (rows : List LedgerRow)
    → ((v : Json) → is_null (other v) ≡ false)
    → record_call
        (redact_payload texts)
        (record call { arguments = fields_with_secrets other call.arguments })
        rows
      ≡ record_call (redact_payload texts) call rows
unfolding record_call
record_call-with_secrets texts other call rows filled =
    ap (λ (redacted : JsonFields). record_call (λ _. redacted) call rows)
      (redact_payload-with_secrets texts other filled call.arguments)
