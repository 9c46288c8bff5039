-- ===== src/Observability/Redaction/Tests.antt =====
-- Tests of observability/redaction.py.
use scrappy_os.Prelude.{◌≡◌, ◌≤◌, refl, true, false}
use scrappy_os.Core.Values.{Json, null, str, arr, obj, nil, cons, end, field}
use scrappy_os.Observability.Redaction.{Texts, is_sensitive_key, redact}
use scrappy_os.Observability.Redaction.Depth.{nesting, nesting-redact}

abbrev toy_texts : Texts
toy_texts = record { redact_text = λ s. s; decimal = λ n. "many" }

abbrev login : Json
login = obj (
    field "user" (str "kk") (
      field "API_Key" (str "abc") (
        field "nested" (arr (cons (obj (field "session" null end)) nil))
          (field "credential_id" (str "cred_0") end))))

is_sensitive_key-token : is_sensitive_key "accessTOKEN" ≡ true
unfolding is_sensitive_key
is_sensitive_key-token = refl

is_sensitive_key-author : is_sensitive_key "author" ≡ true
unfolding is_sensitive_key
is_sensitive_key-author = refl

is_sensitive_key-method : is_sensitive_key "auth_method" ≡ false
unfolding is_sensitive_key
is_sensitive_key-method = refl

redact-login :
    redact toy_texts login
    ≡ obj (
        field "user" (str "kk") (
          field "API_Key" (str "[REDACTED]") (
            field "nested"
              (arr (cons (obj (field "session" null end)) nil))
              (field "credential_id" (str "cred_0") end))))
unfolding redact
redact-login = refl

nesting-redact_example : nesting (redact toy_texts login) ≤ 13
nesting-redact_example = nesting-redact toy_texts login
