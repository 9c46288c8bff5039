-- ===== src/Observability/Redaction.antt =====
-- src/scrappy_os/observability/redaction.py: secrets taken out of a payload.
-- The patterns of `redact_text` run on the regular expressions of the standard library: what they
-- leave of a text is a parameter, and so is the text of the note about a length. Bytes and sets,
-- which JSON does not have, are left out.
pub mod Secrets
pub mod Depth
mod Tests
use Prim.Native.String
use scrappy_os.Prelude.{
  ℕ, String, Bool, true, false, not, ◌&&◌, ◌||◌, List, [], ◌∷◌, any, ltb, if◌then◌else◌, ◌+◌,
}
use scrappy_os.Prelude.Text.{is_lowered, has_lowered, first_chars}
use scrappy_os.Core.Values.{
  Json, null, bool, num, str, arr, obj, JsonItems, nil, cons, JsonFields, end, field,
}

abbrev pub redacted : Json
redacted = str "[REDACTED]"

abbrev pub max_string_length : ℕ
max_string_length = 8192

abbrev pub sensitive_key_parts : List String
sensitive_key_parts =
    "api_key" ∷ "apikey" ∷ "auth" ∷ "authorization" ∷ "cookie" ∷ "credential" ∷ "passwd"
    ∷ "password" ∷ "private_key" ∷ "secret" ∷ "session" ∷ "signature" ∷ "token" ∷ []

abbrev pub non_secret_keys : List String
non_secret_keys =
    "auth_method" ∷ "authentication_method" ∷ "credential_count" ∷ "credential_id" ∷ "rotated_from"
    ∷ []

unfoldable pub is_sensitive_key : String → Bool
unfolding is_lowered has_lowered
is_sensitive_key key =
    if any (λ name. is_lowered key name) non_secret_keys
    then false
    else any (λ part. has_lowered part key) sensitive_key_parts

-- `redact_text`, and how the note on a text that was cut writes its length.
pub record Texts : Type 0 where
  pub redact_text : String → String
  pub decimal : ℕ → String

abbrev pub truncated_note : Texts → String → String
truncated_note texts masked =
    String.◌++◌ (first_chars max_string_length masked)
      (String.◌++◌ "... [truncated " (String.◌++◌ (texts.decimal (String.count masked)) " chars]"))

unfoldable pub shorten : Texts → String → String
unfolding first_chars
shorten texts masked =
    if ltb max_string_length (String.count masked) then truncated_note texts masked else masked

abbrev pub is_null : Json → Bool
is_null null = true
is_null _ = false

abbrev pub hide : Json → Json
hide v = if is_null v then null else redacted

abbrev pub truncated : Json
truncated = str "[TRUNCATED: max depth]"

module _ (texts : Texts) (max_depth : ℕ) where
  mutual
    unfolding shorten is_sensitive_key

    -- `_redact`. A key that stands twice in a payload, which no `dict` has, is kept twice.
    pub redact_at : ℕ → Json → Json
    redact_at depth null = if ltb max_depth depth then truncated else null
    redact_at depth (bool b) = if ltb max_depth depth then truncated else bool b
    redact_at depth (num n) = if ltb max_depth depth then truncated else num n
    redact_at depth (str s) =
        if ltb max_depth depth then truncated else str (shorten texts (texts.redact_text s))
    redact_at depth (arr items) =
        let inner = redact_items (depth + 1) items in
        if ltb max_depth depth then truncated else arr inner
    redact_at depth (obj fields) =
        let inner = redact_fields (depth + 1) fields in
        if ltb max_depth depth then truncated else obj inner

    pub redact_items : ℕ → JsonItems → JsonItems
    redact_items depth nil = nil
    redact_items depth (cons v items) = cons (redact_at depth v) (redact_items depth items)

    pub redact_fields : ℕ → JsonFields → JsonFields
    redact_fields depth end = end
    redact_fields depth (field key v fields) =
        let kept = redact_at depth v in
        field key (if is_sensitive_key key then hide v else kept) (redact_fields depth fields)

abbrev pub default_depth : ℕ
default_depth = 12

-- `redact`
unfoldable pub redact : Texts → Json → Json
unfolding redact_at
redact texts v = redact_at texts default_depth 0 v

abbrev pub fields_of : Json → JsonFields
fields_of (obj fields) = fields
fields_of _ = end

-- `redact` of a payload, which is a `dict`.
unfoldable pub redact_payload : Texts → JsonFields → JsonFields
unfolding redact
redact_payload texts payload = fields_of (redact texts (obj payload))
