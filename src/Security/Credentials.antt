-- ===== src/Security/Credentials.antt =====
-- src/scrappy_os/security/credentials.py: credentials and the tokens that prove them.
-- HMAC-SHA256 is a parameter, and so are the random id and the random secret. An exception is
-- `none`. Times are numbers, so every one of them is in UTC; `metadata` is a list of entries.
pub mod Cuts
pub mod Tokens
pub mod Issues
mod Tests
use Prim.Native.Char.{Char, code}
use Prim.Native.String
use Prim.Native.String.{[], ◌∷◌}
use scrappy_os.Prelude.{
  ℕ, zero, suc, String, Bool, true, false, not, ◌&&◌, ◌||◌, Option, none, some, List, leb, eqb,
  ◌==◌, if◌then◌else◌, ltb,
}
use scrappy_os.Core.Identity.{
  Actor, ActorType, AuthMethod, bearer_token, Scope, make_actor, fits_optional,
}

abbrev pub token_prefix : String
token_prefix = "scrp"

abbrev pub credential_id_prefix : String
credential_id_prefix = "cred"

abbrev pub id_hex_length : ℕ
id_hex_length = 12

abbrev pub max_token_length : ℕ
max_token_length = 512

abbrev pub is_hex : Char → Bool
is_hex c = (leb b'0' (code c) && leb (code c) b'9') || (leb b'a' (code c) && leb (code c) b'f')

-- `$` of a regular expression: the end, or a last line feed.
abbrev pub at_end : String → Bool
at_end [] = true
at_end (c ∷ []) = eqb (code c) 10
at_end (c ∷ d ∷ s) = false

-- `[0-9a-f]{n}$`
unfoldable pub hex_run : ℕ → String → Bool
hex_run zero s = at_end s
hex_run (suc n) [] = false
hex_run (suc n) (c ∷ s) = is_hex c && hex_run n s

-- What follows a prefix.
unfoldable pub drop_prefix : String → String → Option String
drop_prefix [] s = some s
drop_prefix (p ∷ prefix) [] = none
drop_prefix (p ∷ prefix) (c ∷ s) = if eqb (code p) (code c) then drop_prefix prefix s else none

abbrev hex_after : Option String → Bool
hex_after none = false
hex_after (some s) = hex_run id_hex_length s

-- `_CREDENTIAL_ID_RE`
unfoldable pub is_credential_id : String → Bool
unfolding drop_prefix hex_run
is_credential_id s = hex_after (drop_prefix "cred_" s)

abbrev pub push_char : Char → Option (String × String) → Option (String × String)
push_char c none = none
push_char c (some (a, b)) = some (c ∷ a, b)

-- A text at its first underscore.
unfoldable pub cut : String → Option (String × String)
cut [] = none
cut (c ∷ s) = if eqb (code c) b'_' then some ("", s) else push_char c (cut s)

abbrev pub first_part : String → Option (String × String) → String
first_part s none = s
first_part s (some (a, b)) = a

abbrev pub second_part : Option (String × String) → Option String
second_part none = none
second_part (some (a, b)) = some b

-- `format_token`
format_with : Option String → String → Option String
format_with none secret = none
format_with (some id_hex) secret =
    some (String.◌++◌ "scrp_" (String.◌++◌ id_hex (String.◌++◌ "_" secret)))

unfoldable pub format_token : String → String → Option String
unfolding is_credential_id format_with cut
format_token credential_id secret =
    if is_credential_id credential_id
    then format_with (second_part (cut credential_id)) secret
    else none

-- `parse_token` on the parts that `split("_", 2)` gives, where there are three.
parse_parts : String → String → String → Option (String × String)
unfolding is_credential_id
parse_parts prefix id_hex secret =
    let credential_id = String.◌++◌ "cred_" id_hex in
    if not (prefix == token_prefix) || secret == ""
    then none
    else if is_credential_id credential_id
    then some (credential_id, secret)
    else none

parse_rest : String → Option (String × String) → Option (String × String)
unfolding parse_parts
parse_rest prefix none = none
parse_rest prefix (some (id_hex, secret)) = parse_parts prefix id_hex secret

parse_cut : Option (String × String) → Option (String × String)
unfolding parse_rest cut
parse_cut none = none
parse_cut (some (prefix, rest)) = parse_rest prefix (cut rest)

-- `parse_token`
unfoldable pub parse_token : String → Option (String × String)
unfolding parse_cut cut
parse_token raw =
    if raw == "" || ltb max_token_length (String.count raw) then none else parse_cut (cut raw)

-- HMAC-SHA256 of a secret under a pepper, in hexadecimal digits.
abbrev pub Hmac : Type 0
Hmac = (pepper secret : String) → String

unfoldable pub compute_verifier : Hmac → String → String → Option String
compute_verifier hmac secret pepper = if pepper == "" then none else some (hmac pepper secret)

abbrev pub is_verifier : Option String → String → Bool
is_verifier none expected = false
is_verifier (some candidate) expected = candidate == expected

-- `verify_secret`; the comparison takes constant time in the source.
unfoldable pub verify_secret : Hmac → String → String → String → Bool
unfolding compute_verifier
verify_secret hmac secret expected pepper =
    is_verifier (compute_verifier hmac secret pepper) expected

pub data CredentialStatus : Type 0 where
  active expired revoked : CredentialStatus

pub record Credential : Type 0 where
  pub credential_id : String
  pub actor_id : String
  pub actor_type : ActorType
  pub display_name : Option String
  pub scopes : List Scope
  pub verifier : String
  pub created_at : ℕ
  pub expires_at : Option ℕ
  pub revoked_at : Option ℕ
  pub last_used_at : Option ℕ
  pub auth_method : AuthMethod
  pub metadata : List (String × String)

abbrev pub is_filled : String → ℕ → Bool
is_filled t most = leb 1 (String.count t) && leb (String.count t) most

-- Construction: the field limits and `_well_formed_id`.
unfoldable pub make_credential : Credential → Option Credential
unfolding is_credential_id
make_credential c =
    if is_filled c.credential_id 64
      && is_filled c.actor_id 128
      && fits_optional c.display_name
      && is_filled c.verifier 128
      && is_credential_id c.credential_id
    then some c
    else none

abbrev pub is_past : Option ℕ → ℕ → Bool
is_past none now = false
is_past (some t) now = leb t now

abbrev pub is_some {ℓ} : {A : Type ℓ} → Option A → Bool
is_some none = false
is_some (some a) = true

unfoldable pub status_at : Credential → ℕ → CredentialStatus
status_at c now =
    if is_some c.revoked_at then revoked else if is_past c.expires_at now then expired else active

abbrev pub is_active : CredentialStatus → Bool
is_active active = true
is_active _ = false

unfoldable pub is_usable_at : Credential → ℕ → Bool
unfolding status_at
is_usable_at c now = is_active (status_at c now)

-- `to_actor`; `none` is a refusal of the actor's own validators.
unfoldable pub to_actor : Credential → Option Actor
unfolding make_actor
to_actor c = make_actor (record {
  id = c.actor_id;
  actor_type = c.actor_type;
  display_name = c.display_name;
  scopes = c.scopes;
  auth_method = c.auth_method;
  metadata = List.◌∷◌ ("credential_id", c.credential_id) List.[];
})

abbrev pub with_revoked_at : ℕ → Credential → Credential
with_revoked_at when c = record c { revoked_at = some when }

abbrev pub with_last_used_at : ℕ → Credential → Credential
with_last_used_at when c = record c { last_used_at = some when }

pub record IssuedCredential : Type 0 where
  pub credential : Credential
  pub token : String

-- What `issue_credential` is asked for, and the random parts that it draws.
pub record Issue : Type 0 where
  pub actor_id : String
  pub actor_type : ActorType
  pub scopes : List Scope
  pub display_name : Option String
  pub expires_at : Option ℕ
  pub metadata : List (String × String)
  pub now : ℕ
  pub new_id : String
  pub secret : String

issue_checked : Option Credential → Option String → Option IssuedCredential
issue_checked (some c) (some token) = some (record { credential = c; token = token })
issue_checked (some c) none = none
issue_checked none t = none

issue_verified : Issue → Option String → Option IssuedCredential
unfolding issue_checked make_credential format_token
issue_verified i none = none
issue_verified i (some verifier) =
    issue_checked
      (make_credential (record {
        credential_id = i.new_id;
        actor_id = i.actor_id;
        actor_type = i.actor_type;
        display_name = i.display_name;
        scopes = i.scopes;
        verifier = verifier;
        created_at = i.now;
        expires_at = i.expires_at;
        revoked_at = none;
        last_used_at = none;
        auth_method = bearer_token;
        metadata = i.metadata;
      }))
      (format_token i.new_id i.secret)

unfoldable pub issue_credential : Hmac → String → Issue → Option IssuedCredential
unfolding issue_verified compute_verifier
issue_credential hmac pepper i =
    if is_past i.expires_at i.now
    then none
    else issue_verified i (compute_verifier hmac i.secret pepper)
