-- ===== src/Security/Credentials/Tests.antt =====
-- Tests of security/credentials.py on concrete tokens.
use Prim.Native.String
use scrappy_os.Prelude.{String, ◌≡◌, ◌≢◌, ◌↔◌, ◌≤◌, refl, none, some, true, false}
use scrappy_os.Security.Credentials.{
  parse_token, format_token, is_credential_id, verify_secret, Hmac,
}
use scrappy_os.Security.Credentials.Tokens.{parse_token_iff}

abbrev sample_token : String
sample_token = "scrp_0123456789ab_s3_cret"

abbrev sample_secret : String
sample_secret = "s3_cret"

abbrev sample_id : String
sample_id = "cred_0123456789ab"

abbrev toy_hmac : Hmac
toy_hmac pepper secret = String.◌++◌ pepper secret

format_token-sample : format_token sample_id "s3_cret" ≡ some sample_token
unfolding format_token
format_token-sample = refl

parse_token-sample : parse_token sample_token ≡ some (sample_id, "s3_cret")
unfolding parse_token
parse_token-sample = refl

parse_token-short : parse_token "scrp_0123456789a_s3" ≡ none
unfolding parse_token
parse_token-short = refl

parse_token-empty : parse_token "scrp_0123456789ab_" ≡ none
unfolding parse_token
parse_token-empty = refl

is_credential_id-newline : is_credential_id "cred_0123456789ab\n" ≡ true
unfolding is_credential_id
is_credential_id-newline = refl

verify_secret-sample : verify_secret toy_hmac "abc" "pepperabc" "pepper" ≡ true
unfolding verify_secret
verify_secret-sample = refl

verify_secret-no_pepper : verify_secret toy_hmac "abc" "abc" "" ≡ false
unfolding verify_secret
verify_secret-no_pepper = refl

parse_token_iff_example : (parse_token sample_token ≡ some (sample_id, sample_secret)) ↔ (
    (format_token sample_id sample_secret ≡ some sample_token)
    × (sample_secret ≢ "")
    × (String.count sample_token ≤ 512))
parse_token_iff_example = parse_token_iff sample_token sample_id sample_secret
