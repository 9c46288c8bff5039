-- ===== src/Security/Credentials/Tokens.antt =====
-- The token format of src/scrappy_os/security/credentials.py: what a token says and what reads it.

use Prim.Native.String
use Prim.Native.String.{[], ◌∷◌}
use scrappy_os.Prelude.{
  ◌≡◌, refl, ◌∙◌, sym, String, true, Option, none, some, arith, Bool-cases, inl, inr, Option-cases,
  ◌↔◌, ◌≢◌, eq_iff, false, ◌≤◌, ◌==◌,
}
use scrappy_os.Security.Credentials.{
  hex_run, cut, parse_parts, is_credential_id, drop_prefix, format_token, parse_cut, parse_rest,
  parse_token,
}
use scrappy_os.Security.Credentials.Cuts.{
  under, cut-join, join-cut, hex_run-IsPlain, cred, scrp, drop_prefix-append, cons_filled,
}

-- A credential id is the prefix and a run of hexadecimal digits.
is_credential_id-append : (h : String) → is_credential_id (String.◌++◌ "cred_" h) ≡ hex_run 12 h
unfolding is_credential_id
is_credential_id-append h = rw (cred h) refl

pub is_credential_id-split :
    (id : String)
    → is_credential_id id ≡ true
    → (h : String) × (id ≡ String.◌++◌ "cred_" h) × (hex_run 12 h ≡ true)
unfolding is_credential_id
is_credential_id-split id ok = elim (Option-cases (drop_prefix "cred_" id)) [
  | inl missing ↦ ground arith
  | inr (h, found) ↦ (h, drop_prefix-append "cred_" id h found, ground arith)
]

cut-cred : (h : String) → cut (String.◌++◌ "cred_" h) ≡ some ("cred", h)
unfolding cut
cut-cred h = rw (cred h) refl

-- A token is `scrp`, the digits of a credential id, and a secret.
abbrev IsToken : String → String → String → Type 0
IsToken id secret raw =
    (h : String) × (id ≡ String.◌++◌ "cred_" h)
    × (hex_run 12 h ≡ true)
    × (raw ≡ String.◌++◌ "scrp_" (String.◌++◌ h (String.◌++◌ "_" secret)))

not-formatted :
    (id secret raw : String) → is_credential_id id ≡ false → format_token id secret ≡ some raw → ⊥
unfolding format_token
not-formatted id secret raw bad e = ground arith

token_of : String → String → String
token_of h secret = String.◌++◌ "scrp_" (String.◌++◌ h (String.◌++◌ "_" secret))

format_token-cred :
    (h secret : String)
    → hex_run 12 h ≡ true
    → format_token (String.◌++◌ "cred_" h) secret ≡ some (token_of h secret)
unfolding format_token token_of
format_token-cred h secret run = rw (is_credential_id-append, run, cut-cred) refl

format_token_iff :
    (id secret raw : String) → (format_token id secret ≡ some raw) ↔ IsToken id secret raw
unfolding token_of
format_token_iff id secret raw = (
  λ e. elim (Bool-cases (is_credential_id id)) [
    | inl good ↦
        let (h, p, q) = is_credential_id-split id good in
        let f : format_token id secret ≡ some (token_of h secret) =
          rw p (format_token-cred h secret q) in
        (h, p, q, ground arith)
    | inr bad ↦ absurd (not-formatted id secret raw bad e)
  ],
  λ (h, p, q, r). rw (p, r) (format_token-cred h secret q),
)

parse_parts_iff :
    (prefix h secret id secret' : String)
    → (parse_parts prefix h secret ≡ some (id, secret')) ↔ (
        (prefix ≡ "scrp")
        × (secret ≢ "")
        × (is_credential_id (String.◌++◌ "cred_" h) ≡ true)
        × (id ≡ String.◌++◌ "cred_" h)
        × (secret ≡ secret'))
unfolding parse_parts
parse_parts_iff prefix h secret id secret' = ground (arith, eq_iff prefix "scrp", eq_iff secret "")

parse_rest_inv :
    (prefix : String) (m : Option (String × String)) (x : String × String)
    → parse_rest prefix m ≡ some x
    → (h : String) × (secret : String) × (m ≡ some (h, secret))
      × (parse_parts prefix h secret ≡ some x)
unfolding parse_rest
parse_rest_inv prefix none x e = cc
parse_rest_inv prefix (some (h, secret)) x e = (h, secret, refl, e)

parse_cut_inv :
    (m : Option (String × String)) (x : String × String)
    → parse_cut m ≡ some x
    → (prefix : String) × (rest : String) × (m ≡ some (prefix, rest))
      × (parse_rest prefix (cut rest) ≡ some x)
unfolding parse_cut
parse_cut_inv none x e = cc
parse_cut_inv (some (prefix, rest)) x e = (prefix, rest, refl, e)

-- What is read from the parts of a text is what a token is made of.
parse_cut_sound :
    (raw id secret : String)
    → parse_cut (cut raw) ≡ some (id, secret)
    → IsToken id secret raw × (secret ≢ "")
parse_cut_sound raw id secret e =
    let (prefix, rest, p, q) = parse_cut_inv (cut raw) (id, secret) e in
    let (h, secret', r, t) = parse_rest_inv prefix (cut rest) (id, secret) q in
    let (is_scrp, filled, good, is_cred, same) = (parse_parts_iff prefix h secret' id secret).0 t in
    let (raw_is, _) = cut-join raw prefix rest p in
    let (rest_is, _) = cut-join rest h secret' r in
    (
      (
        h,
        is_cred,
        sym (is_credential_id-append h) ∙ good,
        raw_is
            ∙ rw (is_scrp, rest_is, same, ← under secret)
                (sym (scrp (String.◌++◌ h (String.◌++◌ "_" secret)))),
      ),
      rw (← same) filled,
    )

parse_cut_complete :
    (raw id secret : String)
    → IsToken id secret raw
    → secret ≢ ""
    → parse_cut (cut raw) ≡ some (id, secret)
unfolding parse_cut parse_rest
parse_cut_complete raw id secret (h, p, q, r) filled =
    let outer : cut raw ≡ some ("scrp", String.◌++◌ h (String.◌++◌ "_" secret)) =
      rw (r, scrp (String.◌++◌ h (String.◌++◌ "_" secret))) (join-cut "scrp" _ refl) in
    let inner : cut (String.◌++◌ h (String.◌++◌ "_" secret)) ≡ some (h, secret) =
      rw (under secret) (join-cut h secret (hex_run-IsPlain 12 h q)) in
    let parts =
      (parse_parts_iff "scrp" h secret id secret).1
        (refl, filled, is_credential_id-append h ∙ q, p, refl) in
    rw (outer, inner) parts

guarded :
    (raw : String) (x : String × String)
    → (parse_token raw ≡ some x)
      ↔ ((parse_cut (cut raw) ≡ some x) × ((raw == "") ≡ false) × (String.count raw ≤ 512))
unfolding parse_token
guarded raw x = ground arith

parse_cut-filled :
    (raw : String) (x : String × String) → parse_cut (cut raw) ≡ some x → (raw == "") ≡ false
unfolding parse_cut cut
parse_cut-filled [] x e = cc
parse_cut-filled (c ∷ raw) x e = cons_filled c raw

-- A text is read as a credential id and a secret exactly if it is what formatting these two gives,
-- the secret is not empty, and the text is no longer than the limit.
pub parse_token_iff :
    (raw id secret : String)
    → (parse_token raw ≡ some (id, secret))
      ↔ ((format_token id secret ≡ some raw) × (secret ≢ "") × (String.count raw ≤ 512))
parse_token_iff raw id secret = (
  λ e.
      let (parsed, _, short) = (guarded raw (id, secret)).0 e in
      let (token, filled) = parse_cut_sound raw id secret parsed in
      ((format_token_iff id secret raw).1 token, filled, short),
  λ (made, filled, short).
      let parsed =
        parse_cut_complete raw id secret ((format_token_iff id secret raw).0 made) filled in
      (guarded raw (id, secret)).1 (parsed, parse_cut-filled raw (id, secret) parsed, short),
)
