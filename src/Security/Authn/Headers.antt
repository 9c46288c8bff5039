-- ===== src/Security/Authn/Headers.antt =====
-- Headers that carry a token: `Bearer`, a space, and a text without white space.
use Prim.Native.Char.{Char, code}
use Prim.Native.String
use Prim.Native.String.{[], ◌∷◌}
use scrappy_os.Security.Credentials.Cuts.{step, cons_filled}
use text.Mathlib.TextLemmas.{nil-append}
use scrappy_os.Prelude.{
  String, ◌≡◌, ◌≢◌, refl, ap, ◌∙◌, Bool, true, false, not, ◌&&◌, List, arith, ◌==◌, some,
}
use scrappy_os.Prelude.Text.{
  text-filled, is_space, words, join_word, strip, lstrip, rstrip, strip_back, is_lowered,
}
use scrappy_os.Security.Authn.{parse_bearer, bearer_parts, accepted}

-- No character of the text is white space.
unfoldable pub is_solid : String → Bool
is_solid [] = true
is_solid (c ∷ s) = not (is_space (code c)) && is_solid s

abbrev pub bearer_header : String → String
bearer_header token = String.◌++◌ "Bearer " token

bearer_cons : (t : String) → bearer_header t ≡ "B" ∷ "e" ∷ "a" ∷ "r" ∷ "e" ∷ "r" ∷ " " ∷ t
bearer_cons t = step "B" "earer " t _ (
    step "e" "arer " t _ (
      step "a" "rer " t _ (
        step "r" "er " t _
          (step "e" "r " t _ (step "r" " " t _ (step " " "" t _ (nil-append t)))))))

words-solid :
    (c : Char) (s : String) → is_solid (c ∷ s) ≡ true → words (c ∷ s) ≡ List.◌∷◌ (c ∷ s) List.[]
unfolding words is_solid
words-solid c [] e = ground arith
words-solid c (d ∷ s) e =
    let rest : words (d ∷ s) ≡ List.◌∷◌ (d ∷ s) List.[] = words-solid d s (ground arith) in
    let first : is_space (code c) ≡ false = ground arith in
    let next : not (is_space (code d)) ≡ true = ground arith in
    rw first (ap (join_word (not (is_space (code d))) c) rest ∙ rw next refl)

words-token :
    (token : String) → is_solid token ≡ true → token ≢ "" → words token ≡ List.◌∷◌ token List.[]
words-token [] e filled = elim (filled refl) [ ]
words-token (c ∷ s) e filled = words-solid c s e

words-bearer : (token : String) → words (bearer_header token) ≡ List.◌∷◌ "Bearer" (words token)
unfolding words
words-bearer token = ap words (bearer_cons token) ∙ refl

strip_back-solid :
    (c : Char) (s : String) → is_space (code c) ≡ false → (t : String) × (strip_back c s ≡ c ∷ t)
unfolding strip_back
strip_back-solid c [] e = ("", rw e refl)
strip_back-solid c (d ∷ s) e = (d ∷ s, refl)

rstrip-solid :
    (c : Char) (s : String) → is_space (code c) ≡ false → (t : String) × (rstrip (c ∷ s) ≡ c ∷ t)
unfolding rstrip strip_back
rstrip-solid c s e = strip_back-solid c (rstrip s) e

strip-filled : (c : Char) (s : String) → is_space (code c) ≡ false → (strip (c ∷ s) == "") ≡ false
unfolding strip lstrip
strip-filled c s e =
    let (t, f) = rstrip-solid c s e in
    let g : strip (c ∷ s) ≡ c ∷ t = rw f (rw e refl) in rw g (cons_filled c t)

pub parse_bearer-header :
    (token : String)
    → is_solid token ≡ true
    → token ≢ ""
    → parse_bearer (some (bearer_header token)) ≡ accepted token
unfolding parse_bearer bearer_parts is_lowered
parse_bearer-header token e filled =
    let shown : (strip (bearer_header token) == "") ≡ false =
      ap (λ t. strip t == "") (bearer_cons token)
      ∙ strip-filled "B" ("e" ∷ "a" ∷ "r" ∷ "e" ∷ "r" ∷ " " ∷ token) refl in
    let parts : words (bearer_header token) ≡ List.◌∷◌ "Bearer" (List.◌∷◌ token List.[]) =
      words-bearer token ∙ ap (List.◌∷◌ "Bearer") (words-token token e filled) in
    rw (shown, parts, text-filled token filled) refl
