-- ===== src/Security/Authn/Static.antt =====
-- The loop of the static authenticator against a search.
use scrappy_os.Prelude.{
  ◌≡◌, refl, ap, ◌∙◌, sym, String, false, Option, none, some, List, [], ◌∷◌, ◌==◌, ◌↔◌, eqb, suc,
  length, if◌then◌else◌, arith, Bool-cases, inl, inr, Option-cases,
}
use scrappy_os.Core.Identity.{Actor}
use scrappy_os.Security.Authn.{
  AuthResult, accepted, refused, invalid, parse_bearer, token_actor, TokenCredential, match_loop,
  recognise, static_authenticate, static_presented,
}

abbrev or_else : {A : Type 0} → Option A → Option A → Option A
or_else none b = b
or_else (some a) b = some a

-- The last credential whose token has the digest.
unfoldable pub find_last :
    (String → String) → String → List TokenCredential → Option TokenCredential
find_last sha256 digest [] = none
find_last sha256 digest (c ∷ cs) =
    or_else (find_last sha256 digest cs) (if digest == sha256 c.token then some c else none)

or_else-none : {A : Type 0} (o : Option A) → or_else o none ≡ o
or_else-none none = refl
or_else-none (some a) = refl

match_loop-find_last :
    (sha256 : String → String) (digest : String) (matched : Option TokenCredential)
    (cs : List TokenCredential)
    → match_loop sha256 digest matched cs ≡ or_else (find_last sha256 digest cs) matched
unfolding match_loop find_last
match_loop-find_last sha256 digest matched [] = refl
match_loop-find_last sha256 digest matched (c ∷ cs) =
    match_loop-find_last sha256 digest (if digest == sha256 c.token then some c else matched) cs
    ∙ elim (Option-cases (find_last sha256 digest cs)) [
      | inl missing ↦ elim (Bool-cases (digest == sha256 c.token)) [
        | inl hit ↦ rw (missing, hit) refl
        | inr miss ↦ rw (missing, miss) refl
      ]
      | inr (d, found) ↦ rw found refl
    ]

recognise_iff :
    (found : Option TokenCredential) (actor : Actor)
    → (recognise found ≡ accepted actor)
      ↔ ((c : TokenCredential) × (found ≡ some c) × (token_actor c ≡ accepted actor))
unfolding token_actor
recognise_iff none actor = (λ e. cc, λ (c, e, h). cc)
recognise_iff (some c) actor = (λ e. (c, refl, e), λ (d, e, h). let same : c ≡ d = cc in rw same h)

-- The search in the answer of the authenticator that compares with every token.
presented_iff :
    (sha256 : String → String) (cs : List TokenCredential) (token : String) (actor : Actor)
    → (static_presented sha256 cs (accepted token) ≡ accepted actor)
      ↔ (recognise (find_last sha256 (sha256 token) cs) ≡ accepted actor)
unfolding static_presented find_last token_actor
presented_iff sha256 [] token actor = (λ e. ground arith, λ e. ground arith)
presented_iff sha256 (c ∷ cs) token actor =
    let same : match_loop sha256 (sha256 token) none (c ∷ cs)
        ≡ find_last sha256 (sha256 token) (c ∷ cs) =
      match_loop-find_last sha256 (sha256 token) none (c ∷ cs) ∙ or_else-none _ in
    let more : eqb (suc (length cs)) 0 ≡ false = ground arith in
    let f : static_presented sha256 (c ∷ cs) (accepted token)
        ≡ recognise (find_last sha256 (sha256 token) (c ∷ cs)) =
      rw more (ap recognise same) in
    (λ e. sym f ∙ e, λ e. f ∙ e)

accepts_iff :
    (sha256 : String → String) (cs : List TokenCredential) (r : AuthResult String) (actor : Actor)
    → (static_presented sha256 cs r ≡ accepted actor) ↔ (
        (token : String) × (c : TokenCredential) × (r ≡ accepted token)
        × (find_last sha256 (sha256 token) cs ≡ some c)
        × (token_actor c ≡ accepted actor))
unfolding static_presented
accepts_iff sha256 cs (accepted token) actor =
    let (sound, complete) = presented_iff sha256 cs token actor in
    let (open_it, close_it) = recognise_iff (find_last sha256 (sha256 token) cs) actor in
    (
      λ e. let (c, found, made) = open_it (sound e) in (token, c, refl, found, made),
      λ (presented, c, e, found, made).
          let same : token ≡ presented = cc in complete (close_it (c, (rw same found), made)),
    )
accepts_iff sha256 cs (refused f) actor = (λ e. cc, λ (token, c, e, found, made). cc)
accepts_iff sha256 cs invalid actor = (λ e. cc, λ (token, c, e, found, made). cc)

-- A static authenticator accepts a header exactly if it is a well-formed bearer header, whose token
-- has the digest of a configured token, and the actor is that of the last such token.
pub static_authenticate_iff :
    (sha256 : String → String) (cs : List TokenCredential) (header : Option String) (actor : Actor)
    → (static_authenticate sha256 cs header ≡ accepted actor) ↔ (
        (token : String) × (c : TokenCredential) × (parse_bearer header ≡ accepted token)
        × (find_last sha256 (sha256 token) cs ≡ some c)
        × (token_actor c ≡ accepted actor))
unfolding static_authenticate
static_authenticate_iff sha256 cs header actor = accepts_iff sha256 cs (parse_bearer header) actor
