-- ===== src/Security/Authz/Parsing.antt =====
-- Scope lists from configuration.
use scrappy_os.Prelude.{
  ◌≢◌, ◌∙◌, String, ◌≡◌, refl, ◌↔◌, ◌⊎◌, inl, inr, true, false, none, some, List, [], ◌∷◌, arith,
  eq_iff, Bool-cases, Option-cases, Any, All, sym, ◌==◌,
}
use scrappy_os.Prelude.Text.{split_on, strip}
use scrappy_os.Core.Identity.{Scope, scope_value, holds, task_create}
use scrappy_os.Core.Identity.Scopes.{scope_eq_iff}
use scrappy_os.Security.Authz.{scope_of_text, collect, parse_scopes, scopes, unknown_scopes, finish}
use scrappy_os.Security.Authz.Laws.{scope_of_text-value, scope_of_text_sound}

-- A chunk of the list that is blank, or names a scope.
abbrev pub IsGood : String → Type 0
IsGood chunk = (strip chunk ≡ "") ⊎ ((s : Scope) × (strip chunk ≡ scope_value s))

-- The scope is named by some chunk.
abbrev pub IsNamed : Scope → List String → Type 0
IsNamed s chunks = Any (λ chunk. strip chunk ≡ scope_value s) chunks

-- What `parse_scopes` finds when it looks at one stripped chunk.
data Item (t : String) : Type 0 where
  blank : (t == "") ≡ true → Item t
  unknown : (t == "") ≡ false → scope_of_text t ≡ none → Item t
  known : (s : Scope) → (t == "") ≡ false → scope_of_text t ≡ some s → Item t

scope_value-ne-empty : (s : Scope) → (scope_value s == "") ≡ false
scope_value-ne-empty task_create = refl
scope_value-ne-empty _ = refl

Item-of : (t : String) → Item t
Item-of t = elim (Bool-cases (t == "")) [
  | inl e ↦ blank e
  | inr e ↦ elim (Option-cases (scope_of_text t)) [
    | inl missing ↦ unknown e missing
    | inr (s, found) ↦ known s e found
  ]
]

not-IsGood : (c : String) → (strip c == "") ≡ false → scope_of_text (strip c) ≡ none → ¬ IsGood c
not-IsGood c e missing (inl h) = ground (arith, eq_iff (strip c) "")
not-IsGood c e missing (inr (s, h)) = ground (arith, scope_of_text-value s)

collect-unknown_iff : (chunks : List String) → ((collect chunks).1 ≡ []) ↔ All IsGood chunks
unfolding collect
collect-unknown_iff [] = (λ h. tt, λ h. refl)
collect-unknown_iff (c ∷ chunks) = elim (Item-of (strip c)) [
  | blank e ↦
      let good : IsGood c = inl ((eq_iff (strip c) "").0 e) in
      rw e (λ h. (good, (collect-unknown_iff chunks).0 h), λ h. (collect-unknown_iff chunks).1 h.1)
  | unknown e missing ↦ rw (e, missing) (λ h. cc, λ h. absurd (not-IsGood c e missing h.0))
  | known s e found ↦
      let good : IsGood c = inr (s, sym (scope_of_text_sound (strip c) s found)) in
      rw (e, found)
        (λ h. (good, (collect-unknown_iff chunks).0 h), λ h. (collect-unknown_iff chunks).1 h.1)
]

collect-holds_iff :
    (chunks : List String) (s : Scope) → (holds (collect chunks).0 s ≡ true) ↔ IsNamed s chunks
unfolding collect
collect-holds_iff [] s = ground arith
collect-holds_iff (c ∷ chunks) s = elim (Item-of (strip c)) [
  | blank e ↦ rw e (ground (arith, collect-holds_iff chunks s, scope_value-ne-empty s))
  | unknown e missing ↦
      rw (e, missing) (ground (arith, collect-holds_iff chunks s, scope_of_text-value s))
  | known x e found ↦
      rw (e, found)
        (ground (
          arith,
          collect-holds_iff chunks s,
          scope_of_text-value s,
          scope_of_text_sound (strip c) x found,
          scope_eq_iff x s,
        ))
]

finish-eq-scopes :
    (r : List Scope × List String) {parsed : List Scope} → finish r ≡ scopes parsed → r.1 ≡ []
finish-eq-scopes (found, []) e = refl
finish-eq-scopes (found, bad ∷ more) e = cc

finish-scopes_found :
    (r : List Scope × List String) {parsed : List Scope} → finish r ≡ scopes parsed → r.0 ≡ parsed
finish-scopes_found (found, []) e = cc
finish-scopes_found (found, bad ∷ more) e = cc

finish-unknown_found :
    (r : List Scope × List String) {unknown : List String}
    → finish r ≡ unknown_scopes unknown
    → unknown ≡ r.1
finish-unknown_found (found, []) e = cc
finish-unknown_found (found, bad ∷ more) e = cc

finish-eq-unknown :
    (r : List Scope × List String) {unknown : List String}
    → finish r ≡ unknown_scopes unknown
    → unknown ≢ []
finish-eq-unknown (found, []) e = cc
finish-eq-unknown (found, bad ∷ more) e = λ empty. let f : (bad ∷ more) ≡ [] = cc in cc

finish_clean : (r : List Scope × List String) → r.1 ≡ [] → finish r ≡ scopes r.0
finish_clean (found, []) e = refl
finish_clean (found, bad ∷ more) e = cc

-- What a scope list that parses is worth: every chunk is blank or names a scope, and a scope is
-- granted exactly when some chunk names it.
abbrev pub IsReading : List String → List Scope → Type 0
IsReading chunks parsed =
    All IsGood chunks × ((s : Scope) → (holds parsed s ≡ true) ↔ IsNamed s chunks)

-- A scope list parses exactly when each of its chunks is blank or names a scope; whatever it parses
-- to grants a scope exactly when some chunk names it; and where it does not parse, some chunk is
-- reported as unknown, and not every chunk is blank or names a scope.
pub parse_scopes_iff :
    (raw : String)
    → (((parsed : List Scope) × (parse_scopes raw ≡ scopes parsed))
        ↔ All IsGood (split_on b',' raw))
      × ((parsed : List Scope)
          → parse_scopes raw ≡ scopes parsed
          → IsReading (split_on b',' raw) parsed)
      × ((unknown : List String)
          → parse_scopes raw ≡ unknown_scopes unknown
          → (unknown ≢ []) × ¬ All IsGood (split_on b',' raw))
unfolding parse_scopes
parse_scopes_iff raw =
    let chunks = split_on b',' raw in
    let (sound, complete) = collect-unknown_iff chunks in
    (
      (
        λ (parsed, e). sound (finish-eq-scopes (collect chunks) e),
        λ good. ((collect chunks).0, finish_clean (collect chunks) (complete good)),
      ),
      λ parsed e. (
        sound (finish-eq-scopes (collect chunks) e),
        λ s. rw (finish-scopes_found (collect chunks) e) at (collect-holds_iff chunks s),
      ),
      λ unknown e.
          let bad = finish-eq-unknown (collect chunks) e in
          (bad, λ good. bad (finish-unknown_found (collect chunks) e ∙ complete good)),
    )
