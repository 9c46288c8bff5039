-- ===== src/Observability/Redaction/Secrets.antt =====
-- The values under sensitive keys.
use scrappy_os.Prelude.{
  ℕ, ◌≡◌, refl, ap, Bool, true, false, if◌then◌else◌, Bool-cases, inl, inr, ltb, ◌+◌,
}
use scrappy_os.Core.Values.{
  Json, null, bool, num, str, arr, obj, JsonItems, nil, cons, JsonFields, end, field,
}
use scrappy_os.Observability.Redaction.{
  Texts, is_sensitive_key, is_null, hide, truncated, redact_at, redact_items, redact_fields, redact,
  redact_payload, default_depth, fields_of,
}

abbrev pub swap : (Json → Json) → Json → Json
swap other v = if is_null v then null else other v

unfoldable mutual
  -- The same value with other secrets: each value under a sensitive key that is not null is replaced.
  pub with_secrets : (Json → Json) → Json → Json
  with_secrets other null = null
  with_secrets other (bool b) = bool b
  with_secrets other (num n) = num n
  with_secrets other (str s) = str s
  with_secrets other (arr items) = arr (items_with_secrets other items)
  with_secrets other (obj fields) = obj (fields_with_secrets other fields)

  pub items_with_secrets : (Json → Json) → JsonItems → JsonItems
  items_with_secrets other nil = nil
  items_with_secrets other (cons v items) =
      cons (with_secrets other v) (items_with_secrets other items)

  pub fields_with_secrets : (Json → Json) → JsonFields → JsonFields
  fields_with_secrets other end = end
  fields_with_secrets other (field key v fields) =
      let inner = with_secrets other v in
      field key (if is_sensitive_key key then swap other v else inner)
        (fields_with_secrets other fields)

hide-swap :
    (other : Json → Json)
    → ((v : Json) → is_null (other v) ≡ false)
    → (v : Json) → hide (swap other v) ≡ hide v
hide-swap other filled v = elim (Bool-cases (is_null v)) [
  | inl gone ↦ rw (gone) refl
  | inr here ↦ rw (here, filled v) refl
]

module _ (texts : Texts) (other : Json → Json)
    (filled : (v : Json) → is_null (other v) ≡ false) where
  rewritten-field :
      (b : Bool) (depth : ℕ) (v inner : Json)
      → redact_at texts default_depth depth inner ≡ redact_at texts default_depth depth v
      → (if b
          then hide (if b then swap other v else inner)
          else redact_at texts default_depth depth (if b then swap other v else inner))
        ≡ (if b then hide v else redact_at texts default_depth depth v)
  rewritten-field true depth v inner e = hide-swap other filled v
  rewritten-field false depth v inner e = e

  mutual
    unfolding redact_at with_secrets

    redact_at-secrets :
        (depth : ℕ) (v : Json)
        → redact_at texts default_depth depth (with_secrets other v)
          ≡ redact_at texts default_depth depth v
    redact_at-secrets depth null = refl
    redact_at-secrets depth (bool b) = refl
    redact_at-secrets depth (num n) = refl
    redact_at-secrets depth (str s) = refl
    redact_at-secrets depth (arr items) =
        ap (λ inner. if ltb default_depth depth then truncated else arr inner)
          (redact_items-secrets (depth + 1) items)
    redact_at-secrets depth (obj fields) =
        ap (λ inner. if ltb default_depth depth then truncated else obj inner)
          (redact_fields-secrets (depth + 1) fields)

    redact_items-secrets :
        (depth : ℕ) (items : JsonItems)
        → redact_items texts default_depth depth (items_with_secrets other items)
          ≡ redact_items texts default_depth depth items
    redact_items-secrets depth nil = refl
    redact_items-secrets depth (cons v items) =
        λ i. cons (redact_at-secrets depth v i) (redact_items-secrets depth items i)

    redact_fields-secrets :
        (depth : ℕ) (fields : JsonFields)
        → redact_fields texts default_depth depth (fields_with_secrets other fields)
          ≡ redact_fields texts default_depth depth fields
    redact_fields-secrets depth end = refl
    redact_fields-secrets depth (field key v fields) = λ i.
        field key
          (rewritten-field (is_sensitive_key key) depth v (with_secrets other v)
            (redact_at-secrets depth v) i)
          (redact_fields-secrets depth fields i)

-- Redaction keeps nothing of a secret: two values that differ only in what stands under sensitive
-- keys, at any depth, are redacted to the same value. Whether a secret is null is the exception.
pub redact-with_secrets :
    (texts : Texts) (other : Json → Json)
    → ((v : Json) → is_null (other v) ≡ false)
    → (v : Json) → redact texts (with_secrets other v) ≡ redact texts v
unfolding redact
redact-with_secrets texts other filled v = redact_at-secrets texts other filled 0 v

pub redact_payload-with_secrets :
    (texts : Texts) (other : Json → Json)
    → ((v : Json) → is_null (other v) ≡ false)
    → (payload : JsonFields)
    → redact_payload texts (fields_with_secrets other payload) ≡ redact_payload texts payload
unfolding redact_payload with_secrets
redact_payload-with_secrets texts other filled payload =
    ap fields_of (redact-with_secrets texts other filled (obj payload))
