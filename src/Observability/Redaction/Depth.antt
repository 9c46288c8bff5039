-- ===== src/Observability/Redaction/Depth.antt =====
-- How deeply a redacted value is nested.
use scrappy_os.Prelude.{
  ℕ, suc, ◌≡◌, refl, Bool, true, false, if◌then◌else◌, arith, ltb, leb, ◌+◌, ◌≤◌,
}
use scrappy_os.Core.Values.{
  Json, null, bool, num, str, arr, obj, JsonItems, nil, cons, JsonFields, end, field,
}
use scrappy_os.Observability.Redaction.{
  Texts, is_sensitive_key, is_null, hide, redacted, redact_at, redact_items, redact_fields, redact,
  default_depth, truncated,
}

abbrev pub higher : ℕ → ℕ → ℕ
higher a b = if leb a b then b else a

unfoldable mutual
  -- How many lists and objects stand one in another.
  pub nesting : Json → ℕ
  nesting null = 0
  nesting (bool b) = 0
  nesting (num n) = 0
  nesting (str s) = 0
  nesting (arr items) = suc (items_nesting items)
  nesting (obj fields) = suc (fields_nesting fields)

  items_nesting : JsonItems → ℕ
  items_nesting nil = 0
  items_nesting (cons v items) = higher (nesting v) (items_nesting items)

  fields_nesting : JsonFields → ℕ
  fields_nesting end = 0
  fields_nesting (field key v fields) = higher (nesting v) (fields_nesting fields)

higher-le : (a b n d : ℕ) → a + d ≤ n → b + d ≤ n → higher a b + d ≤ n
higher-le a b n d p q = ground arith

nesting-if :
    (b : Bool) (v w : Json) (n d : ℕ)
    → (b ≡ true → nesting v + d ≤ n)
    → (b ≡ false → nesting w + d ≤ n)
    → nesting (if b then v else w) + d ≤ n
nesting-if true v w n d p q = p refl
nesting-if false v w n d p q = q refl

nesting-hide : (v : Json) (n d : ℕ) → d ≤ n → nesting (hide v) + d ≤ n
unfolding nesting
nesting-hide v n d h =
    nesting-if (is_null v) null redacted n d (λ _. omega arith) (λ _. omega arith)

nesting-cut :
    (depth : ℕ) (v : Json)
    → depth ≤ 13
    → (ltb default_depth depth ≡ false → nesting v + depth ≤ 13)
    → nesting (if ltb default_depth depth then truncated else v) + depth ≤ 13
unfolding nesting
nesting-cut depth v h f =
    nesting-if (ltb default_depth depth) truncated v 13 depth (λ _. omega arith) f

module _ (texts : Texts) where
  mutual
    unfolding redact_at nesting

    nesting-redact_at :
        (depth : ℕ) (v : Json)
        → depth ≤ 13
        → nesting (redact_at texts default_depth depth v) + depth ≤ 13
    nesting-redact_at depth null h = nesting-cut depth _ h (λ _. omega arith)
    nesting-redact_at depth (bool b) h = nesting-cut depth _ h (λ _. omega arith)
    nesting-redact_at depth (num n) h = nesting-cut depth _ h (λ _. omega arith)
    nesting-redact_at depth (str s) h = nesting-cut depth _ h (λ _. omega arith)
    nesting-redact_at depth (arr items) h =
        nesting-cut depth _ h (λ e. ground (arith, nesting-redact_items (depth + 1) items))
    nesting-redact_at depth (obj fields) h =
        nesting-cut depth _ h (λ e. ground (arith, nesting-redact_fields (depth + 1) fields))

    nesting-redact_items :
        (depth : ℕ) (items : JsonItems)
        → depth ≤ 13
        → items_nesting (redact_items texts default_depth depth items) + depth ≤ 13
    nesting-redact_items depth nil h = omega arith
    nesting-redact_items depth (cons v items) h =
        higher-le _ _ 13 depth (nesting-redact_at depth v h) (nesting-redact_items depth items h)

    nesting-redact_fields :
        (depth : ℕ) (fields : JsonFields)
        → depth ≤ 13
        → fields_nesting (redact_fields texts default_depth depth fields) + depth ≤ 13
    nesting-redact_fields depth end h = omega arith
    nesting-redact_fields depth (field key v fields) h =
        higher-le _ _ 13 depth
          (nesting-if (is_sensitive_key key) _ _ 13 depth (λ _. nesting-hide v 13 depth h)
            (λ _. nesting-redact_at depth v h))
          (nesting-redact_fields depth fields h)

-- A redacted value has at most thirteen lists and objects one in another, however deep it was.
pub nesting-redact : (texts : Texts) (v : Json) → nesting (redact texts v) ≤ 13
unfolding redact
nesting-redact texts v = omega (arith, nesting-redact_at texts 0 v (omega arith))
