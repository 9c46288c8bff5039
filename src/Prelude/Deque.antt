-- ===== src/Prelude/Deque.antt =====
-- A deque of bounded length, which forgets its oldest items.
use Prim.Native.Nat.{ℕ, zero, suc, ◌+◌, ◌-◌, ◌≤◌}
use mathlib.Core.Path.{◌≡◌, refl, sym, ap, ◌∙◌}
use mathlib.Core.List.{List, [], ◌∷◌, ◌++◌}
use native.Mathlib.Omega.{arith}
use scrappy_os.Prelude.Lists.{length, length-append}

-- `items[n:]`
unfoldable pub drop {ℓ} : {A : Type ℓ} → ℕ → List A → List A
drop zero xs = xs
drop (suc n) [] = []
drop (suc n) (x ∷ xs) = drop n xs

-- `append` of a deque of bounded length.
unfoldable pub append_bounded {ℓ} : {A : Type ℓ} → ℕ → A → List A → List A
unfolding drop
append_bounded size e past = let longer = past ++ e ∷ [] in drop (length longer - size) longer

-- The last `n` items.
abbrev pub recent {ℓ} : {A : Type ℓ} → ℕ → List A → List A
recent n xs = drop (length xs - n) xs

pub drop-append {ℓ} :
    {A : Type ℓ} (k : ℕ) (xs ys : List A) → k ≤ length xs → drop k (xs ++ ys) ≡ drop k xs ++ ys
unfolding drop
drop-append zero xs ys h = refl
drop-append (suc k) [] ys h = ground arith
drop-append (suc k) (x ∷ xs) ys h = drop-append k xs ys (omega arith)

pub drop-none {ℓ} : {A : Type ℓ} (m : ℕ) → drop {A = A} m [] ≡ []
unfolding drop
drop-none zero = refl
drop-none (suc m) = refl

pub drop-drop {ℓ} : {A : Type ℓ} (m k : ℕ) (xs : List A) → drop m (drop k xs) ≡ drop (k + m) xs
unfolding drop
drop-drop m zero xs = let e : m ≡ 0 + m = omega arith in ap (λ n. drop n xs) e
drop-drop m (suc k) [] = drop-none m ∙ sym (drop-none (suc k + m))
drop-drop m (suc k) (x ∷ xs) =
    let e : suc (k + m) ≡ suc k + m = omega arith in drop-drop m k xs ∙ ap (λ n. drop n (x ∷ xs)) e

pub length-drop {ℓ} : {A : Type ℓ} (k : ℕ) (xs : List A) → length (drop k xs) ≡ length xs - k
unfolding drop
length-drop zero xs = omega arith
length-drop (suc k) [] = omega arith
length-drop (suc k) (x ∷ xs) = omega (arith, length-drop k xs)

pub append_bounded-recent {ℓ} :
    {A : Type ℓ} (size : ℕ) (xs : List A) (e : A)
    → append_bounded size e (recent size xs) ≡ recent size (xs ++ e ∷ [])
unfolding append_bounded
append_bounded-recent size xs e =
    let k = length xs - size in
    let longer : recent size xs ++ e ∷ [] ≡ drop k (xs ++ e ∷ []) =
      sym (drop-append k xs (e ∷ []) (omega arith)) in
    let more = length (recent size xs ++ e ∷ []) - size in
    let count : k + more ≡ length (xs ++ e ∷ []) - size = omega (
      arith,
      length-append (recent size xs) (e ∷ []),
      length-append xs (e ∷ []),
      length-drop k xs,
    ) in
    ap (drop more) longer ∙ drop-drop more k (xs ++ e ∷ []) ∙ ap (λ n. drop n (xs ++ e ∷ [])) count

pub append-none {ℓ} : {A : Type ℓ} (xs : List A) → xs ++ [] ≡ xs
append-none [] = refl
append-none (x ∷ xs) = ap (λ r. x ∷ r) (append-none xs)

pub append_assoc {ℓ} : {A : Type ℓ} (xs ys zs : List A) → (xs ++ ys) ++ zs ≡ xs ++ (ys ++ zs)
append_assoc [] ys zs = refl
append_assoc (x ∷ xs) ys zs = ap (λ r. x ∷ r) (append_assoc xs ys zs)
