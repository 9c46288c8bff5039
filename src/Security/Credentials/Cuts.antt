-- ===== src/Security/Credentials/Cuts.antt =====
-- Texts at their underscores and prefixes, character by character.
use Prim.Native.Char.{Char, code}
use Prim.Native.String
use Prim.Native.String.{[], ◌∷◌}
use text.Mathlib.TextLemmas as TextLemmas
use text.Mathlib.TextEquality.{Char-path}
use scrappy_os.Prelude.{
  ℕ, zero, suc, ◌≡◌, refl, ap, ◌∙◌, sym, String, true, Option, none, some, arith, eqb, Bool-cases,
  inl, inr, eq_iff, false, ◌==◌,
}
use scrappy_os.Security.Credentials.{hex_run, push_char, cut, drop_prefix}

-- No underscore stands in the text.
abbrev pub IsPlain : String → Type 0
IsPlain s = cut s ≡ none

pub cut_under : (c : Char) → eqb (code c) b'_' ≡ true → c ≡ "_"
cut_under c h = Char-path c "_" (ground arith)

-- Appending by clauses.
pub cons_append : (c : Char) (s t : String) → String.◌++◌ (c ∷ s) t ≡ c ∷ String.◌++◌ s t
cons_append c s t = TextLemmas.cons-append c s t

pub under : (b : String) → String.◌++◌ "_" b ≡ "_" ∷ b
under b = TextLemmas.cons-append "_" [] b ∙ ap (λ t. "_" ∷ t) (TextLemmas.nil-append b)

-- A text that is cut is the two parts, joined by an underscore.
pub push_char-cases :
    (c : Char) (m : Option (String × String)) (a b : String)
    → push_char c m ≡ some (a, b)
    → (a' : String) × (m ≡ some (a', b)) × (a ≡ c ∷ a')
push_char-cases c none a b h = cc
push_char-cases c (some (a', b')) a b h = (a', cc, cc)

pub cut-join : (s a b : String) → cut s ≡ some (a, b) → (s ≡ String.◌++◌ a ("_" ∷ b)) × IsPlain a
unfolding cut
cut-join [] a b h = cc
cut-join (c ∷ s) a b h = elim (Bool-cases (eqb (code c) b'_')) [
  | inl hit ↦
      let e : "" ≡ a = ground arith in
      let f : s ≡ b = ground arith in
      rw (← e) (rw (cut_under c hit, f, TextLemmas.nil-append) (refl, refl))
  | inr other ↦
      let (a', p, q) = push_char-cases c (cut s) a b (ground arith) in
      let (r, plain) = cut-join s a' b p in
      rw q (rw (cons_append, ← r) (refl, rw (other, plain) refl))
]

pub join-cut : (a b : String) → IsPlain a → cut (String.◌++◌ a ("_" ∷ b)) ≡ some (a, b)
unfolding cut
join-cut [] b h = rw TextLemmas.nil-append refl
join-cut (c ∷ a) b h = elim (Bool-cases (eqb (code c) b'_')) [
  | inl hit ↦ ground arith
  | inr other ↦ rw cons_append (rw (other, join-cut a b (ground arith)) refl)
]

pub hex_run-IsPlain : (n : ℕ) (s : String) → hex_run n s ≡ true → IsPlain s
unfolding hex_run cut
hex_run-IsPlain zero [] h = refl
hex_run-IsPlain zero (c ∷ []) h = ground arith
hex_run-IsPlain zero (c ∷ d ∷ s) h = cc
hex_run-IsPlain (suc n) [] h = cc
hex_run-IsPlain (suc n) (c ∷ s) h = ground (arith, hex_run-IsPlain n s)

-- Literal prefixes, character by character.
pub step : (c : Char) (s t u : String) → String.◌++◌ s t ≡ u → String.◌++◌ (c ∷ s) t ≡ c ∷ u
step c s t u e = cons_append c s t ∙ ap (λ r. c ∷ r) e

pub cred : (t : String) → String.◌++◌ "cred_" t ≡ "c" ∷ "r" ∷ "e" ∷ "d" ∷ "_" ∷ t
cred t = step "c" "red_" t _ (step "r" "ed_" t _ (step "e" "d_" t _ (step "d" "_" t _ (under t))))

pub scrp : (t : String) → String.◌++◌ "scrp_" t ≡ String.◌++◌ "scrp" ("_" ∷ t)
scrp t =
    step "s" "crp_" t _ (step "c" "rp_" t _ (step "r" "p_" t _ (step "p" "_" t _ (under t))))
    ∙ sym (
        step "s" "crp" _ _ (
          step "c" "rp" _ _ (step "r" "p" _ _ (step "p" "" _ _ (TextLemmas.nil-append ("_" ∷ t))))))

pub drop_prefix-append : (p s t : String) → drop_prefix p s ≡ some t → s ≡ String.◌++◌ p t
unfolding drop_prefix
drop_prefix-append [] s t h = ground (arith, TextLemmas.nil-append t)
drop_prefix-append (c ∷ p) [] t h = cc
drop_prefix-append (c ∷ p) (d ∷ s) t h = elim (Bool-cases (eqb (code c) (code d))) [
  | inl same ↦
      let e : c ≡ d = Char-path c d (ground arith) in
      let r = drop_prefix-append p s t (ground arith) in rw cons_append (rw (e, ← r) refl)
  | inr other ↦ ground arith
]

pub cons_filled : (c : Char) (s : String) → ((c ∷ s) == "") ≡ false
cons_filled c s = elim (Bool-cases ((c ∷ s) == "")) [
  | inl bad ↦ let e : c ∷ s ≡ "" = (eq_iff (c ∷ s) "").0 bad in cc
  | inr good ↦ good
]
