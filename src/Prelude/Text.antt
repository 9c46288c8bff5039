-- ===== src/Prelude/Text.antt =====
-- The methods of Python's `str` that the program calls, over native texts.
use scrappy_os.Prelude.{zero}
use Prim.Native.Nat.{ℕ, ◌+◌, suc}
use Prim.Native.Char.{Char, code}
use Prim.Native.String.{String, [], ◌∷◌}
use mathlib.Core.Bool.{Bool, ◌&&◌, ◌||◌, true, false, not}
use mathlib.Core.List.{List}
use mathlib.Core.Path.{◌≡◌}
use mathlib.Core.Logic.{◌≢◌, inl, inr}
use text.Mathlib.Text.{◌==◌}
use text.Mathlib.TextEquality.{eq_iff}
use scrappy_os.Prelude.Tests.{Bool-cases, leb, eqb, if◌then◌else◌}

-- `str.isspace` of one character.
abbrev pub is_space : ℕ → Bool
is_space c =
    (leb 9 c && leb c 13)
    || (leb 28 c && leb c 32)
    || eqb c 133
    || eqb c 160
    || eqb c 5760
    || (leb 8192 c && leb c 8202)
    || eqb c 8232
    || eqb c 8233
    || eqb c 8239
    || eqb c 8287
    || eqb c 12288

unfoldable pub lstrip : String → String
lstrip [] = ""
lstrip (c ∷ s) = let rest = lstrip s in if is_space (code c) then rest else c ∷ s

-- A character in front of an already stripped rest is dropped if it is a space and nothing follows.
unfoldable pub strip_back : Char → String → String
strip_back c [] = if is_space (code c) then "" else c ∷ ""
strip_back c (d ∷ s) = c ∷ d ∷ s

unfoldable pub rstrip : String → String
rstrip [] = ""
rstrip (c ∷ s) = strip_back c (rstrip s)

unfoldable pub strip : String → String
unfolding lstrip rstrip strip_back
strip s = lstrip (rstrip s)

abbrev pub push_front : Char → List String → List String
push_front c List.[] = List.◌∷◌ (c ∷ "") List.[]
push_front c (List.◌∷◌ p ps) = List.◌∷◌ (c ∷ p) ps

-- `s.split(sep)` for a separator of one character: never the empty list.
unfoldable pub split_on : ℕ → String → List String
split_on sep [] = List.◌∷◌ "" List.[]
split_on sep (c ∷ s) =
    let parts = split_on sep s in if eqb (code c) sep then List.◌∷◌ "" parts else push_front c parts

abbrev pub starts_word : String → Bool
starts_word [] = false
starts_word (c ∷ s) = not (is_space (code c))

-- A character of a word, in front of a word that goes on or of what follows the word.
abbrev pub join_word : Bool → Char → List String → List String
join_word true c words = push_front c words
join_word false c words = List.◌∷◌ (c ∷ "") words

-- `s.split()`: the words between the runs of white space.
unfoldable pub words : String → List String
words [] = List.[]
words (c ∷ s) =
    let rest = words s in if is_space (code c) then rest else join_word (starts_word s) c rest

-- The lower case of a character, where that is in ASCII: outside ASCII it is the Kelvin sign's only.
abbrev pub lower_code : Char → ℕ
lower_code c =
    if leb b'A' (code c) && leb (code c) b'Z'
    then code c + 32
    else if eqb (code c) 8490
    then b'k'
    else code c

-- `s.lower() == t`, for a text `t` in ASCII and in lower case.
unfoldable pub is_lowered : String → String → Bool
is_lowered [] [] = true
is_lowered (c ∷ s) (d ∷ t) = eqb (lower_code c) (code d) && is_lowered s t
is_lowered [] (d ∷ t) = false
is_lowered (c ∷ s) [] = false

-- `s.lower().startswith(t)`, for such a text `t`.
unfoldable pub begins_lowered : String → String → Bool
begins_lowered s [] = true
begins_lowered [] (d ∷ t) = false
begins_lowered (c ∷ s) (d ∷ t) = eqb (lower_code c) (code d) && begins_lowered s t

-- `t in s.lower()`, for such a text `t`.
unfoldable pub has_lowered : String → String → Bool
unfolding begins_lowered
has_lowered t [] = begins_lowered [] t
has_lowered t (c ∷ s) = begins_lowered (c ∷ s) t || has_lowered t s

-- `s[:n]`
unfoldable pub first_chars : ℕ → String → String
first_chars zero s = ""
first_chars (suc n) [] = ""
first_chars (suc n) (c ∷ s) = c ∷ first_chars n s

pub text-filled : (t : String) → t ≢ "" → (t == "") ≡ false
text-filled t filled = elim (Bool-cases (t == "")) [
  | inl bad ↦ elim (filled ((eq_iff t "").0 bad)) [ ]
  | inr good ↦ good
]
