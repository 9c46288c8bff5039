-- ===== src/Security/Risk/Commands.antt =====
-- Which command lines pass as reading.
use scrappy_os.Prelude.{
  String, ◌≡◌, ◌↔◌, ◌⊎◌, refl, ap, ◌∙◌, Bool, true, false, ◌||◌, Option, none, some, List, ◌∷◌, any,
  arith, Bool-cases, inl, inr, if◌then◌else◌, Option-cases,
}
use scrappy_os.Core.Enums.{RiskLevel, read, destructive}
use scrappy_os.Security.Risk.{
  has_name, privileged_executables, destructive_executables, is_destructive_family,
  privileged_subcommands, read_only_subcommands, subcommands_of, or_nothing, has_metacharacter,
  path_name, is_forcing, subcommand, has_mutating_verb, named, read_or_privileged, with_subcommands,
  without_subcommands, by_tables, classify_argv, classify_command,
}

-- The command has a subcommand of the table that only reads, and no mutating verb behind it.
abbrev pub OnlyReads : List String → List String → Type 0
OnlyReads read_only arguments =
    (sub : String) × (named read_only (subcommand arguments) ≡ some sub)
    × (has_mutating_verb arguments sub ≡ false)

abbrev pub read_only_of : String → List String
read_only_of executable = or_nothing (subcommands_of read_only_subcommands executable)

-- Without an entry among the privileged subcommands: a privileged executable that only reads, or one
-- that no table names, without a forcing flag.
abbrev pub IsHarmless : Option (List String) → String → List String → Type 0
IsHarmless (some mutating) executable arguments =
    (named mutating (subcommand arguments) ≡ none) × OnlyReads (read_only_of executable) arguments
IsHarmless none executable arguments =
    ((has_name privileged_executables executable ≡ true)
      × OnlyReads (read_only_of executable) arguments)
    ⊎ ((has_name privileged_executables executable ≡ false) × (any is_forcing arguments ≡ false))

reads_iff :
    (arguments : List String) (o : Option String)
    → (read_or_privileged arguments o ≡ read)
      ↔ ((sub : String) × (o ≡ some sub) × (has_mutating_verb arguments sub ≡ false))
unfolding read_or_privileged
reads_iff arguments none = (λ e. cc, λ (sub, e, f). cc)
reads_iff arguments (some sub) = (
  λ e. (sub, refl, ground arith),
  λ (sub', e, f).
      let same : sub ≡ sub' = cc in
      let g : has_mutating_verb arguments sub ≡ false = ap (has_mutating_verb arguments) same ∙ f in
      rw g refl,
)

-- A test that must be false, in front of a classification.
guard_iff :
    (b : Bool) (other risk : RiskLevel)
    → (other ≡ read → false ≡ true)
    → ((if b then other else risk) ≡ read) ↔ ((b ≡ false) × (risk ≡ read))
guard_iff true other risk f = (λ e. let g = f e in cc, λ (e, h). cc)
guard_iff false other risk f = (λ e. (refl, e), λ (e, h). h)

with_subcommands_iff :
    (mutating : List String) (executable : String) (arguments read_only : List String)
    → (with_subcommands mutating executable arguments read_only ≡ read)
      ↔ ((named mutating (subcommand arguments) ≡ none) × OnlyReads read_only arguments)
unfolding with_subcommands
with_subcommands_iff mutating executable arguments read_only =
    let (sound, complete) = reads_iff arguments (named read_only (subcommand arguments)) in
    elim (Option-cases (named mutating (subcommand arguments))) [
      | inl free ↦ rw free (λ e. (refl, sound e), λ (e, h). complete h)
      | inr (name, hit) ↦ rw hit (λ e. cc, λ (e, h). cc)
    ]

without_subcommands_iff :
    (executable : String) (arguments read_only : List String)
    → (without_subcommands executable arguments read_only ≡ read) ↔ (
        ((has_name privileged_executables executable ≡ true) × OnlyReads read_only arguments)
        ⊎ ((has_name privileged_executables executable ≡ false)
            × (any is_forcing arguments ≡ false)))
unfolding without_subcommands
without_subcommands_iff executable arguments read_only =
    let (sound, complete) = reads_iff arguments (named read_only (subcommand arguments)) in
    let (calm, back) = guard_iff (any is_forcing arguments) destructive read (λ e. cc) in
    elim (Bool-cases (has_name privileged_executables executable)) [
      | inl listed ↦
          rw listed
            (λ e. inl (refl, sound e), λ h. elim h [ inl (e, f) ↦ complete f | inr (e, f) ↦ cc ])
      | inr unlisted ↦ rw unlisted (
        λ e. inr (refl, (calm e).0),
        λ h. elim h [ inl (e, f) ↦ cc | inr (e, f) ↦ back (f, refl) ],
      )
    ]

by_tables_iff :
    (o : Option (List String)) (executable : String) (arguments : List String)
    → (by_tables o executable arguments ≡ read) ↔ IsHarmless o executable arguments
unfolding by_tables
by_tables_iff (some mutating) executable arguments =
    with_subcommands_iff mutating executable arguments (read_only_of executable)
by_tables_iff none executable arguments =
    without_subcommands_iff executable arguments (read_only_of executable)

-- A command line passes as reading exactly if no argument has a shell metacharacter, the executable
-- is not a destructive one, and, by the tables: where the executable has privileged
-- subcommands, its subcommand is none of these but one that only reads, with no mutating verb
-- behind it; where it is privileged otherwise, its subcommand is one that only reads, with no such
-- verb; and where no table names it, no argument is a forcing flag.
pub classify_command-read_iff :
    (first : String) (arguments : List String)
    → (classify_command (first ∷ arguments) ≡ read) ↔ (
        (any has_metacharacter (first ∷ arguments) ≡ false)
        × (has_name destructive_executables (path_name first)
              || is_destructive_family (path_name first)
            ≡ false)
        × IsHarmless
            (subcommands_of privileged_subcommands (path_name first))
            (path_name first)
            arguments)
unfolding classify_command classify_argv
classify_command-read_iff first arguments =
    let exe = path_name first in
    let o = subcommands_of privileged_subcommands exe in
    let lost = has_name destructive_executables exe || is_destructive_family exe in
    let (clean, clean_back) =
      guard_iff (any has_metacharacter (first ∷ arguments)) destructive
        (if lost then destructive else by_tables o exe arguments) (λ e. cc) in
    let (tame, tame_back) = guard_iff lost destructive (by_tables o exe arguments) (λ e. cc) in
    let (sound, complete) = by_tables_iff o exe arguments in
    (
      λ e. let (no_meta, f) = clean e in let (safe, g) = tame f in (no_meta, safe, sound g),
      λ (no_meta, safe, harmless). clean_back (no_meta, tame_back (safe, complete harmless)),
    )
