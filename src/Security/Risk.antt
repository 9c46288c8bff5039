-- ===== src/Security/Risk.antt =====
-- src/scrappy_os/security/risk.py: how dangerous a command line or a path is.
-- The reasons, which are texts for people, are left out. A regular expression stands as the test that
-- it is; its `$` matches before no last line feed here, since such an argument is refused before.
-- `shlex.split` is a parameter.
pub mod Commands
mod Tests
use Prim.Native.Char.{code}
use Prim.Native.String
use Prim.Native.String.{[], ◌∷◌}
use scrappy_os.Prelude.{
  ℕ, String, Bool, true, false, not, ◌&&◌, ◌||◌, Option, none, some, List, any, leb, eqb, ◌==◌,
  if◌then◌else◌,
}
use scrappy_os.Prelude.Text.{split_on, is_lowered, begins_lowered}
use scrappy_os.Core.Enums.{RiskLevel, read, write, privileged, destructive}
use scrappy_os.Security.Paths.{Machine, is_inside_workspace}

abbrev pub has_name : List String → String → Bool
unfolding is_lowered
has_name names s = any (λ name. is_lowered s name) names

-- Words between single spaces.
abbrev pub table : String → List String
unfolding split_on
table names = split_on b' ' names

abbrev pub privileged_executables : List String
privileged_executables =
    table
      "apt apt-get chcon crontab dnf dpkg groupadd insmod ip iptables journalctl kill killall mount nft nmcli pip pkill rmmod service setenforce snap sysctl systemctl ufw umount update-alternatives yum"

abbrev pub destructive_executables : List String
destructive_executables =
    table "dd fdisk halt init mkfs parted poweroff reboot rm shred shutdown userdel wipefs"

abbrev pub mutating_verbs : List String
mutating_verbs = table "set add del delete flush change replace up down"

abbrev pub destructive_executable_prefixes : List String
destructive_executable_prefixes = table "mkfs fsck sfdisk cfdisk"

abbrev pub shell_metacharacters : List String
shell_metacharacters = List.◌∷◌ "\n" (table "; && || | ` $( > <")

abbrev pub Subcommands : Type 0
Subcommands = List (String × List String)

abbrev pub privileged_subcommands : Subcommands
privileged_subcommands =
    List.◌∷◌ ("systemctl", table "start stop restart reload enable disable mask unmask kill")
      (List.◌∷◌ ("service", table "start stop restart reload")
        (List.◌∷◌ ("apt", table "install remove purge upgrade dist-upgrade autoremove")
          (List.◌∷◌ ("apt-get", table "install remove purge upgrade dist-upgrade autoremove")
            (List.◌∷◌ ("pip", table "install uninstall") List.[]))))

abbrev pub read_only_subcommands : Subcommands
read_only_subcommands =
    List.◌∷◌
      (
        "systemctl",
        table
            "status show list-units list-unit-files is-active is-enabled is-failed cat get-default",
      )
      (List.◌∷◌ ("service", table "status")
        (List.◌∷◌ ("ip", table "addr a link route neigh")
          (List.◌∷◌ ("pip", table "list show freeze")
            (List.◌∷◌ ("apt", table "list show policy") List.[]))))

-- The entry of an executable.
unfoldable pub subcommands_of : Subcommands → String → Option (List String)
unfolding is_lowered
subcommands_of List.[] executable = none
subcommands_of (List.◌∷◌ (name, subcommands) entries) executable =
    let rest = subcommands_of entries executable in
    if is_lowered executable name then some subcommands else rest

abbrev pub or_nothing : Option (List String) → List String
or_nothing none = List.[]
or_nothing (some names) = names

unfoldable pub begins : String → String → Bool
begins s [] = true
begins [] (d ∷ t) = false
begins (c ∷ s) (d ∷ t) = eqb (code c) (code d) && begins s t

-- `t in s`
unfoldable pub has_text : String → String → Bool
unfolding begins
has_text t [] = begins [] t
has_text t (c ∷ s) = begins (c ∷ s) t || has_text t s

abbrev pub has_metacharacter : String → Bool
has_metacharacter token = any (λ meta. has_text meta token) shell_metacharacters

-- `Path(text).name`: the last component, where an empty one and `.` are none.
abbrev pub keep_name : String → String → String
keep_name part later = if part == "" || part == "." then later else part

unfoldable pub last_name : List String → String → String
last_name List.[] name = name
last_name (List.◌∷◌ part parts) name = last_name parts (keep_name part name)

abbrev pub path_name : String → String
unfolding last_name split_on
path_name s = last_name (split_on b'/' s) ""

abbrev pub is_destructive_family : String → Bool
unfolding is_lowered begins_lowered
is_destructive_family executable =
    any
      (λ prefix. is_lowered executable prefix || begins_lowered executable (String.◌++◌ prefix "."))
      destructive_executable_prefixes

abbrev is_lower : String → Bool
is_lower [] = true
is_lower (c ∷ s) = leb b'a' (code c) && leb (code c) b'z' && is_lower s

-- `.*a.*b`, for two characters.
after_first : ℕ → (String → Bool) → String → Bool
after_first a then_ [] = false
after_first a then_ (c ∷ s) =
    let later = after_first a then_ s in (eqb (code c) a && then_ s) || later

has_char : ℕ → String → Bool
has_char a [] = false
has_char a (c ∷ s) = eqb (code c) a || has_char a s

letters_both : String → Bool
unfolding after_first has_char
letters_both s =
    is_lower s && (after_first b'r' (has_char b'f') s || after_first b'f' (has_char b'r') s)

-- `DESTRUCTIVE_ARGUMENT_PATTERNS`
unfoldable pub is_forcing : String → Bool
unfolding letters_both
is_forcing [] = false
is_forcing (c ∷ s) =
    eqb (code c) b'-'
    && (s == "force"
        || s == "f"
        || s == "-force"
        || s == "-f"
        || letters_both s
        || s == "-no-preserve-root")

abbrev pub is_option : String → Bool
unfolding begins
is_option argument = begins argument "-"

-- The first argument that is no option.
unfoldable pub subcommand : List String → Option String
subcommand List.[] = none
subcommand (List.◌∷◌ argument arguments) =
    let rest = subcommand arguments in if is_option argument then rest else some argument

-- `_has_mutating_verb` behind the subcommand, which is there.
unfoldable pub has_mutating_verb : List String → String → Bool
unfolding has_name
has_mutating_verb List.[] sub = false
has_mutating_verb (List.◌∷◌ argument arguments) sub =
    let rest = has_mutating_verb arguments sub in
    if is_lowered argument sub then any (λ later. has_name mutating_verbs later) arguments else rest

-- The name of a table that a subcommand is, in whatever case it is written.
unfoldable pub named : List String → Option String → Option String
unfolding is_lowered
named names none = none
named List.[] (some sub) = none
named (List.◌∷◌ name names) (some sub) =
    let rest = named names (some sub) in if is_lowered sub name then some name else rest

abbrev pub is_none : Option String → Bool
is_none none = true
is_none (some s) = false

-- A subcommand that only reads, if no verb behind it changes anything.
abbrev pub read_or_privileged : List String → Option String → RiskLevel
unfolding has_mutating_verb
read_or_privileged arguments none = privileged
read_or_privileged arguments (some sub) =
    if has_mutating_verb arguments sub then privileged else read

with_subcommands : List String → String → List String → List String → RiskLevel
unfolding named subcommand read_or_privileged
with_subcommands mutating executable arguments read_only =
    if is_none (named mutating (subcommand arguments))
    then read_or_privileged arguments (named read_only (subcommand arguments))
    else privileged

-- The classification of an executable that has no entry among the privileged subcommands.
without_subcommands : String → List String → List String → RiskLevel
unfolding named subcommand is_forcing read_or_privileged
without_subcommands executable arguments read_only =
    if has_name privileged_executables executable
    then read_or_privileged arguments (named read_only (subcommand arguments))
    else if any is_forcing arguments
    then destructive
    else read

by_tables : Option (List String) → String → List String → RiskLevel
unfolding subcommands_of with_subcommands without_subcommands
by_tables none executable arguments =
    without_subcommands executable arguments
      (or_nothing (subcommands_of read_only_subcommands executable))
by_tables (some mutating) executable arguments =
    with_subcommands mutating executable arguments
      (or_nothing (subcommands_of read_only_subcommands executable))

classify_argv : String → String → List String → RiskLevel
unfolding by_tables has_text is_destructive_family
classify_argv first executable arguments =
    if any has_metacharacter (List.◌∷◌ first arguments)
    then destructive
    else if has_name destructive_executables executable || is_destructive_family executable
    then destructive
    else by_tables (subcommands_of privileged_subcommands executable) executable arguments

-- `classify_command`
unfoldable pub classify_command : List String → RiskLevel
unfolding classify_argv path_name
classify_command List.[] = destructive
classify_command (List.◌∷◌ first arguments) = classify_argv first (path_name first) arguments

abbrev classify_split : Option (List String) → RiskLevel
unfolding classify_command
classify_split none = destructive
classify_split (some argv) = classify_command argv

-- `classify_command_string`
unfoldable pub classify_command_string : (String → Option (List String)) → String → RiskLevel
unfolding classify_split
classify_command_string shlex_split command = classify_split (shlex_split command)

-- `classify_path_write`
unfoldable pub classify_path_write : Machine → String → String → RiskLevel
unfolding is_inside_workspace
classify_path_write m path workspace =
    if is_inside_workspace m path workspace then write else privileged

-- `classify_path_delete`
unfoldable pub classify_path_delete : Machine → String → String → RiskLevel
unfolding is_inside_workspace
classify_path_delete m path workspace =
    if is_inside_workspace m path workspace then write else destructive
