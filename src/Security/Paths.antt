-- ===== src/Security/Paths.antt =====
-- src/scrappy_os/security/paths.py: which paths may be read and written.
-- A resolved path is the list of its components below the root. What the file system answers,
-- symbolic links and home directories included, is a parameter; it raises no error for a root.
pub mod Containment
mod Tests
use Prim.Native.Char.{code}
use Prim.Native.String.{[], ◌∷◌}
use scrappy_os.Prelude.{
  ℕ, String, Bool, true, false, not, ◌&&◌, ◌||◌, Option, none, some, List, ◌++◌, any, map, eqb,
  ◌==◌, if◌then◌else◌,
}
use scrappy_os.Prelude.Text.{strip}

abbrev pub Parts : Type 0
Parts = List String

abbrev parts1 : String → Parts
parts1 a = List.◌∷◌ a List.[]

abbrev parts2 : String → String → Parts
parts2 a b = List.◌∷◌ a (parts1 b)

abbrev parts3 : String → String → String → Parts
parts3 a b c = List.◌∷◌ a (parts2 b c)

abbrev pub forbidden_write_roots : List Parts
forbidden_write_roots = List.◌∷◌ (parts1 "boot") (
    List.◌∷◌ (parts1 "dev") (
      List.◌∷◌ (parts1 "etc") (
        List.◌∷◌ (parts1 "proc") (
          List.◌∷◌ (parts1 "sys") (
            List.◌∷◌ (parts1 "usr") (
              List.◌∷◌ (parts1 "bin") (
                List.◌∷◌ (parts1 "sbin") (
                  List.◌∷◌ (parts1 "lib") (
                    List.◌∷◌ (parts1 "lib64") (
                      List.◌∷◌ (parts3 "var" "lib" "dpkg")
                        (List.◌∷◌ (parts3 "var" "lib" "rpm") List.[])))))))))))

abbrev pub sensitive_read_paths : List Parts
sensitive_read_paths = List.◌∷◌ (parts2 "etc" "shadow") (
    List.◌∷◌ (parts2 "etc" "gshadow") (
      List.◌∷◌ (parts2 "etc" "sudoers") (
        List.◌∷◌ (parts2 "root" ".ssh") (
          List.◌∷◌ (parts2 "root" ".aws") (
            List.◌∷◌ (parts3 "etc" "ssh" "ssh_host_rsa_key") (
              List.◌∷◌ (parts3 "etc" "ssh" "ssh_host_ecdsa_key")
                (List.◌∷◌ (parts3 "etc" "ssh" "ssh_host_ed25519_key") List.[])))))))

-- What the file system answers: a path resolved, if it can be; a root resolved; whether a resolved
-- path is a symbolic link.
pub record Machine : Type 0 where
  pub resolve : String → Option Parts
  pub resolve_root : String → Parts
  pub is_symlink : Parts → Bool

pub data PathRefusal : Type 0 where
  nul_byte empty_path unresolvable holds_credentials outside_read_roots no_read_roots never_writable
        outside_workspace through_symlink :
      PathRefusal

-- A resolved path, or `PathNotAllowed`.
pub data PathResult : Type 0 where
  allowed : Parts → PathResult
  not_allowed : PathRefusal → PathResult

unfoldable pub has_nul : String → Bool
has_nul [] = false
has_nul (c ∷ s) = eqb (code c) 0 || has_nul s

abbrev resolution : Option Parts → PathResult
resolution none = not_allowed unresolvable
resolution (some p) = allowed p

-- `_resolve`
unfoldable pub resolve_path : Machine → String → PathResult
unfolding has_nul strip
resolve_path m raw =
    if has_nul raw
    then not_allowed nul_byte
    else if strip raw == ""
    then not_allowed empty_path
    else resolution (m.resolve raw)

-- `is_within`
unfoldable pub is_within : Parts → Parts → Bool
is_within candidate List.[] = true
is_within List.[] (List.◌∷◌ r root) = false
is_within (List.◌∷◌ c candidate) (List.◌∷◌ r root) = (c == r) && is_within candidate root

abbrev pub optional_root : Option String → List String
optional_root none = List.[]
optional_root (some w) = List.◌∷◌ w List.[]

-- `_all_roots`, where there is one.
abbrev pub all_roots : Machine → List String → Option String → List Parts
all_roots m roots workspace = map m.resolve_root (roots ++ optional_root workspace)

abbrev pub is_no_roots : List Parts → Bool
is_no_roots List.[] = true
is_no_roots (List.◌∷◌ r roots) = false

read_resolved : PathResult → List Parts → PathResult
unfolding is_within
read_resolved (not_allowed why) roots = not_allowed why
read_resolved (allowed p) roots =
    if is_no_roots roots
    then not_allowed no_read_roots
    else if any (λ sensitive. is_within p sensitive) sensitive_read_paths
    then not_allowed holds_credentials
    else if any (λ root. is_within p root) roots
    then allowed p
    else not_allowed outside_read_roots

-- `validate_read_path`
unfoldable pub validate_read_path : Machine → String → List String → Option String → PathResult
unfolding read_resolved resolve_path
validate_read_path m raw allowed_roots workspace =
    read_resolved (resolve_path m raw) (all_roots m allowed_roots workspace)

write_resolved : Machine → PathResult → List Parts → PathResult
unfolding is_within
write_resolved m (not_allowed why) roots = not_allowed why
write_resolved m (allowed p) roots =
    if any (λ forbidden. is_within p forbidden) forbidden_write_roots
    then not_allowed never_writable
    else if not (any (λ root. is_within p root) roots)
    then not_allowed outside_workspace
    else if m.is_symlink p
    then not_allowed through_symlink
    else allowed p

-- `validate_write_path`
unfoldable pub validate_write_path : Machine → String → String → List String → PathResult
unfolding write_resolved resolve_path
validate_write_path m raw workspace extra_roots =
    write_resolved m (resolve_path m raw) (map m.resolve_root (List.◌∷◌ workspace extra_roots))

inside : PathResult → Parts → Bool
unfolding is_within
inside (not_allowed why) root = false
inside (allowed p) root = is_within p root

-- `is_inside_workspace`
unfoldable pub is_inside_workspace : Machine → String → String → Bool
unfolding inside resolve_path
is_inside_workspace m raw workspace = inside (resolve_path m raw) (m.resolve_root workspace)
