-- ===== src/Security/Paths/Tests.antt =====
-- Tests of security/paths.py on a machine whose home is /home/kk.
use scrappy_os.Prelude.{◌≡◌, ◌↔◌, refl, none, some, true, false, [], ◌∷◌, map, ◌==◌, if◌then◌else◌}
use scrappy_os.Security.Paths.{
  Parts, Machine, allowed, not_allowed, never_writable, empty_path, holds_credentials, resolve_path,
  validate_write_path, validate_read_path, is_inside_workspace, all_roots,
}
use scrappy_os.Security.Paths.Containment.{
  IsWritable, IsReadable, validate_write_path_iff, validate_read_path_iff,
}

abbrev home : Parts
home = "home" ∷ "kk" ∷ []

-- A machine on which the link `trap` in the home leads to `/etc/passwd`.
abbrev sample_machine : Machine
sample_machine = record {
  resolve = λ raw.
      if raw == "~/trap"
      then some ("etc" ∷ "passwd" ∷ [])
      else if raw == "/etc/shadow"
      then some ("etc" ∷ "shadow" ∷ [])
      else some ("home" ∷ "kk" ∷ raw ∷ []);
  resolve_root = λ raw. home;
  is_symlink = λ p. false;
}

write-note :
    validate_write_path sample_machine "note" "~" [] ≡ allowed ("home" ∷ "kk" ∷ "note" ∷ [])
unfolding validate_write_path
write-note = refl

write-trap : validate_write_path sample_machine "~/trap" "~" [] ≡ not_allowed never_writable
unfolding validate_write_path
write-trap = refl

write-blank : validate_write_path sample_machine "  " "~" [] ≡ not_allowed empty_path
unfolding validate_write_path
write-blank = refl

read-shadow :
    validate_read_path sample_machine "/etc/shadow" ("~" ∷ []) none ≡ not_allowed holds_credentials
unfolding validate_read_path
read-shadow = refl

inside-note : is_inside_workspace sample_machine "note" "~" ≡ true
unfolding is_inside_workspace
inside-note = refl

validate_write_path_iff_example :
    (validate_write_path sample_machine "note" "~" [] ≡ allowed ("home" ∷ "kk" ∷ "note" ∷ [])) ↔ (
      (resolve_path sample_machine "note" ≡ allowed ("home" ∷ "kk" ∷ "note" ∷ []))
      × IsWritable sample_machine
          (map sample_machine.resolve_root ("~" ∷ []))
          ("home" ∷ "kk" ∷ "note" ∷ []))
validate_write_path_iff_example =
    validate_write_path_iff sample_machine "note" "~" [] ("home" ∷ "kk" ∷ "note" ∷ [])

validate_read_path_iff_example :
    (validate_read_path sample_machine "note" ("~" ∷ []) none
      ≡ allowed ("home" ∷ "kk" ∷ "note" ∷ []))
    ↔ ((resolve_path sample_machine "note" ≡ allowed ("home" ∷ "kk" ∷ "note" ∷ []))
        × IsReadable (all_roots sample_machine ("~" ∷ []) none) ("home" ∷ "kk" ∷ "note" ∷ []))
validate_read_path_iff_example =
    validate_read_path_iff sample_machine "note" ("~" ∷ []) none ("home" ∷ "kk" ∷ "note" ∷ [])
