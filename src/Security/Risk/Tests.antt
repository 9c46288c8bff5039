-- ===== src/Security/Risk/Tests.antt =====
-- Tests of security/risk.py.
use scrappy_os.Prelude.{◌≡◌, ◌↔◌, ◌||◌, refl, false, [], ◌∷◌, any}
use scrappy_os.Core.Enums.{read, privileged, destructive}
use scrappy_os.Security.Risk.{
  classify_command, has_metacharacter, has_name, destructive_executables, is_destructive_family,
  path_name, subcommands_of, privileged_subcommands,
}
use scrappy_os.Security.Risk.Commands.{IsHarmless, classify_command-read_iff}

classify-status : classify_command ("systemctl" ∷ "status" ∷ "sshd" ∷ []) ≡ read
unfolding classify_command
classify-status = refl

classify-restart : classify_command ("/usr/bin/Systemctl" ∷ "restart" ∷ []) ≡ privileged
unfolding classify_command
classify-restart = refl

classify-ip : classify_command ("ip" ∷ "link" ∷ "set" ∷ "eth0" ∷ "down" ∷ []) ≡ privileged
unfolding classify_command
classify-ip = refl

classify-rm : classify_command ("/bin/rm" ∷ "x" ∷ []) ≡ destructive
unfolding classify_command
classify-rm = refl

classify-mkfs : classify_command ("mkfs.ext4" ∷ "/dev/sda" ∷ []) ≡ destructive
unfolding classify_command
classify-mkfs = refl

classify-pipe : classify_command ("cat" ∷ "a|b" ∷ []) ≡ destructive
unfolding classify_command
classify-pipe = refl

classify-force : classify_command ("cp" ∷ "-vrf" ∷ "a" ∷ []) ≡ destructive
unfolding classify_command
classify-force = refl

-- An executable that no table names is taken for one that reads, and so is `-Rf`.
classify-unknown : classify_command ("chmod" ∷ "-Rf" ∷ "777" ∷ "/" ∷ []) ≡ read
unfolding classify_command
classify-unknown = refl

classify_command-read_iff_example : (classify_command ("ip" ∷ "link" ∷ "show" ∷ []) ≡ read) ↔ (
    (any has_metacharacter ("ip" ∷ "link" ∷ "show" ∷ []) ≡ false)
    × (has_name destructive_executables (path_name "ip") || is_destructive_family (path_name "ip")
        ≡ false)
    × IsHarmless
        (subcommands_of privileged_subcommands (path_name "ip"))
        (path_name "ip")
        ("link" ∷ "show" ∷ []))
classify_command-read_iff_example = classify_command-read_iff "ip" ("link" ∷ "show" ∷ [])
