-- ===== src/Security/Paths/Containment.antt =====
-- What the path guard lets through.
use scrappy_os.Prelude.{
  ◌≡◌, ◌↔◌, refl, true, List, [], ◌∷◌, ◌++◌, any, Any, arith, Bool-cases, inl, inr, eq_iff, false,
  All, String, Option, map, Bool, if◌then◌else◌,
}
use scrappy_os.Security.Paths.{
  Parts, is_within, write_resolved, Machine, allowed, PathResult, forbidden_write_roots,
  not_allowed, sensitive_read_paths, read_resolved, validate_write_path, validate_read_path,
  resolve_path, all_roots, is_no_roots, no_read_roots, holds_credentials, outside_read_roots,
}

-- The path is the root or lies below it.
abbrev pub IsBelow : Parts → Parts → Type 0
IsBelow root p = (rest : Parts) × (p ≡ root ++ rest)

pub is_within_iff : (p root : Parts) → (is_within p root ≡ true) ↔ IsBelow root p
unfolding is_within
is_within_iff p [] = (λ e. (p, refl), λ b. refl)
is_within_iff [] (r ∷ root) = (λ e. cc, λ (rest, e). cc)
is_within_iff (c ∷ p) (r ∷ root) =
    let (sound, complete) = is_within_iff p root in
    (
      λ e.
          let (rest, f) = sound (ground arith) in
          let g : c ≡ r = (eq_iff c r).0 (ground arith) in (rest, λ i. g i ∷ f i),
      λ (rest, e).
          let f : c ≡ r = cc in
          let g : p ≡ root ++ rest = cc in let h = complete (rest, g) in ground (arith, eq_iff c r),
    )

any-Any_iff :
    (p : Parts) (roots : List Parts)
    → (any (λ root. is_within p root) roots ≡ true) ↔ Any (λ root. IsBelow root p) roots
any-Any_iff p [] = (λ e. cc, λ b. elim b [ ])
any-Any_iff p (root ∷ roots) =
    let (sound, complete) = is_within_iff p root in
    let (more, back) = any-Any_iff p roots in
    (
      λ e. elim (Bool-cases (is_within p root)) [
        | inl hit ↦ inl (sound hit)
        | inr miss ↦ inr (more (ground arith))
      ],
      λ b. elim b [
        | inl here ↦ let f = complete here in ground arith
        | inr there ↦ let f = back there in ground arith
      ],
    )

none-All_iff :
    (p : Parts) (roots : List Parts)
    → (any (λ root. is_within p root) roots ≡ false) ↔ All (λ root. ¬ IsBelow root p) roots
none-All_iff p [] = (λ e. tt, λ b. refl)
none-All_iff p (root ∷ roots) =
    let (sound, complete) = is_within_iff p root in
    let (more, back) = none-All_iff p roots in
    (
      λ e. (λ b. let f = complete b in ground arith, more (ground arith)),
      λ (out, rest). elim (Bool-cases (is_within p root)) [
        | inl hit ↦ elim (out (sound hit)) [ ]
        | inr miss ↦ let f = back rest in ground arith
      ],
    )

-- What may be written: below no system tree, below some root, and not a link.
abbrev pub IsWritable : Machine → List Parts → Parts → Type 0
IsWritable m roots p =
    All (λ root. ¬ IsBelow root p) forbidden_write_roots
    × Any (λ root. IsBelow root p) roots
    × (m.is_symlink p ≡ false)

IsWritable-at :
    (m : Machine) (roots : List Parts) {q p : Parts}
    → q ≡ p
    → IsWritable m roots p
    → IsWritable m roots q
IsWritable-at m roots e w = rw e w

write_guards :
    (m : Machine) (q p : Parts) (roots : List Parts)
    → (write_resolved m (allowed q) roots ≡ allowed p) ↔ (
        (allowed q ≡ allowed p)
        × (any (λ root. is_within q root) forbidden_write_roots ≡ false)
        × (any (λ root. is_within q root) roots ≡ true)
        × (m.is_symlink q ≡ false))
unfolding write_resolved
write_guards m q p roots = ground arith

write_resolved_iff :
    (m : Machine) (r : PathResult) (p : Parts) (roots : List Parts)
    → (write_resolved m r roots ≡ allowed p) ↔ ((r ≡ allowed p) × IsWritable m roots p)
unfolding write_resolved
write_resolved_iff m (not_allowed why) p roots =
    (λ e. let f : not_allowed why ≡ allowed p = e in cc, λ (e, w). e)
write_resolved_iff m (allowed q) p roots =
    let (open_it, close_it) = write_guards m q p roots in
    let (apart, apart_back) = none-All_iff q forbidden_write_roots in
    let (under, under_back) = any-Any_iff q roots in
    (
      λ e.
          let (same, outside, in_root, link) = open_it e in
          let f : q ≡ p = cc in
          let w : IsWritable m roots q = (apart outside, under in_root, link) in (same, rw (← f) w),
      λ (same, w).
          let f : q ≡ p = cc in
          let (outside, in_root, link) = IsWritable-at m roots f w in
          close_it (same, apart_back outside, under_back in_root, link),
    )

-- A path is let through for writing, as the resolved path, exactly if it resolves to a path that
-- is not one of the system trees or below one, that is the workspace or another configured root or
-- lies below one of them, and that is no symbolic link.
pub validate_write_path_iff :
    (m : Machine) (raw workspace : String) (extra_roots : List String) (p : Parts)
    → (validate_write_path m raw workspace extra_roots ≡ allowed p) ↔ (
        (resolve_path m raw ≡ allowed p)
        × IsWritable m (map m.resolve_root (workspace ∷ extra_roots)) p)
unfolding validate_write_path
validate_write_path_iff m raw workspace extra_roots p =
    write_resolved_iff m (resolve_path m raw) p (map m.resolve_root (workspace ∷ extra_roots))

-- What may be read: below nothing that holds credentials, and below some root.
abbrev pub IsReadable : List Parts → Parts → Type 0
IsReadable roots p =
    All (λ root. ¬ IsBelow root p) sensitive_read_paths × Any (λ root. IsBelow root p) roots

IsReadable-at : (roots : List Parts) {q p : Parts} → q ≡ p → IsReadable roots p → IsReadable roots q
IsReadable-at roots e w = rw e w

read_tests :
    (none_set secret under : Bool) (q p : Parts)
    → ((if none_set
          then not_allowed no_read_roots
          else if secret
          then not_allowed holds_credentials
          else if under
          then allowed q
          else not_allowed outside_read_roots)
        ≡ allowed p)
      ↔ ((allowed q ≡ allowed p) × (none_set ≡ false) × (secret ≡ false) × (under ≡ true))
read_tests none_set secret under q p = ground arith

under-is_no_roots :
    (q : Parts) (roots : List Parts)
    → any (λ root. is_within q root) roots ≡ true
    → is_no_roots roots ≡ false
under-is_no_roots q [] e = cc
under-is_no_roots q (root ∷ roots) e = refl

read_guards :
    (q p : Parts) (roots : List Parts)
    → (read_resolved (allowed q) roots ≡ allowed p) ↔ (
        (allowed q ≡ allowed p)
        × (any (λ root. is_within q root) sensitive_read_paths ≡ false)
        × (any (λ root. is_within q root) roots ≡ true))
unfolding read_resolved
read_guards q p roots =
    let secret = any (λ root. is_within q root) sensitive_read_paths in
    let (sound, complete) =
      read_tests (is_no_roots roots) secret (any (λ root. is_within q root) roots) q p in
    (
      λ e. let (same, some_set, safe, under) = sound e in (same, safe, under),
      λ (same, safe, under). complete (same, under-is_no_roots q roots under, safe, under),
    )

read_resolved_iff :
    (r : PathResult) (p : Parts) (roots : List Parts)
    → (read_resolved r roots ≡ allowed p) ↔ ((r ≡ allowed p) × IsReadable roots p)
unfolding read_resolved
read_resolved_iff (not_allowed why) p roots =
    (λ e. let f : not_allowed why ≡ allowed p = e in cc, λ (e, w). e)
read_resolved_iff (allowed q) p roots =
    let (open_it, close_it) = read_guards q p roots in
    let (apart, apart_back) = none-All_iff q sensitive_read_paths in
    let (under, under_back) = any-Any_iff q roots in
    (
      λ e.
          let (same, outside, in_root) = open_it e in
          let f : q ≡ p = cc in
          let w : IsReadable roots q = (apart outside, under in_root) in (same, rw (← f) w),
      λ (same, w).
          let f : q ≡ p = cc in
          let (outside, in_root) = IsReadable-at roots f w in
          close_it (same, apart_back outside, under_back in_root),
    )

-- A path is let through for reading, as the resolved path, exactly if it resolves to a path that is
-- not one of the places that hold credentials or below one, and that is a configured read root or the
-- workspace or lies below one of them.
pub validate_read_path_iff :
    (m : Machine) (raw : String) (allowed_roots : List String) (workspace : Option String)
    (p : Parts)
    → (validate_read_path m raw allowed_roots workspace ≡ allowed p)
      ↔ ((resolve_path m raw ≡ allowed p) × IsReadable (all_roots m allowed_roots workspace) p)
unfolding validate_read_path
validate_read_path_iff m raw allowed_roots workspace p =
    read_resolved_iff (resolve_path m raw) p (all_roots m allowed_roots workspace)
