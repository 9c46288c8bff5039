-- ===== src/Tools/Registry/Laws.antt =====
-- The registry of src/scrappy_os/tools/base.py: what registration, disabling and listing keep.
use scrappy_os.Prelude.{
  String, ◌≡◌, Bool, none, some, List, [], ◌∷◌, contains, arith, eq_iff, ◌==◌, if◌then◌else◌, not,
  Bool-cases, ◌&&◌, ◌∙◌, inl, inr,
}
use scrappy_os.Tools.Registry.{
  Tool, ToolRegistry, get_tool, find_tool, put_tool, register, registered, discard, enabled, enable,
  keep_tools, disable,
}

find_tool-put_tool :
    (name : String) (t : Tool) (tools : List Tool)
    → find_tool name (put_tool t tools) ≡ (if t.name == name then some t else find_tool name tools)
unfolding find_tool put_tool
find_tool-put_tool name t [] = ground arith
find_tool-put_tool name t (other ∷ tools) = ground (
  arith,
  eq_iff other.name t.name,
  eq_iff other.name name,
  eq_iff t.name name,
  find_tool-put_tool name t tools,
)

-- After a successful registration the tool is found under its name, and every other name is looked
-- up as before; the disabled names stay.
pub get_tool-register :
    (name : String) (t : Tool) (replace : Bool) (r r' : ToolRegistry)
    → register t replace r ≡ registered r'
    → (get_tool name r' ≡ (if t.name == name then some t else get_tool name r))
      × (r'.disabled ≡ r.disabled)
unfolding register get_tool
get_tool-register name t replace r r' h = ground (arith, find_tool-put_tool name t r.tools)

find_tool-kept :
    (name : String) (p : String → Bool) (tools : List Tool)
    → find_tool name (keep_tools (λ t. p t.name) tools)
      ≡ (if p name then find_tool name tools else none)
unfolding find_tool keep_tools
find_tool-kept name p [] = ground arith
find_tool-kept name p (t ∷ tools) = elim (Bool-cases (t.name == name)) [
  | inl same ↦
      let e = (eq_iff t.name name).0 same in rw e (ground (arith, find_tool-kept name p tools))
  | inr other ↦ ground (arith, find_tool-kept name p tools)
]

-- Looking a name up among the enabled tools gives the registered tool, and nothing where the name
-- is disabled.
find_tool-enabled :
    (name : String) (r : ToolRegistry)
    → find_tool name (enabled r) ≡ (if contains r.disabled name then none else get_tool name r)
unfolding enabled get_tool
find_tool-enabled name r =
    find_tool-kept name (λ n. not (contains r.disabled n)) r.tools ∙ ground arith

contains-discard :
    (name other : String) (xs : List String)
    → contains (discard name xs) other ≡ (not (name == other) && contains xs other)
unfolding discard
contains-discard name other [] = ground arith
contains-discard name other (x ∷ xs) =
    ground (arith, eq_iff x name, eq_iff x other, eq_iff name other, contains-discard name other xs)

-- A name is usable after `enable`, not after `disable`; neither changes what another name finds.
pub find_tool-toggled :
    (name other : String) (r : ToolRegistry)
    → (find_tool other (enabled (enable name r))
        ≡ (if name == other then get_tool other r else find_tool other (enabled r)))
      × (find_tool other (enabled (disable name r))
          ≡ (if name == other then none else find_tool other (enabled r)))
unfolding enable disable get_tool
find_tool-toggled name other r = ground (
  arith,
  find_tool-enabled other r,
  find_tool-enabled other (enable name r),
  find_tool-enabled other (disable name r),
  contains-discard name other r.disabled,
)
