-- ===== src/Tools/Registry.antt =====
-- src/scrappy_os/tools/base.py: tools and their registry.
-- What a tool does is a parameter: its argument model, its classification, and its run.
pub mod Laws
mod Tests
use scrappy_os.Prelude.{
  ℕ, String, Bool, true, false, not, ◌&&◌, Option, none, some, List, [], ◌∷◌, map, contains, leb,
  ◌==◌, if◌then◌else◌,
}
use scrappy_os.Core.Enums.{RiskLevel, rank}
use scrappy_os.Core.Values.{JsonFields}

-- `parse_arguments`: the typed arguments, or the message of `ValidationFailed`.
pub data Parsed : Type 0 where
  valid : JsonFields → Parsed
  invalid : String → Parsed

-- `classify`: a risk with its reason, the message of a `ScrappyError`, or any other exception (the
-- `ValueError` of a malformed URL, in `tools/http.py`).
pub data Classified : Type 0 where
  classified : RiskLevel → String → Classified
  unclassified : String → Classified
  broken : Classified

-- `run` under its time limit: the output; the limit passed; a `ScrappyError` with its message; or
-- any other exception with the name of its type and its message.
pub data Ran : Type 0 where
  finished : JsonFields → Ran
  timed_out : Ran
  raised : String → Ran
  crashed : String → String → Ran

pub record Tool : Type 0 where
  pub name : String
  pub risk : RiskLevel
  pub min_risk : Option RiskLevel
  pub parse_arguments : JsonFields → Parsed
  pub classify : JsonFields → Classified
  pub affected_paths : JsonFields → List String
  pub run : JsonFields → Ran

-- `risk_floor`
abbrev pub risk_floor : Tool → RiskLevel
risk_floor t = elim t.min_risk [ none ↦ t.risk | some r ↦ r ]

pub record ToolRegistry : Type 0 where
  pub tools : List Tool
  pub disabled : List String

unfoldable pub find_tool : String → List Tool → Option Tool
find_tool name [] = none
find_tool name (t ∷ tools) = if t.name == name then some t else find_tool name tools

-- `get`: `none` is `ToolNotFound`.
unfoldable pub get_tool : String → ToolRegistry → Option Tool
unfolding find_tool
get_tool name r = find_tool name r.tools

abbrev pub names : ToolRegistry → List String
names r = map (λ (t : Tool). t.name) r.tools

-- `self._tools[tool.name] = tool`: a tool of that name is replaced where it stands.
put_tool : Tool → List Tool → List Tool
put_tool t [] = t ∷ []
put_tool t (other ∷ tools) =
    let rest = put_tool t tools in if other.name == t.name then t ∷ tools else other ∷ rest

pub data Registered : Type 0 where
  registered : ToolRegistry → Registered
  nameless duplicate : Registered

unfoldable pub register : Tool → Bool → ToolRegistry → Registered
unfolding put_tool
register t replace r =
    if t.name == ""
    then nameless
    else if contains (names r) t.name && not replace
    then duplicate
    else registered (record r { tools = put_tool t r.tools })

unfoldable pub disable : String → ToolRegistry → ToolRegistry
disable name r = record r { disabled = name ∷ r.disabled }

discard : String → List String → List String
discard name [] = []
discard name (x ∷ xs) = let rest = discard name xs in if x == name then rest else x ∷ rest

unfoldable pub enable : String → ToolRegistry → ToolRegistry
unfolding discard
enable name r = record r { disabled = discard name r.disabled }

-- `enabled` and `by_max_risk`, in the order of registration; the source sorts by name.
keep_tools : (Tool → Bool) → List Tool → List Tool
keep_tools p [] = []
keep_tools p (t ∷ tools) = let rest = keep_tools p tools in if p t then t ∷ rest else rest

unfoldable pub enabled : ToolRegistry → List Tool
unfolding keep_tools
enabled r = keep_tools (λ t. not (contains r.disabled t.name)) r.tools

unfoldable pub by_max_risk : RiskLevel → ToolRegistry → List Tool
unfolding keep_tools enabled
by_max_risk ceiling r = keep_tools (λ t. leb (rank (risk_floor t)) (rank ceiling)) (enabled r)
