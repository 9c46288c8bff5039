-- ===== src/Tools/Registry/Tests.antt =====
-- Runs of the registry, and the theorems at concrete inputs.
use scrappy_os.Prelude.{String, ◌≡◌, refl, false, none, some, [], ◌∷◌}
use scrappy_os.Core.Enums.{read, destructive}
use scrappy_os.Core.Values.{end}
use scrappy_os.Tools.Registry.{
  Tool, ToolRegistry, find_tool, get_tool, register, disable, enable, enabled, by_max_risk, valid,
  classified, finished,
}
use scrappy_os.Tools.Registry.Laws.{get_tool-register, find_tool-toggled}

abbrev tool : String → Tool
tool name = record {
  name = name;
  risk = destructive;
  min_risk = some read;
  parse_arguments = λ a. valid a;
  classify = λ a. classified read "reads";
  affected_paths = λ a. [];
  run = λ a. finished end;
}

abbrev registry : ToolRegistry
registry = record { tools = tool "fs.read" ∷ []; disabled = [] }

abbrev grown : ToolRegistry
grown = record { tools = tool "fs.read" ∷ tool "git.log" ∷ []; disabled = [] }

-- A tool is listed by its floor, and not once it is disabled.
listed :
    (by_max_risk read registry ≡ tool "fs.read" ∷ [])
    × (by_max_risk read (disable "fs.read" registry) ≡ [])
unfolding by_max_risk disable
listed = (refl, refl)

get_tool-register_case :
    (get_tool "git.log" grown ≡ some (tool "git.log")) × (grown.disabled ≡ registry.disabled)
get_tool-register_case =
    get_tool-register "git.log" (tool "git.log") false registry grown (unfold register in refl)

find_tool-toggled_case :
    (find_tool "fs.read" (enabled (enable "fs.read" registry)) ≡ get_tool "fs.read" registry)
    × (find_tool "fs.read" (enabled (disable "fs.read" registry)) ≡ none)
find_tool-toggled_case = find_tool-toggled "fs.read" "fs.read" registry
