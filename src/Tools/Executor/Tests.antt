-- ===== src/Tools/Executor/Tests.antt =====
-- Runs of the executor, and the theorems at concrete inputs.
use scrappy_os.Prelude.{String, ◌≡◌, refl, true, false, none, some, [], ◌∷◌}
use scrappy_os.Core.Enums.{read, write, destructive}
use scrappy_os.Core.Calls.{ToolCall}
use scrappy_os.Core.Values.{end}
use scrappy_os.Tools.Registry.{Tool, valid, classified, broken, finished}
use scrappy_os.Tools.Executor.{
  World, ToolExecutor, Occasion, execute, Prompt, broken_classification, store_error,
}
use scrappy_os.Tools.Executor.Gatekeeping.{OnlyPermitted, execute-runs}
use scrappy_os.Tools.Executor.Recorded.{IsAudited, execute-records}

abbrev delete_tool : Tool
delete_tool = record {
  name = "fs.delete";
  risk = destructive;
  min_risk = some write;
  parse_arguments = λ a. valid a;
  classify = λ a. classified destructive "outside";
  affected_paths = λ a. [];
  run = λ a. finished end;
}

abbrev call : ToolCall
call = record {
  id = "c1";
  task_id = "t1";
  step_id = none;
  tool_name = "fs.delete";
  arguments = end;
  actor = "agent:brahma";
  identity = none;
  requested_at = 0;
  risk_level = read;
  approval_state = none;
  approval_id = none;
  policy_decision = none;
  policy_rule = none;
}

abbrev answer : String → Prompt
answer phrase = λ r g. (
  record {
    request_id = r.id;
    approved = true;
    decided_by = "operator";
    identity = none;
    decided_at = 20;
    note = none;
    confirmation_phrase = some phrase;
  },
  g,
)

abbrev executor : String → ToolExecutor
executor phrase = record {
  registry = record { tools = delete_tool ∷ []; disabled = [] };
  policy = record { allow_approvals = true; workspace = []; resolve = λ path. [] };
  opening = record { ttl = 100; redact = λ a. a; describe_operation = λ t a. t; reload = λ a. a };
  explain = λ call v. v.rule;
  prompt = some (answer phrase);
}

abbrev occasion : Occasion
occasion = record {
  max_risk = destructive;
  dry_run = false;
  approval_id = "a1";
  started_at = 5;
  asked_at = 10;
  answered_at = 20;
  spent_at = 30;
  duration_ms = 7;
  is_stored = λ s. true;
}

abbrev world : World
world = record {
  gate = record { rows = []; waiters = []; delivered = []; events = [] };
  ledger = [];
  runs = [];
}

-- With the exact phrase the tool runs, without it it does not.
phrases :
    ((execute (executor "I ACCEPT THE RISK") occasion call world).1.runs ≡ ("fs.delete", end) ∷ [])
    × ((execute (executor "ok") occasion call world).1.runs ≡ [])
unfolding execute scrappy_os.Security.Approvals.update_row
phrases = (refl, refl)

-- A classification that breaks, and a ledger that takes no row, leave the world as it was.
abbrev breaking : ToolExecutor
breaking =
    let x = executor "I ACCEPT THE RISK" in
    record x {
      registry = record {
        tools = (record delete_tool { classify = λ a. broken }) ∷ [];
        disabled = [];
      };
    }

abbrev full_disk : Occasion
full_disk = record occasion { is_stored = λ s. false }

early_ends :
    (execute breaking occasion call world ≡ (broken_classification, world))
    × (execute (executor "I ACCEPT THE RISK") full_disk call world ≡ (store_error, world))
unfolding execute
early_ends = (refl, refl)

execute-runs_example :
    OnlyPermitted
      (executor "I ACCEPT THE RISK")
      occasion
      call
      world
      (execute (executor "I ACCEPT THE RISK") occasion call world).1
execute-runs_example = execute-runs (executor "I ACCEPT THE RISK") occasion call world

execute-records_example :
    IsAudited
      (executor "I ACCEPT THE RISK")
      call
      world
      (execute (executor "I ACCEPT THE RISK") occasion call world)
execute-records_example = execute-records (executor "I ACCEPT THE RISK") occasion call world
