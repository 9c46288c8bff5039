-- ===== src/Lib.antt =====
-- Scrappy OS, the control plane of an autonomous agent: the core that decides what the agent may do.
-- An objective becomes a task; the agents propose tool calls; the executor looks each call up in the
-- registry, classifies its risk, asks the policy engine, opens and spends an approval where a human
-- must agree, runs the tool, and writes the ledger. A request over HTTP is authenticated against stored
-- credentials, which a local service issues, rotates, revokes and prunes under audit.
--
-- - Prelude, Prelude/Lists, Prelude/Text, Prelude/Deque: Boolean tests on the native numbers, lists,
--   texts, deques.
-- - Core/Enums, Core/Identity: src/scrappy_os/core/enums.py and core/identity.py. The members of an
--   enumeration are constructors, `*_value` is the text of one, `rank` the order of risks.
-- - Core/Tasks, Core/Plans, Core/Calls: src/scrappy_os/core/models.py. A model is a record and its
--   validator is a `make_*`; `transition_to` returns no task where the source raises.
-- - Core/Events, Core/Values: src/scrappy_os/core/events.py (`Event`, `emit`) and JSON payloads.
-- - Core/Bus, Core/EventBus: `Subscription` and `InProcessEventBus` of src/scrappy_os/core/events.py. A
--   queue is a list, oldest first, and the handlers share a state of their own; a handler that
--   publishes, subscribes or closes on the bus while it runs is not modelled.
-- - Security/Policy: src/scrappy_os/security/policy.py. `evaluate` is `PolicyEngine.evaluate`.
-- - Security/Authz: src/scrappy_os/security/authz.py. Scope lists and `Authorizer.evaluate`.
-- - Security/Approvals: src/scrappy_os/security/approvals.py. The `approvals` table is a list of rows
--   and the manager a `Gate`; its coroutines `request`, `resolve`, `consume`, `expire` take and return
--   the gate. Approvals/Trace has any sequence of calls, each finished before the next starts, as a
--   list of operations; Approvals/Race has calls come in between the read and the update of another.
-- - Security/Audit, Security/AuditEvents: src/scrappy_os/security/audit.py. Audit has the ledger of tool
--   calls (`record_call`, `record_result`), AuditEvents the event rows (`record`, `_on_event`).
-- - Observability/Redaction: src/scrappy_os/observability/redaction.py. `redact_at` is `_redact`.
-- - Security/Credentials: src/scrappy_os/security/credentials.py. Tokens are native texts.
-- - Security/CredentialProtocol: the protocols of src/scrappy_os/security/credential_store.py, as a record
--   of operations and laws on a state; Replay has a run of operations and the same on an abstract map.
-- - Security/CredentialStore: `SqliteCredentialStore` of that file on a list of rows; its Laws fill the
--   record.
-- - Security/CredentialService: src/scrappy_os/security/credential_service.py, over any such record; its
--   state is that of the store and the audit trail. A write to the trail may fail after the store was
--   changed.
-- - Security/Paths: src/scrappy_os/security/paths.py. A resolved path is the list of its components.
-- - Security/Risk: src/scrappy_os/security/risk.py. `classify_command` gives the level only.
-- - Security/Authn: src/scrappy_os/security/authn.py, over any such record, and `_record_last_used` of
--   src/scrappy_os/interface/api.py.
-- - Tools/Registry: `ToolRegistry` of src/scrappy_os/tools/base.py, and what a tool is to it.
-- - Brain/Limits: src/scrappy_os/brain/limits.py. A check returns a message where the source raises.
-- - Brain/Run, Brain/Endings, Brain/Orchestrator: src/scrappy_os/brain/orchestrator.py. Run has the
--   state of a run and `_execute_step`, Endings the loop over the steps of a plan, `_fail`, `_complete` and
--   `_rollback`, Orchestrator `_drive` and `run`. The agents are functions on a state of their own; an
--   answer of theirs may be an exception, and so may the storing of an observation. A reasoning turn
--   counts as one model call, as in the budget, though the provider may be asked twice in it.
-- - Tools/Executor: src/scrappy_os/tools/executor.py. `execute` is cut at its numbered steps; the
--   prompt may change the gate while the human thinks, since other tasks run then. The writes to the
--   ledger may fail, and a classification may raise what `execute` does not catch.
-- - Interface/Security: src/scrappy_os/interface/security.py. A reply is a context or a status code.
-- - Memory/Working: src/scrappy_os/memory/working.py. The deque of observations is a list with its bound.
--
-- A clock reading, a fresh id and the duration of a run are arguments. What the source gets from other
-- libraries or from the machine is a parameter: the file system's answers, hashes, JSON texts, regular
-- expressions; so are the redaction of the tool ledger, the path test of the policy, the summary of an
-- operation, a tool's validation, classification and run, and the answers of the agents. The loop of
-- `_drive` runs on fuel: `run` gives it one cycle more than the replans that the settings allow, and each
-- cycle that asks for another one has counted a replan. All other functions are structurally recursive.
--
-- Errors of the database are those named above and a taken id; elsewhere its statements succeed.
--
-- Not modelled: texts for people (reasons, prompts), log lines, durations in event payloads, JSON
-- schemas, the SQLite files, the endpoints and the command line, the settings, the language models, and
-- the tools' work on the machine.
pub mod Prelude
pub mod Observability
pub mod Core
pub mod Security
pub mod Tools
pub mod Brain
pub mod Interface
pub mod Memory
