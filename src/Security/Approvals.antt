-- ===== src/Security/Approvals.antt =====
-- src/scrappy_os/security/approvals.py: the approval gate.
-- The `approvals` table is a list of rows, an event sent to the bus is added to a list, and a
-- clock reading is an argument. Enum columns hold the values that their text stands for, and so do
-- time columns (`fromisoformat` reads what `isoformat` wrote); the column of the arguments holds
-- what is loaded from its text. `consume` and `resolve` stand here as calls that nothing comes
-- between; the source awaits the database between their read and their update. What they do
-- after the read (`consume_read`, `resolve_read`) is a function of its own, and Race has other calls
-- come in between. Errors of the database other than a taken id are left out.
pub mod Rows
pub mod Edges
pub mod Trace
pub mod Single
pub mod Granted
pub mod Persistence
pub mod Race
mod Tests
use scrappy_os.Prelude.{
  ℕ, ◌+◌, String, Bool, true, false, not, ◌&&◌, Option, none, some, List, [], ◌∷◌, ◌++◌, contains,
  ◌==◌, if◌then◌else◌, ◌||◌,
}
use scrappy_os.Core.Enums.{
  RiskLevel, destructive, ApprovalState, pending, approved, denied, expired, consumed, risk_value,
}
use scrappy_os.Core.Values.{Json, bool, str, JsonFields, end, field}
use scrappy_os.Core.Calls.{
  ToolCall, ApprovalRequest, ApprovalDecision, make_decision, is_expired, past_deadline,
}
use scrappy_os.Core.Events.{Event, make_event, approval_requested, approval_resolved}

abbrev pub confirmation_phrase : String
confirmation_phrase = "I ACCEPT THE RISK"

pub record ApprovalRow : Type 0 where
  pub id : String
  pub task_id : String
  pub call_id : Option String
  pub tool_name : String
  pub arguments : JsonFields
  pub risk : RiskLevel
  pub reason : String
  pub summary : String
  pub requested_at : ℕ
  pub expires_at : Option ℕ
  pub state : ApprovalState
  pub decided_by : Option String
  pub decided_at : Option ℕ
  pub note : Option String

-- The manager's state: the table, the ids with a waiter, the answers handed to waiters, and the
-- events published.
pub record Gate : Type 0 where
  pub rows : List ApprovalRow
  pub waiters : List String
  pub delivered : List ApprovalDecision
  pub events : List Event

pub data ApprovalError : Type 0 where
  not_found already_resolved deadline_passed wrong_phrase not_approved duplicate_id : ApprovalError

pub data Result (A : Type 0) : Type 0 where
  ok : A → Result A
  err : ApprovalError → Result A

-- `SELECT * FROM approvals WHERE id = ?`
unfoldable pub find_row : String → List ApprovalRow → Option ApprovalRow
find_row id [] = none
find_row id (row ∷ rows) = if row.id == id then some row else find_row id rows

-- `UPDATE approvals SET ... WHERE id = ?`
unfoldable pub update_row :
    String → (ApprovalRow → ApprovalRow) → List ApprovalRow → List ApprovalRow
update_row id change [] = []
update_row id change (row ∷ rows) =
    (if row.id == id then change row else row) ∷ update_row id change rows

abbrev pub is_destructive : RiskLevel → Bool
is_destructive destructive = true
is_destructive _ = false

abbrev pub phrase_for : Bool → Option String
phrase_for required = if required then some confirmation_phrase else none

-- `_row_to_request`: the confirmation is derived from the risk.
unfoldable pub row_to_request : ApprovalRow → ApprovalRequest
row_to_request row = record {
  id = row.id;
  task_id = row.task_id;
  call_id = row.call_id;
  tool_name = row.tool_name;
  arguments = row.arguments;
  risk = row.risk;
  reason = row.reason;
  summary = row.summary;
  requested_at = row.requested_at;
  expires_at = row.expires_at;
  state = row.state;
  requires_confirmation_phrase = is_destructive row.risk;
  confirmation_phrase = phrase_for (is_destructive row.risk);
}

-- The columns that `_persist` writes. The arguments are dumped, with `default=str` for what JSON
-- cannot hold, so what is loaded from the column may differ: `reload` is `loads` after `dumps`.
unfoldable pub request_to_row : (reload : JsonFields → JsonFields) → ApprovalRequest → ApprovalRow
request_to_row reload r = record {
  id = r.id;
  task_id = r.task_id;
  call_id = r.call_id;
  tool_name = r.tool_name;
  arguments = reload r.arguments;
  risk = r.risk;
  reason = r.reason;
  summary = r.summary;
  requested_at = r.requested_at;
  expires_at = r.expires_at;
  state = r.state;
  decided_by = none;
  decided_at = none;
  note = none;
}

abbrev pub read_row : Option ApprovalRow → Option ApprovalRequest
read_row none = none
read_row (some row) = some (row_to_request row)

unfoldable pub get : String → Gate → Option ApprovalRequest
unfolding find_row row_to_request
get id g = read_row (find_row id g.rows)

insert_row :
    (JsonFields → JsonFields)
    → Option ApprovalRow
    → ApprovalRequest
    → Gate
    → Result ApprovalRequest × Gate
insert_row reload none r g = (ok r, record g { rows = g.rows ++ request_to_row reload r ∷ [] })
insert_row reload (some _) r g = (err duplicate_id, g)

-- `_persist`: the id is the table's primary key.
unfoldable pub persist :
    (JsonFields → JsonFields) → ApprovalRequest → Gate → Result ApprovalRequest × Gate
unfolding insert_row find_row request_to_row
persist reload r g = insert_row reload (find_row r.id g.rows) r g

-- What a request takes from the manager and its surroundings: the time to live, the redaction of
-- arguments, the one-line summary, and what the database gives back of arguments.
pub record Opening : Type 0 where
  pub ttl : ℕ
  pub redact : JsonFields → JsonFields
  pub describe_operation : String → JsonFields → String
  pub reload : JsonFields → JsonFields

abbrev pub publish : Event → Gate → Gate
publish event g = record g { events = g.events ++ event ∷ [] }

abbrev pub open_request :
    Opening → (id : String) (now : ℕ) → ToolCall → RiskLevel → String → Bool → ApprovalRequest
open_request o id now call risk reason phrase = record {
  id = id;
  task_id = call.task_id;
  call_id = some call.id;
  tool_name = call.tool_name;
  arguments = o.redact call.arguments;
  risk = risk;
  reason = reason;
  summary = o.describe_operation call.tool_name call.arguments;
  requested_at = now;
  expires_at = some (now + o.ttl);
  state = pending;
  requires_confirmation_phrase = phrase;
  confirmation_phrase = phrase_for phrase;
}

abbrev announce : Result ApprovalRequest × Gate → Result ApprovalRequest × Gate
announce (ok r, g) = (
  ok r,
  publish
      (make_event approval_requested (some r.task_id) "approvals" none (
        field "approval_id" (str r.id) (
          field "tool_name" (str r.tool_name) (
            field "risk" (str (risk_value r.risk))
              (field "summary" (str r.summary) (field "reason" (str r.reason) end))))))
      g,
)
announce (err e, g) = (err e, g)

-- `request`: the two clock readings of the source are one time.
unfoldable pub request :
    Opening
    → (id : String) (now : ℕ) → ToolCall
    → RiskLevel
    → String
    → Bool
    → Gate
    → Result ApprovalRequest × Gate
unfolding persist
request o id now call risk reason phrase g =
    announce (persist o.reload (open_request o id now call risk reason phrase) g)

abbrev pub is_pending : ApprovalState → Bool
is_pending pending = true
is_pending _ = false

abbrev pub is_approved : ApprovalState → Bool
is_approved approved = true
is_approved _ = false

abbrev pub text_eq? : Option String → Option String → Bool
text_eq? none none = true
text_eq? none (some t) = false
text_eq? (some s) none = false
text_eq? (some s) (some t) = s == t

-- `_update_state`
abbrev pub decide_row : ApprovalState → ApprovalDecision → Option String → ApprovalRow → ApprovalRow
decide_row state d note row = record row {
  state = state;
  decided_by = some d.decided_by;
  decided_at = some d.decided_at;
  note = note;
}

abbrev pub update_state : String → ApprovalState → ApprovalDecision → Option String → Gate → Gate
update_state id state d note g = record g { rows = update_row id (decide_row state d note) g.rows }

-- `self._waiters.pop(id, None)`
unfoldable pub pop_waiter : String → List String → List String
pop_waiter id [] = []
pop_waiter id (w ∷ ws) = let rest = pop_waiter id ws in if w == id then rest else w ∷ rest

-- The waiter for the request is popped and given the decision.
abbrev pub deliver : String → ApprovalDecision → Gate → Gate
deliver id d g = record g {
  waiters = pop_waiter id g.waiters;
  delivered = if contains g.waiters id then g.delivered ++ d ∷ [] else g.delivered;
}

abbrev pub verdict_of : Bool → ApprovalState
verdict_of answer = if answer then approved else denied

-- `resolve` once the request has been found pending and alive, and the phrase is right.
settle : ApprovalDecision → ApprovalRequest → Gate → Result ApprovalRequest × Gate
settle d r g = (
  ok (record r { state = verdict_of d.approved }),
  deliver r.id d (
      publish
        (make_event approval_resolved (some r.task_id) "approvals" none (
          field "approval_id" (str r.id) (
            field "approved" (bool d.approved)
              (field "decided_by" (str d.decided_by) (field "tool_name" (str r.tool_name) end)))))
        (update_state r.id (verdict_of d.approved) d d.note g)),
)

unfoldable pub resolve_found :
    ℕ → ApprovalDecision → ApprovalRequest → Gate → Result ApprovalRequest × Gate
unfolding settle is_expired
resolve_found now d r g =
    if not (is_pending r.state)
    then (err already_resolved, g)
    else if is_expired r now
    then (err deadline_passed, update_state r.id expired d (some "expired before decision") g)
    else if d.approved
        && r.requires_confirmation_phrase
        && not (text_eq? d.confirmation_phrase r.confirmation_phrase)
    then (err wrong_phrase, g)
    else settle d r g

-- What `resolve` does with the row that it has read.
unfoldable pub resolve_read :
    ℕ → ApprovalDecision → Gate → Option ApprovalRequest → Result ApprovalRequest × Gate
unfolding resolve_found
resolve_read now d g none = (err not_found, g)
resolve_read now d g (some r) = resolve_found now d r g

unfoldable pub resolve : ℕ → ApprovalDecision → Gate → Result ApprovalRequest × Gate
unfolding resolve_read get
resolve now d g = resolve_read now d g (get d.request_id g)

abbrev pub set_state : String → ApprovalState → Gate → Gate
set_state id state g = record g {
  rows = update_row id (λ row. record row { state = state }) g.rows;
}

-- `consume` from its test on: what it does with the request that it has read.
unfoldable pub consume_found : ℕ → String → ApprovalRequest → Gate → Result ApprovalRequest × Gate
unfolding is_expired
consume_found now id r g =
    if not (is_approved r.state)
    then (err not_approved, g)
    else if is_expired r now
    then (err deadline_passed, set_state id expired g)
    else (ok (record r { state = consumed }), set_state id consumed g)

-- What `consume` does with the row that it has read.
unfoldable pub consume_read :
    ℕ → String → Option ApprovalRequest → Gate → Result ApprovalRequest × Gate
unfolding consume_found
consume_read now id none g = (err not_found, g)
consume_read now id (some r) g = consume_found now id r g

unfoldable pub consume : ℕ → String → Gate → Result ApprovalRequest × Gate
unfolding consume_read get
consume now id g = consume_read now id (get id g) g

-- `UPDATE ... SET state = expired WHERE id = ? AND state = pending`
unfoldable pub expire : String → Gate → Gate
expire id g = record g {
  rows =
      update_row id (λ row. if is_pending row.state then record row { state = expired } else row)
        g.rows;
}

abbrev of_task : Option String → ApprovalRow → Bool
of_task none row = true
of_task (some t) row = t == "" || row.task_id == t

-- `pending`: the rows to show, of one task if it is named. The source orders them by request time.
unfoldable pub pending_requests : Option String → List ApprovalRow → List ApprovalRequest
unfolding row_to_request
pending_requests task [] = []
pending_requests task (row ∷ rows) =
    let rest = pending_requests task rows in
    if is_pending row.state && of_task task row then row_to_request row ∷ rest else rest

-- What `wait_for` does before it waits: an error, a stored answer, or a waiter.
pub data Wait : Type 0 where
  unknown_id : Wait
  stored : ApprovalDecision → Wait
  waiting : Wait

abbrev answer : String → Bool → String → Option String → ℕ → ApprovalDecision
answer id approves decided_by note now = record {
  request_id = id;
  approved = approves;
  decided_by = decided_by;
  identity = none;
  decided_at = now;
  note = note;
  confirmation_phrase = none;
}

stored_answer : ℕ → String → ApprovalState → Option ApprovalDecision
stored_answer now id approved = some (answer id true "stored" none now)
stored_answer now id denied = some (answer id false "stored" none now)
stored_answer now id expired = some (answer id false "stored" none now)
stored_answer now id _ = none

begin_wait : String → Option ApprovalDecision → Gate → Wait × Gate
begin_wait id (some d) g = (stored d, g)
begin_wait id none g = (waiting, record g { waiters = id ∷ pop_waiter id g.waiters })

wait_read : ℕ → String → Option ApprovalRequest → Gate → Wait × Gate
wait_read now id none g = (unknown_id, g)
wait_read now id (some r) g = begin_wait id (stored_answer now id r.state) g

-- `wait_for`, up to its wait: an answer that is stored is returned, else a waiter is entered.
unfoldable pub wait_for : ℕ → String → Gate → Wait × Gate
unfolding get wait_read stored_answer begin_wait
wait_for now id g = wait_read now id (get id g) g

-- `wait_for` on a timeout: the request expires, the waiter is popped, and the answer is a refusal.
unfoldable pub wait_timeout : ℕ → String → String → Gate → ApprovalDecision × Gate
unfolding expire
wait_timeout now id note g =
    let g' = expire id g in
    (answer id false "timeout" (some note) now, record g' { waiters = pop_waiter id g'.waiters })
