-- ===== src/Core/EventBus.antt =====
-- `InProcessEventBus` of src/scrappy_os/core/events.py: handlers, subscriptions and the history.
-- A handler is a function on a state of the handlers, with a flag that it raised. Handlers and
-- subscriptions are told apart by numbers, as the source does by identity. What a handler does to
-- the bus itself while it runs is left out.
pub mod History
mod Tests
use scrappy_os.Prelude.{
  ℕ, zero, suc, String, Bool, true, false, Option, none, some, List, [], ◌∷◌, ◌++◌, map, length,
  leb, eqb, if◌then◌else◌, ◌-◌,
}
use scrappy_os.Prelude.Deque.{drop, append_bounded}
use scrappy_os.Core.Events.{Event, EventType}
use scrappy_os.Core.Bus.{Subscription, wants_type, wants_task, offer, close}

pub record Handler (W : Type 0) : Type 0 where
  pub key : ℕ
  pub types : Option (EventType → Bool)
  pub handle : Event → W → Bool × W

pub record InProcessEventBus (W : Type 0) : Type 0 where
  pub handlers : List (Handler W)
  pub subscriptions : List (ℕ × Subscription)
  pub past : List Event
  pub history_size : ℕ
  pub published : ℕ
  pub handler_errors : ℕ
  pub world : W

abbrev pub offered : Event → ℕ × Subscription → ℕ × Subscription
unfolding offer
offered e s = (s.0, (offer e s.1).1)

without_subscription : ℕ → List (ℕ × Subscription) → List (ℕ × Subscription)
without_subscription key [] = []
without_subscription key (s ∷ ss) =
    let rest = without_subscription key ss in if eqb s.0 key then rest else s ∷ rest

of_task : Option String → List Event → List Event
of_task task [] = []
of_task task (e ∷ es) =
    let rest = of_task task es in if wants_task task e.task_id then e ∷ rest else rest

-- `events[-limit:]`, which is all of them for the limit 0.
unfoldable pub last_items : ℕ → List Event → List Event
unfolding drop
last_items limit events = if eqb limit 0 then events else drop (length events - limit) events

closed_one : ℕ × Subscription → ℕ × Subscription
unfolding close
closed_one s = (s.0, close s.1)

module _ {W : Type 0} where
  run_handlers : List (Handler W) → Event → ℕ → W → ℕ × W
  run_handlers [] e errors w = (errors, w)
  run_handlers (h ∷ hs) e errors w =
      let (raised, w') = h.handle e w in
      let called = run_handlers hs e (if raised then suc errors else errors) w' in
      let passed = run_handlers hs e errors w in
      if wants_type h.types e.event_type then called else passed

  -- `publish`
  unfoldable pub publish : Event → InProcessEventBus W → InProcessEventBus W
  unfolding run_handlers append_bounded offered
  publish e b =
      let (errors, w) = run_handlers b.handlers e b.handler_errors b.world in
      record b {
        past = append_bounded b.history_size e b.past;
        published = suc b.published;
        handler_errors = errors;
        world = w;
        subscriptions = map (offered e) b.subscriptions;
      }

  unfoldable pub add_handler : Handler W → InProcessEventBus W → InProcessEventBus W
  add_handler h b = record b { handlers = b.handlers ++ h ∷ [] }

  without_handler : ℕ → List (Handler W) → List (Handler W)
  without_handler key [] = []
  without_handler key (h ∷ hs) =
      let rest = without_handler key hs in if eqb h.key key then rest else h ∷ rest

  unfoldable pub remove_handler : ℕ → InProcessEventBus W → InProcessEventBus W
  unfolding without_handler
  remove_handler key b = record b { handlers = without_handler key b.handlers }

  -- `subscribe`, under a new number.
  unfoldable pub subscribe :
      ℕ → Option (EventType → Bool) → Option String → ℕ → InProcessEventBus W → InProcessEventBus W
  subscribe key types task_id maxsize b = record b {
    subscriptions =
        b.subscriptions
        ++ (
          key,
          record {
            wants = types;
            task_id = task_id;
            maxsize = maxsize;
            queue = [];
            dropped = 0;
            closed = false;
          },
        )
          ∷ [];
  }

  -- `_drop_subscription`
  unfoldable pub drop_subscription : ℕ → InProcessEventBus W → InProcessEventBus W
  unfolding without_subscription
  drop_subscription key b = record b { subscriptions = without_subscription key b.subscriptions }

  -- `history`
  unfoldable pub history : Option String → ℕ → InProcessEventBus W → List Event
  unfolding of_task last_items
  history task limit b = last_items limit (of_task task b.past)

  -- `aclose`, with the subscriptions that it closed, which their readers still hold.
  unfoldable pub aclose : InProcessEventBus W → List (ℕ × Subscription) × InProcessEventBus W
  unfolding closed_one
  aclose b = (map closed_one b.subscriptions, record b { subscriptions = []; handlers = [] })
