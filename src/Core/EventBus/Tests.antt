-- ===== src/Core/EventBus/Tests.antt =====
-- Tests of the bus.
use scrappy_os.Prelude.{ℕ, String, ◌≡◌, refl, true, false, none, some, List, [], ◌∷◌, suc}
use scrappy_os.Core.Values.{end}
use scrappy_os.Core.Events.{Event, task_created}
use scrappy_os.Core.Bus.{Subscription}
use scrappy_os.Core.EventBus.{Handler, InProcessEventBus, publish, history}
use scrappy_os.Core.EventBus.History.{publish_all}

abbrev event_of : String → Event
event_of task = record {
  event_type = task_created;
  task_id = some task;
  component = "runtime";
  payload = end;
}

abbrev three : List Event
three = event_of "a" ∷ event_of "b" ∷ event_of "c" ∷ []

abbrev watcher : Subscription
watcher = record {
  wants = none;
  task_id = some "b";
  maxsize = 1;
  queue = [];
  dropped = 0;
  closed = false;
}

-- A handler that counts its calls, and raises.
abbrev counter : Handler ℕ
counter = record { key = 1; types = none; handle = λ e n. (true, suc n) }

abbrev small_bus : InProcessEventBus ℕ
small_bus = record {
  handlers = counter ∷ [];
  subscriptions = (7, watcher) ∷ [];
  past = [];
  history_size = 2;
  published = 0;
  handler_errors = 0;
  world = 0;
}

history-small : history none 10 (publish_all three small_bus) ≡ event_of "b" ∷ event_of "c" ∷ []
unfolding history publish_all publish
history-small = refl

history-zero : history none 0 (publish_all three small_bus) ≡ event_of "b" ∷ event_of "c" ∷ []
unfolding history publish_all publish
history-zero = refl

handler_errors-small : (publish_all three small_bus).handler_errors ≡ 3
unfolding publish_all publish
handler_errors-small = refl
