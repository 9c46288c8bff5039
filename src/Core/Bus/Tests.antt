-- ===== src/Core/Bus/Tests.antt =====
-- Runs of a subscription, and the theorems at concrete inputs.
use scrappy_os.Prelude.{◌≡◌, refl, false, none, some, [], ◌∷◌, arith}
use scrappy_os.Core.Events.{Event, heartbeat, task_failed}
use scrappy_os.Core.Values.{end}
use scrappy_os.Core.Bus.{Subscription, offer_all, close, read_all}
use scrappy_os.Core.Bus.Queues.{
  LostOldest, taken, offer_all-LostOldest, read_all-close, IsBounded, close-IsBounded,
}

abbrev beat : Event
beat = record { event_type = heartbeat; task_id = none; component = "breath"; payload = end }

abbrev failure : Event
failure = record {
  event_type = task_failed;
  task_id = some "t";
  component = "orchestrator";
  payload = end;
}

abbrev listener : Subscription
listener = record {
  wants = none;
  task_id = none;
  maxsize = 2;
  queue = [];
  dropped = 0;
  closed = false;
}

abbrev full_listener : Subscription
full_listener = record {
  wants = none;
  task_id = none;
  maxsize = 2;
  queue = some beat ∷ some failure ∷ [];
  dropped = 0;
  closed = false;
}

-- The third event drops the first.
third :
    (offer_all (beat ∷ failure ∷ failure ∷ []) listener).queue ≡ some failure ∷ some failure ∷ []
unfolding offer_all
third = refl

offer_all-LostOldest_example :
    LostOldest listener
      (taken listener (beat ∷ failure ∷ failure ∷ []))
      (offer_all (beat ∷ failure ∷ failure ∷ []) listener)
offer_all-LostOldest_example = offer_all-LostOldest listener (beat ∷ failure ∷ failure ∷ []) refl

read_all-close_example : read_all (close full_listener).queue ≡ (beat ∷ failure ∷ [], false)
read_all-close_example = read_all-close full_listener (beat ∷ failure ∷ []) refl refl

close-IsBounded_case : IsBounded (close (offer_all (beat ∷ beat ∷ beat ∷ []) listener))
close-IsBounded_case = close-IsBounded listener (beat ∷ beat ∷ beat ∷ []) (λ h. omega arith)
