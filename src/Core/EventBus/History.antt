-- ===== src/Core/EventBus/History.antt =====
-- What the bus remembers.
use scrappy_os.Prelude.{ℕ, List, [], ◌∷◌}
use scrappy_os.Core.Events.{Event}
use scrappy_os.Core.EventBus.{InProcessEventBus, publish}
use scrappy_os.Core.Bus.{Subscription, offer_all}

unfoldable pub publish_all : {W : Type 0} → List Event → InProcessEventBus W → InProcessEventBus W
publish_all [] b = b
publish_all (e ∷ es) b = publish_all es (publish e b)

abbrev pub reached : List Event → ℕ × Subscription → ℕ × Subscription
unfolding offer_all
reached es s = (s.0, offer_all es s.1)
