-- ===== src/Core/Bus.antt =====
-- src/scrappy_os/core/events.py: a subscription of the bus and its bounded queue.
-- A subscription's queue is a list, oldest first; `none` in it is the mark that `close` puts. A
-- reader of an empty queue waits. The callback that `close` makes is the bus's own.
pub mod Queues
mod Tests
use scrappy_os.Prelude.{
  ℕ, suc, String, Bool, true, false, not, ◌&&◌, ◌||◌, Option, none, some, List, [], ◌∷◌, ◌++◌,
  length, leb, any, if◌then◌else◌, ◌==◌, eqb,
}
use scrappy_os.Core.Events.{Event, EventType}

-- A subscription, whose queue holds `maxsize` items at most, or any number if that is 0.
pub record Subscription : Type 0 where
  pub wants : Option (EventType → Bool)
  pub task_id : Option String
  pub maxsize : ℕ
  pub queue : List (Option Event)
  pub dropped : ℕ
  pub closed : Bool

abbrev pub wants_type : Option (EventType → Bool) → EventType → Bool
wants_type none t = true
wants_type (some p) t = p t

abbrev pub wants_task : Option String → Option String → Bool
wants_task none task = true
wants_task (some wanted) none = false
wants_task (some wanted) (some task) = task == wanted

-- `Event.matches`
unfoldable pub matches : Subscription → Event → Bool
matches s e = wants_type s.wants e.event_type && wants_task s.task_id e.task_id

-- `Queue.full`
abbrev pub is_full : Subscription → Bool
is_full s = not (eqb s.maxsize 0) && leb s.maxsize (length s.queue)

abbrev pub drop_oldest : List (Option Event) → List (Option Event)
drop_oldest [] = []
drop_oldest (x ∷ queue) = queue

-- `offer`: whether the event was taken. A full queue loses its oldest item, which is counted.
unfoldable pub offer : Event → Subscription → Bool × Subscription
unfolding matches
offer e s =
    if s.closed || not (matches s e)
    then (false, s)
    else if is_full s
    then (true, record s { queue = drop_oldest s.queue ++ some e ∷ []; dropped = suc s.dropped })
    else (true, record s { queue = s.queue ++ some e ∷ [] })

-- `close`: the mark of the end is left out where the queue is full.
unfoldable pub close : Subscription → Subscription
close s =
    if s.closed
    then s
    else if is_full s
    then record s { closed = true }
    else record s { closed = true; queue = s.queue ++ none ∷ [] }

-- `__aiter__`: what a reader is given, and whether it came to the end instead of waiting for more.
unfoldable pub read_all : List (Option Event) → List Event × Bool
read_all [] = ([], false)
read_all (none ∷ queue) = ([], true)
read_all (some e ∷ queue) = let (es, has_ended) = read_all queue in (e ∷ es, has_ended)

-- Events offered one after another.
unfoldable pub offer_all : List Event → Subscription → Subscription
unfolding offer
offer_all [] s = s
offer_all (e ∷ es) s = offer_all es (offer e s).1
