-- ===== src/Audit/Publisher.antt =====
-- internal/audit/publisher.go. Each observer has a lane: its buffered channel and the events that
-- its worker has handed to `Notify`. The program's goroutines are a sequence of actions: a `Publish`
-- (atomic under `mu`), one round of a worker's loop, or a `Close`, which closes the channels.
pub mod Lanes
pub mod Delivery
pub mod Close
mod Tests
use metrics_alerting_service.Prelude.{
  ℕ, zero, suc, Bool, true, false, Option, none, some, List, [], ◌∷◌, ◌++◌, map, length, ltb, eqb,
  if◌then◌else◌,
}
use metrics_alerting_service.Errors.{Error}
use metrics_alerting_service.Audit.{Event}

pub record Lane : Type 0 where
  pub queue : List Event
  pub delivered : List Event

pub record Publisher : Type 0 where
  pub lanes : List Lane
  pub buffer_size : ℕ
  pub closed : Bool

abbrev empty_lane : Lane
empty_lane = record { queue = []; delivered = [] }

replicate : ℕ → List Lane
replicate zero = []
replicate (suc n) = empty_lane ∷ replicate n

-- one lane for each observer
unfoldable pub new_publisher : ℕ → ℕ → Publisher
unfolding replicate
new_publisher buffer_size observers = record {
  lanes = replicate observers;
  buffer_size = buffer_size;
  closed = false;
}

-- `select { case ch <- ev: default: }`: a full channel drops the event
unfoldable pub offer : ℕ → Event → Lane → Lane
offer buffer_size ev l =
    if ltb (length l.queue) buffer_size then record l { queue = l.queue ++ ev ∷ [] } else l

unfoldable pub publish : Event → Publisher → Publisher
publish ev p = if p.closed then p else record p { lanes = map (offer p.buffer_size ev) p.lanes }

pub receive_from : List Event → Lane → Lane
receive_from [] l = l
receive_from (ev ∷ rest) l = record { queue = rest; delivered = l.delivered ++ ev ∷ [] }

-- One round of `for ev := range ch`: it waits on an empty channel. An error of `Notify` is logged.
unfoldable pub receive : Lane → Lane
unfolding receive_from
receive l = receive_from l.queue l

-- `f` at the lane with index `i`
unfoldable pub update_at : ℕ → (Lane → Lane) → List Lane → List Lane
update_at i f [] = []
update_at zero f (l ∷ ls) = f l ∷ ls
update_at (suc i) f (l ∷ ls) = l ∷ update_at i f ls

unfoldable pub work : ℕ → Publisher → Publisher
work i p = record p { lanes = update_at i receive p.lanes }

-- what `Close` does under `mu`; a second `Close` changes nothing
unfoldable pub close : Publisher → Publisher
close p = record p { closed = true }

pub data Action : Type 0 where
  publishes : Event → Action
  works : ℕ → Action
  closes : Action

unfoldable pub step : Action → Publisher → Publisher
unfolding publish work close
step (publishes ev) p = publish ev p
step (works i) p = work i p
step closes p = close p

unfoldable pub run : List Action → Publisher → Publisher
unfolding step
run [] p = p
run (a ∷ acts) p = run acts (step a p)
