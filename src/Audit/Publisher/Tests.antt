-- ===== src/Audit/Publisher/Tests.antt =====
-- Tests of the publisher, and its theorems at concrete inputs.
use metrics_alerting_service.Prelude.{
  ℕ, ◌+◌, ◌≤◌, ◌≡◌, refl, Bool, true, false, Option, none, some, List, [], ◌∷◌, ◌++◌, length, arith,
}
use metrics_alerting_service.Audit.{Event}
use metrics_alerting_service.Audit.Publisher.{
  Lane, Publisher, Action, publishes, works, closes, offer, receive, update_at, new_publisher, run,
}
use metrics_alerting_service.Audit.Publisher.Close.{
  Wait, ended, expired, with_error, wait_error, close_publisher,
}
use metrics_alerting_service.Audit.Publisher.Close.Outcome.{
  AreHandedOver, AreClosed, closers, close_publisher-delivers,
}
use metrics_alerting_service.Errors.{Error, other, deadline_exceeded}
use metrics_alerting_service.Audit.Publisher.Lanes.{lane_at}
use metrics_alerting_service.Audit.Publisher.Delivery.{history, published, run_complete}

abbrev event : ℕ → Event
event t = record { timestamp = t; metrics = "Alloc" ∷ []; ip_address = "10.0.0.1" }

-- the worker of observer 1 hangs, so its second event does not fit
abbrev acts : List Action
acts =
    publishes (event 1)
    ∷ works 0
    ∷ publishes (event 2)
    ∷ closes
    ∷ publishes (event 3)
    ∷ works 0
    ∷ []

abbrev start : Publisher
start = record {
  lanes = record { queue = []; delivered = [] } ∷ record { queue = []; delivered = [] } ∷ [];
  buffer_size = 1;
  closed = false;
}

abbrev fresh : Lane
fresh = record { queue = []; delivered = [] }

start_is_new : new_publisher 1 2 ≡ start
unfolding new_publisher
start_is_new = refl

slow_observer :
    (run acts start).lanes
    ≡ record { queue = []; delivered = event 1 ∷ event 2 ∷ [] }
      ∷ record { queue = event 1 ∷ []; delivered = [] }
      ∷ []
unfolding run offer receive update_at
slow_observer = refl

two_published : published acts false ≡ event 1 ∷ event 2 ∷ []
unfolding published
two_published = refl

two_fit : length fresh.queue + length (published acts false) ≤ 64
unfolding published
two_fit = omega arith

abbrev roomy : Publisher
roomy = record start { buffer_size = 64 }

run_complete_example :
    (l' : Lane) × (lane_at 1 (run acts roomy).lanes ≡ some l')
    × (history l' ≡ history fresh ++ published acts false)
run_complete_example = run_complete acts roomy 1 fresh refl two_fit

abbrev waiting : Lane
waiting = record { queue = event 2 ∷ event 3 ∷ []; delivered = event 1 ∷ [] }

-- observers that are closed, with what they return; the first has an error
abbrev close_error : Bool → Option Error
close_error true = some (other "close")
close_error false = none

abbrev Calls : Type 0
Calls = List (Bool × Option Error)

abbrev close_logged : Bool → Calls → Option Error × Calls
close_logged o done = (close_error o, done ++ (o, close_error o) ∷ [])

abbrev observers : List (Option Bool)
observers = some true ∷ none ∷ some false ∷ []

-- the context expires before any worker has taken an event
abbrev expires : Wait
expires = expired deadline_exceeded (λ i. 0)

abbrev half_done : Publisher
half_done = record {
  lanes = record { queue = event 2 ∷ []; delivered = event 1 ∷ [] } ∷ fresh ∷ [];
  buffer_size = 1;
  closed = false;
}

closed_late : close_publisher close_logged observers expires half_done [] ≡ (
  deadline_exceeded ∷ other "close" ∷ [],
  record half_done {
    lanes = record { queue = []; delivered = event 1 ∷ [] } ∷ fresh ∷ [];
    closed = true;
  },
  (event 2 ∷ []) ∷ [] ∷ [],
  (true, some (other "close")) ∷ (false, none) ∷ [],
)
unfolding close_publisher
closed_late = refl

close_publisher-delivers_example :
    let (errs, p', interrupted, w') = close_publisher close_logged observers expires half_done [] in
    (p'.closed ≡ true)
    × AreHandedOver expires half_done.lanes p'.lanes interrupted
    × ((failed : List Error) × AreClosed close_logged
          (λ done. done)
          (λ o done. refl)
          (closers observers)
          failed
          []
          w'
        × (errs ≡ with_error (wait_error expires) failed))
    × (close_publisher close_logged observers ended p' w' ≡ ([], p', [], w'))
close_publisher-delivers_example =
    close_publisher-delivers close_logged (λ done. done) (λ o done. refl) observers expires ended
      half_done [] refl
