-- ===== src/Audit/Publisher/Close.antt =====
-- `Publisher.Close`: the closing of the channels, the wait for the workers, the cancelling of their context
-- and the closing of the observers. A worker ends when its closed channel is empty; what it takes out
-- after the cancelling it hands to `Notify` with a cancelled context.
pub mod Outcome
use metrics_alerting_service.Prelude.{
  ℕ, zero, suc, ◌≡◌, refl, sym, ap, ◌∙◌, true, false, Option, none, some, List, [], ◌∷◌, ◌++◌, map,
  length, if◌then◌else◌,
}
use metrics_alerting_service.Errors.{Error}
use metrics_alerting_service.Audit.{Event}
use metrics_alerting_service.Audit.Publisher.{Lane, Publisher, receive, receive_from, close}

-- `n` rounds of the loop of a worker
unfoldable pub drain : ℕ → Lane → Lane
unfolding receive
drain zero l = l
drain (suc n) l = drain n (receive l)

-- A worker on its closed channel, up to its end: `n` rounds before its context is cancelled, and the events
-- that it hands over after that.
unfoldable pub finish : ℕ → Lane → Lane × List Event
unfolding drain
finish n l = (record (drain n l) { queue = [] }, (drain n l).queue)

-- How the wait of `Close` ends: all workers have ended, or its context has expired, after a number of rounds
-- of each worker.
pub data Wait : Type 0 where
  ended : Wait
  expired : Error → (ℕ → ℕ) → Wait

unfoldable pub rounds_of : Wait → ℕ → Lane → ℕ
rounds_of ended i l = length l.queue
rounds_of (expired e rounds) i l = rounds i

-- the workers, from the number `i`
unfoldable pub finish_all : Wait → ℕ → List Lane → List (Lane × List Event)
unfolding finish rounds_of
finish_all wait i [] = []
finish_all wait i (l ∷ ls) = finish (rounds_of wait i l) l ∷ finish_all wait (suc i) ls

unfoldable pub with_error : Option Error → List Error → List Error
with_error none errs = errs
with_error (some e) errs = e ∷ errs

-- `waitErr`
unfoldable pub wait_error : Wait → Option Error
wait_error ended = none
wait_error (expired e rounds) = some e

module _ {O W : Type 0} (close_observer : O → W → Option Error × W) where
  -- `closeObservers`; an observer that is no io.Closer is `none`
  unfoldable pub close_observers : List (Option O) → W → List Error × W
  unfolding with_error
  close_observers [] w = ([], w)
  close_observers (none ∷ os) w = close_observers os w
  close_observers (some o ∷ os) w =
      let (e, w') = close_observer o w in
      let (errs, last) = close_observers os w' in (with_error e errs, last)

  -- `Close`: the errors that it joins, the publisher, and for each observer the events that were handed to
  -- it under the cancelled context
  unfoldable pub close_publisher :
      List (Option O) → Wait → Publisher → W → List Error × Publisher × List (List Event) × W
  unfolding close finish_all close_observers with_error wait_error
  close_publisher observers wait p w =
      if p.closed
      then ([], p, [], w)
      else let lanes = finish_all wait 0 p.lanes in
        let (errs, w') = close_observers observers w in
        (
          with_error (wait_error wait) errs,
          record (close p) { lanes = map (λ x. x.0) lanes },
          map (λ x. x.1) lanes,
          w',
        )
