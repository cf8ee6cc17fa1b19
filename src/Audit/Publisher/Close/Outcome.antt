-- ===== src/Audit/Publisher/Close/Outcome.antt =====
-- What `Publisher.Close` leaves behind: where each event went, which observers were closed, what it returns.
use mathlib.Core.List.{append_assoc, append-nil}
use metrics_alerting_service.Prelude.{
  ℕ, zero, suc, ◌≡◌, refl, sym, ap, ◌∙◌, true, false, Option, none, some, List, [], ◌∷◌, ◌++◌, map,
  length,
}
use metrics_alerting_service.Errors.{Error}
use metrics_alerting_service.Audit.{Event}
use metrics_alerting_service.Audit.Publisher.{Lane, Publisher, receive, receive_from, close}
use metrics_alerting_service.Audit.Publisher.Delivery.{history, history-receive}
use metrics_alerting_service.Audit.Publisher.Close.{
  drain, finish, Wait, ended, expired, rounds_of, finish_all, with_error, wait_error,
  close_observers, close_publisher,
}

history-drain : (n : ℕ) (l : Lane) → history (drain n l) ≡ history l
unfolding drain
history-drain zero l = refl
history-drain (suc n) l = history-drain n (receive l) ∙ history-receive l

queue-drain : (q : List Event) (l : Lane) → l.queue ≡ q → (drain (length q) l).queue ≡ []
unfolding drain receive receive_from
queue-drain [] l e = e
queue-drain (ev ∷ q) l e = queue-drain q (receive l) (ap (λ x. (receive_from x l).queue) e)

-- Nothing is interrupted if the workers end in time.
abbrev pub IsInTime : Wait → List Event → Type 0
IsInTime ended interrupted = interrupted ≡ []
IsInTime (expired e rounds) interrupted = Unit

-- The events that waited have all left the channel, each once and in order: those of `delivered` before the
-- cancelling, and the others after it.
abbrev pub IsHandedOver : Wait → Lane → Lane → List Event → Type 0
IsHandedOver wait before after interrupted =
    (after.queue ≡ [])
    × (after.delivered ++ interrupted ≡ before.delivered ++ before.queue)
    × IsInTime wait interrupted

abbrev pub AreHandedOver : Wait → List Lane → List Lane → List (List Event) → Type 0
AreHandedOver wait [] [] [] = Unit
AreHandedOver wait (l ∷ ls) (l' ∷ ls') (es ∷ ess) =
    IsHandedOver wait l l' es × AreHandedOver wait ls ls' ess
AreHandedOver wait _ _ _ = ⊥

finish-IsInTime : (wait : Wait) (i : ℕ) (l : Lane) → IsInTime wait (finish (rounds_of wait i l) l).1
unfolding finish rounds_of
finish-IsInTime ended i l = queue-drain l.queue l refl
finish-IsInTime (expired e rounds) i l = tt

finish_all-AreHandedOver :
    (wait : Wait) (i : ℕ) (ls : List Lane)
    → AreHandedOver wait ls
        (map (λ x. x.0) (finish_all wait i ls))
        (map (λ x. x.1) (finish_all wait i ls))
unfolding finish_all finish
finish_all-AreHandedOver wait i [] = tt
finish_all-AreHandedOver wait i (l ∷ ls) = (
  (refl, history-drain (rounds_of wait i l) l, finish-IsInTime wait i l),
  finish_all-AreHandedOver wait (suc i) ls,
)

-- The observers that are an io.Closer.
unfoldable pub closers : {O : Type 0} → List (Option O) → List O
closers [] = []
closers (none ∷ os) = closers os
closers (some o ∷ os) = o ∷ closers os

-- The errors among the results of calls.
unfoldable pub errors_of : {O : Type 0} → List (O × Option Error) → List Error
errors_of [] = []
errors_of ((o, none) ∷ rs) = errors_of rs
errors_of ((o, some e) ∷ rs) = e ∷ errors_of rs

module _ {O W : Type 0} (close_observer : O → W → Option Error × W)
    (calls : W → List (O × Option Error))
    (records : (o : O) (w : W)
      → calls (close_observer o w).1 ≡ calls w ++ (o, (close_observer o w).0) ∷ []) where
  -- The calls of `Close` between two worlds are one for each of the observers, in order, with these errors.
  pub record AreClosed (os : List O) (errs : List Error) (w w' : W) : Type 0 where
    pub results : List (O × Option Error)
    pub made : calls w' ≡ calls w ++ results
    pub each_once : map (λ x. x.0) results ≡ os
    pub returned : errs ≡ errors_of results

  errors_of-with_error :
      (o : O) (e : Option Error) (rs : List (O × Option Error))
      → with_error e (errors_of rs) ≡ errors_of ((o, e) ∷ rs)
  unfolding with_error errors_of
  errors_of-with_error o none rs = refl
  errors_of-with_error o (some e) rs = refl

  close_observers-AreClosed :
      (os : List (Option O)) (w : W)
      → let (errs, w') = close_observers close_observer os w in AreClosed (closers os) errs w w'
  unfolding close_observers closers errors_of
  close_observers-AreClosed [] w = record {
    results = [];
    made = sym (append-nil (calls w));
    each_once = refl;
    returned = refl;
  }
  close_observers-AreClosed (none ∷ os) w = close_observers-AreClosed os w
  close_observers-AreClosed (some o ∷ os) w =
      let (e, w') = close_observer o w in
      let rest = close_observers-AreClosed os w' in
      record {
        results = (o, e) ∷ rest.results;
        made =
            rest.made
            ∙ ap (λ c. c ++ rest.results) (records o w)
            ∙ append_assoc (calls w) ((o, e) ∷ []) rest.results;
        each_once = ap (λ xs. o ∷ xs) rest.each_once;
        returned = ap (with_error e) rest.returned ∙ errors_of-with_error o e rest.results;
      }

  -- The first `Close` of a publisher leaves it closed. Every event that an observer had waiting is handed to
  -- it once, in order, the first ones before the workers' context is cancelled and the others after it;
  -- there are none of these others if the workers end before the context of `Close` expires. Each observer
  -- that is an io.Closer is closed once, in order, whatever the others return, and the errors returned are
  -- that of the wait and those of the observers. A second `Close` changes nothing and returns nil.
  pub close_publisher-delivers :
      (observers : List (Option O)) (wait again : Wait) (p : Publisher) (w : W)
      → p.closed ≡ false
      → let (errs, p', interrupted, w') = close_publisher close_observer observers wait p w in
        (p'.closed ≡ true)
        × AreHandedOver wait p.lanes p'.lanes interrupted
        × ((failed : List Error) × AreClosed (closers observers) failed w w'
            × (errs ≡ with_error (wait_error wait) failed))
        × (close_publisher close_observer observers again p' w' ≡ ([], p', [], w'))
  unfolding close_publisher close
  close_publisher-delivers observers wait again p w h = rw h (
    refl,
    finish_all-AreHandedOver wait 0 p.lanes,
    ((close_observers close_observer observers w).0, close_observers-AreClosed observers w, refl),
    refl,
  )
