-- ===== src/Audit/Publisher/Delivery.antt =====
-- What a lane delivers: in the order of publication, never more than fits, and everything that was
-- accepted once the worker has caught up.
use mathlib.Core.List.{append_assoc, append-nil}
use mathlib.Core.List.Sublist
use mathlib.Core.List.{Sublist}
use metrics_alerting_service.Prelude.{
  ℕ, zero, suc, ◌+◌, ◌≤◌, ◌<◌, ◌≡◌, refl, sym, ◌∙◌, ap, Bool, true, false, some, List, [], ◌∷◌,
  ◌++◌, inl, inr, Bool-cases, ltb, ◌-◌, if_elim, eqb_self, ltb→lt, lt→ltb, length, length-append,
  eqb, if◌then◌else◌, arith,
}
use metrics_alerting_service.Audit.{Event}
use metrics_alerting_service.Audit.Publisher.{
  Lane, Publisher, run, Action, publishes, works, closes, offer, receive, receive_from,
}
use metrics_alerting_service.Audit.Publisher.Lanes.{run_lane, lane_at, lane_at-run, map_lane}

-- The events of a lane, delivered or waiting.
abbrev pub history : Lane → List Event
history l = l.delivered ++ l.queue

-- The events published while the publisher is open.
unfoldable pub published : List Action → Bool → List Event
published [] closed = []
published (publishes ev ∷ acts) closed =
    if closed then published acts closed else ev ∷ published acts closed
published (works j ∷ acts) closed = published acts closed
published (closes ∷ acts) closed = published acts true

-- `n` rounds of the worker of observer `i`
abbrev pub rounds : ℕ → ℕ → List Action
rounds i zero = []
rounds i (suc n) = works i ∷ rounds i n

history-receive_from :
    (q d : List Event) → history (receive_from q (record { queue = q; delivered = d })) ≡ d ++ q
unfolding receive_from
history-receive_from [] d = refl
history-receive_from (ev ∷ rest) d = append_assoc d (ev ∷ []) rest

pub history-receive : (l : Lane) → history (receive l) ≡ history l
unfolding receive
history-receive l = history-receive_from l.queue l.delivered

history-accepted :
    (size : ℕ) (ev : Event) (l : Lane)
    → length l.queue < size
    → history (offer size ev l) ≡ history l ++ ev ∷ []
unfolding offer
history-accepted size ev l h =
    rw (lt→ltb (length l.queue) size h) (sym (append_assoc l.delivered l.queue (ev ∷ [])))

history-dropped :
    (size : ℕ) (ev : Event) (l : Lane)
    → ltb (length l.queue) size ≡ false
    → history (offer size ev l) ≡ history l
unfolding offer
history-dropped size ev l h = rw h

-- an event that is offered joins the history or is left out
Sublist-offer :
    (size : ℕ) (ev : Event) (l : Lane) (rest : List Event)
    → Sublist (history (offer size ev l) ++ rest) (history l ++ ev ∷ rest)
Sublist-offer size ev l rest = elim (Bool-cases (ltb (length l.queue) size)) [
  | inl h ↦
      rw
        (
          history-accepted size ev l (ltb→lt (length l.queue) size h),
          append_assoc (history l) (ev ∷ []) rest,
        )
        (Sublist.refl (history l ++ ev ∷ rest))
  | inr h ↦
      rw (history-dropped size ev l h)
        (Sublist.append (Sublist.refl (history l)) (Sublist.cons ev (Sublist.refl rest)))
]

empty_queue :
    (q d : List Event)
    → length q ≤ 0
    → ◌≡◌ {A = Lane}
        (record { queue = q; delivered = d })
        (record { queue = []; delivered = d ++ q })
empty_queue [] d h =
    ap (λ (x : List Event). record { queue = []; delivered = x }) (sym (append-nil d))
empty_queue (ev ∷ q) d h = absurd (omega arith)

module _ (size i : ℕ) where
  -- What a lane has delivered and still holds is a part, in order, of what it had and of what was
  -- published since while the publisher was open.
  history-run_lane :
      (acts : List Action) (closed : Bool) (l : Lane)
      → Sublist (history (run_lane size i acts closed l)) (history l ++ published acts closed)
  unfolding run_lane published
  history-run_lane [] closed l = rw (append-nil (history l)) (Sublist.refl (history l))
  history-run_lane (publishes ev ∷ acts) true l = history-run_lane acts true l
  history-run_lane (publishes ev ∷ acts) false l =
      Sublist.trans (history-run_lane acts false (offer size ev l))
        (Sublist-offer size ev l (published acts false))
  history-run_lane (works j ∷ acts) closed l =
      if_elim
        (λ x.
          Sublist (history (run_lane size i acts closed x)) (history l ++ published acts closed))
        (eqb i j) (rw (← history-receive l) (history-run_lane acts closed (receive l)))
        (history-run_lane acts closed l)
  history-run_lane (closes ∷ acts) closed l = history-run_lane acts true l

  length-receive : (l : Lane) → length (receive l).queue ≤ length l.queue - 1
  unfolding receive receive_from
  length-receive l = ground arith

  length-offer : (ev : Event) (l : Lane) → length (offer size ev l).queue ≤ length l.queue + 1
  unfolding offer
  length-offer ev l = ground (arith, length-append l.queue (ev ∷ []))

  offer-le : (ev : Event) (l : Lane) → length l.queue ≤ size → length (offer size ev l).queue ≤ size
  unfolding offer
  offer-le ev l h = ground (arith, length-append l.queue (ev ∷ []))

  run_lane_complete :
      (acts : List Action) (closed : Bool) (l : Lane)
      → length l.queue + length (published acts closed) ≤ size
      → history (run_lane size i acts closed l) ≡ history l ++ published acts closed
  unfolding run_lane published
  run_lane_complete [] closed l h = sym (append-nil (history l))
  run_lane_complete (publishes ev ∷ acts) true l h = run_lane_complete acts true l h
  run_lane_complete (publishes ev ∷ acts) false l h =
      run_lane_complete acts false (offer size ev l) (omega (arith, length-offer ev l))
      ∙ rw (history-accepted size ev l (omega arith))
          (append_assoc (history l) (ev ∷ []) (published acts false))
  run_lane_complete (works j ∷ acts) closed l h =
      if_elim (λ x. history (run_lane size i acts closed x) ≡ history l ++ published acts closed)
        (eqb i j)
        (run_lane_complete acts closed (receive l) (omega (arith, length-receive l))
          ∙ rw (history-receive l))
        (run_lane_complete acts closed l h)
  run_lane_complete (closes ∷ acts) closed l h = run_lane_complete acts true l h

  -- After as many rounds of the worker as the channel holds events, the channel is empty and every
  -- event that was in it has been delivered, in order, whether the publisher is closed or not.
  run_lane-drained :
      (n : ℕ) (closed : Bool) (l : Lane)
      → length l.queue ≤ n
      → run_lane size i (rounds i n) closed l ≡ record { queue = []; delivered = history l }
  unfolding run_lane
  run_lane-drained zero closed l h = empty_queue l.queue l.delivered h
  run_lane-drained (suc n) closed l h =
      ap (λ (b : Bool). run_lane size i (rounds i n) closed (if b then receive l else l))
        (eqb_self i)
      ∙ run_lane-drained n closed (receive l) (omega (arith, length-receive l))
      ∙ ap (λ (d : List Event). record { queue = []; delivered = d }) (history-receive l)

-- If all that is published while the publisher is open fits in the free part of an observer's channel, then
-- after any sequence of calls of `Publish`, rounds of the workers and a `Close` that observer's lane has
-- its earlier events and each of those, in order, delivered or still waiting: nothing is dropped.
pub run_complete :
    (acts : List Action) (p : Publisher) (i : ℕ) (l : Lane)
    → lane_at i p.lanes ≡ some l
    → length l.queue + length (published acts p.closed) ≤ p.buffer_size
    → (l' : Lane) × (lane_at i (run acts p).lanes ≡ some l')
      × (history l' ≡ history l ++ published acts p.closed)
run_complete acts p i l at fits = (
  run_lane p.buffer_size i acts p.closed l,
  lane_at-run i acts p ∙ ap (map_lane (run_lane p.buffer_size i acts p.closed)) at,
  run_lane_complete p.buffer_size i acts p.closed l fits,
)
