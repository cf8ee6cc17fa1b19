-- ===== src/Audit/Publisher/Lanes.antt =====
-- Lanes do not disturb one another: a lane's history depends on the events that are published, on
-- its own worker and on `Close`, and on nothing that the other observers do.
use metrics_alerting_service.Prelude.{
  ℕ, zero, suc, ◌≡◌, refl, ◌∙◌, Bool, true, Option, none, some, List, [], ◌∷◌, map, eqb,
  if◌then◌else◌, arith,
}
use metrics_alerting_service.Audit.Publisher.{
  Lane, Publisher, Action, publishes, works, closes, offer, receive, update_at, publish, work,
  close, run,
}

abbrev pub lane_at : ℕ → List Lane → Option Lane
lane_at i [] = none
lane_at zero (l ∷ ls) = some l
lane_at (suc i) (l ∷ ls) = lane_at i ls

abbrev pub map_lane : (Lane → Lane) → Option Lane → Option Lane
map_lane f none = none
map_lane f (some l) = some (f l)

-- The history of the lane `i` alone.
unfoldable pub run_lane : ℕ → ℕ → List Action → Bool → Lane → Lane
run_lane size i [] closed l = l
run_lane size i (publishes ev ∷ acts) closed l =
    run_lane size i acts closed (if closed then l else offer size ev l)
run_lane size i (works j ∷ acts) closed l =
    run_lane size i acts closed (if eqb i j then receive l else l)
run_lane size i (closes ∷ acts) closed l = run_lane size i acts true l

lane_at-map :
    (f : Lane → Lane) (i : ℕ) (ls : List Lane) → lane_at i (map f ls) ≡ map_lane f (lane_at i ls)
lane_at-map f i [] = refl
lane_at-map f zero (l ∷ ls) = refl
lane_at-map f (suc i) (l ∷ ls) = lane_at-map f i ls

lane_at-update_at :
    (f : Lane → Lane) (i j : ℕ) (ls : List Lane)
    → lane_at i (update_at j f ls) ≡ (if eqb i j then map_lane f (lane_at i ls) else lane_at i ls)
unfolding update_at
lane_at-update_at f i j [] = ground arith
lane_at-update_at f zero zero (l ∷ ls) = ground arith
lane_at-update_at f zero (suc j) (l ∷ ls) = ground arith
lane_at-update_at f (suc i) zero (l ∷ ls) = ground arith
lane_at-update_at f (suc i) (suc j) (l ∷ ls) = lane_at-update_at f i j ls ∙ ground arith

map_lane_id : (o : Option Lane) → o ≡ map_lane (λ l. l) o
map_lane_id none = refl
map_lane_id (some l) = refl

-- After any actions, a lane is where the actions that concern it alone take it.
pub lane_at-run :
    (i : ℕ) (acts : List Action) (p : Publisher)
    → lane_at i (run acts p).lanes
      ≡ map_lane (run_lane p.buffer_size i acts p.closed) (lane_at i p.lanes)
unfolding run run_lane
lane_at-run i [] p = map_lane_id (lane_at i p.lanes)
lane_at-run i (publishes ev ∷ acts) p =
    ground
      (arith, lane_at-run i acts (publish ev p), lane_at-map (offer p.buffer_size ev) i p.lanes)
lane_at-run i (works j ∷ acts) p =
    ground (arith, lane_at-run i acts (work j p), lane_at-update_at receive i j p.lanes)
lane_at-run i (closes ∷ acts) p = lane_at-run i acts (close p)
