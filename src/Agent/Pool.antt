-- ===== src/Agent/Pool.antt =====
-- internal/agent/pool.go: the queue between the agent's main loop and the workers that send. The
-- goroutines are a sequence of actions; a worker that takes a batch hands it to `Send`, and how long
-- that lasts is not seen. Shutdown's wait for the workers is in Agent/Main.
pub mod Delivery
use metrics_alerting_service.Prelude.{
  ℕ, Bool, true, false, List, [], ◌∷◌, ◌++◌, length, ltb, if◌then◌else◌,
}
use metrics_alerting_service.Model.{Metrics}

abbrev pub Batch : Type 0
Batch = List Metrics

-- `jobs` is the channel, `done` tells that `Shutdown` has closed it and the channel `done`; `taken`
-- are the batches that workers have taken, in order.
pub record Pool : Type 0 where
  pub jobs : List Batch
  pub queue_size : ℕ
  pub done : Bool
  pub taken : List Batch

unfoldable pub new_pool : ℕ → Pool
new_pool queue_size = record { jobs = []; queue_size = queue_size; done = false; taken = [] }

-- What a call of `Submit` has come to: true, false, or it still waits for a free place.
pub data Submission : Type 0 where
  accepted rejected blocked : Submission

-- `Submit`: one look at the two channels
unfoldable pub submit : Batch → Pool → Submission × Pool
submit b p =
    if p.done
    then (rejected, p)
    else if ltb (length p.jobs) p.queue_size
    then (accepted, record p { jobs = p.jobs ++ b ∷ [] })
    else (blocked, p)

unfoldable pub take_from : List Batch → Pool → Pool
take_from [] p = p
take_from (b ∷ rest) p = record p { jobs = rest; taken = p.taken ++ b ∷ [] }

-- one round of `run`
unfoldable pub work : Pool → Pool
work p = take_from p.jobs p

-- `Shutdown` up to its wait; a second call changes nothing
unfoldable pub shutdown : Pool → Pool
shutdown p = record p { done = true }

pub data Action : Type 0 where
  submits : Batch → Action
  works shuts_down : Action

unfoldable pub step : Action → Pool → Pool
step (submits b) p = (submit b p).1
step works p = work p
step shuts_down p = shutdown p

unfoldable pub run : List Action → Pool → Pool
run [] p = p
run (a ∷ rest) p = run rest (step a p)
