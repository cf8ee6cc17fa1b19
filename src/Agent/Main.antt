-- ===== src/Agent/Main.antt =====
-- cmd/agent/main.go, the loop of the agent, with the workers of its pool and the wait in `Pool.Shutdown`
-- (internal/agent/pool.go). The goroutines are interleaved steps: the two that collect, the main loop, the
-- workers, and the clock. How long a call of `Send` lasts is not seen.
pub mod Phases
pub mod Stopped
pub mod Liveness
pub mod Configured
mod Tests
use metrics_alerting_service.Prelude.{
  ℕ, String, ◌<◌, ◌≡◌, Bool, true, false, Option, none, some, List, [], ◌∷◌, ◌++◌, length,
}
use metrics_alerting_service.Dict.{Dict}
use metrics_alerting_service.Model.{Float64}
use metrics_alerting_service.Config.{ℤ, pos, negsuc}
use metrics_alerting_service.Errors.{Error, deadline_exceeded, Result}
use metrics_alerting_service.Prelude.Removed.{Removed}
use metrics_alerting_service.Agent.Collector.{
  Collector, new_collector, MemStats, collect, collect_extra, metrics,
}
use metrics_alerting_service.Agent.Pool.{
  Batch, Pool, new_pool, accepted, rejected, submit, work, shutdown,
}

-- Where the main loop is: in its `select`; in `Submit` with a batch, which is the last one if the signal
-- has come; before `Shutdown`; in its wait for the workers; in the wait after the deadline; at the end,
-- with what `Shutdown` returned.
pub data Phase : Type 0 where
  looping : Phase
  submitting : Bool → Batch → Phase
  closing waiting cutting : Phase
  stopped : Option Error → Phase

-- `sending` are the batches whose `Send` has not returned; `finished` and `cut` are those whose `Send`
-- returned before and after the context of the sends was canceled; `reported` are the batches that the
-- main loop made.
pub record World : Type 0 where
  pub collector : Collector
  pub pool : Pool
  pub sending : List Batch
  pub finished : List Batch
  pub cut : List Batch
  pub canceled : Bool
  pub phase : Phase
  pub reported : List Batch

unfoldable pub next_phase : Bool → Phase
next_phase false = looping
next_phase true = closing

-- the number of workers and of places for a `RateLimit`; a negative one, with which `make` would panic, is
-- refused with the configuration
unfoldable pub workers : ℤ → ℕ
workers (pos n) = n
workers (negsuc n) = 0

module _ (float64 : ℕ → Float64) (format : ℕ → String) (range : Dict Float64 → Dict Float64)
    (rate_limit : ℕ) where
  -- the agent before its first tick: the pool has as many workers as places
  unfoldable pub started : World
  unfolding new_collector new_pool
  started = record {
    collector = new_collector;
    pool = new_pool rate_limit;
    sending = [];
    finished = [];
    cut = [];
    canceled = false;
    phase = looping;
    reported = [];
  }

  -- the batch that a case of the `select` makes, on its way into `Submit`
  unfoldable pub report : Bool → World → World
  report final w = record w {
    phase = submitting final (metrics range w.collector);
    reported = metrics range w.collector ∷ w.reported;
  }

  pub data Step (w : World) : World → Type 0 where
    collects :
        (m : MemStats) (random : Float64)
        → Step w (record w { collector = collect float64 format m random w.collector })
    collects_extra :
        (memory : Result (ℕ × ℕ)) (percents : Result (List Float64))
        → Step w (record w { collector = collect_extra float64 format memory percents w.collector })
    ticks : w.phase ≡ looping → Step w (report false w)
    signals : w.phase ≡ looping → Step w (report true w)
    submits :
        (final : Bool) (b : Batch) (p : Pool)
        → w.phase ≡ submitting final b
        → submit b w.pool ≡ (accepted, p)
        → Step w (record w { pool = p; phase = next_phase final })
    refused :
        (final : Bool) (b : Batch) (p : Pool)
        → w.phase ≡ submitting final b
        → submit b w.pool ≡ (rejected, p)
        → Step w (record w { pool = p; phase = next_phase final })
    closes : w.phase ≡ closing → Step w (record w { pool = shutdown w.pool; phase = waiting })
    -- a worker that is free takes a batch
    takes :
        (b : Batch) (rest : List Batch)
        → w.pool.jobs ≡ b ∷ rest
        → length w.sending < rate_limit
        → Step w (record w { pool = work w.pool; sending = b ∷ w.sending })
    sends :
        (b : Batch) (rest : List Batch)
        → Removed b w.sending rest
        → w.canceled ≡ false
        → Step w (record w { sending = rest; finished = b ∷ w.finished })
    aborts :
        (b : Batch) (rest : List Batch)
        → Removed b w.sending rest
        → w.canceled ≡ true
        → Step w (record w { sending = rest; cut = b ∷ w.cut })
    -- the workers leave when the closed queue is empty and their last `Send` has returned
    drained :
        w.phase ≡ waiting
        → w.pool.jobs ≡ []
        → w.sending ≡ []
        → Step w (record w { canceled = true; phase = stopped none })
    expires : w.phase ≡ waiting → Step w (record w { canceled = true; phase = cutting })
    drained_late :
        w.phase ≡ cutting
        → w.pool.jobs ≡ []
        → w.sending ≡ []
        → Step w (record w { phase = stopped (some deadline_exceeded) })

  pub data Steps (w : World) : World → Type 0 where
    no_step : Steps w w
    one_more : {v u : World} → Steps w v → Step v u → Steps w u
