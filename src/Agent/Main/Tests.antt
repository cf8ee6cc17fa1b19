-- ===== src/Agent/Main/Tests.antt =====
-- An agent with one worker that reports once and again at the signal.
use metrics_alerting_service.Prelude.{ℕ, String, ◌≡◌, refl, true, false, none, [], ◌∷◌, arith}
use metrics_alerting_service.Dict.{Dict}
use metrics_alerting_service.Model.{Float64}
use metrics_alerting_service.Prelude.Removed.{first}
use metrics_alerting_service.Agent.Collector.{new_collector, metrics}
use metrics_alerting_service.Agent.Pool.{Batch, new_pool, submit, take_from, work, shutdown}
use metrics_alerting_service.Agent.Main.{
  workers, World, submitting, stopped, next_phase, started, report, ticks, signals, submits, closes,
  takes, sends, drained, Steps, no_step, one_more,
}
use metrics_alerting_service.Agent.Main.Phases.{total}
use metrics_alerting_service.Agent.Main.Stopped.{stopped-Told}
use metrics_alerting_service.Agent.Main.Liveness.{IsStopped}
use metrics_alerting_service.Agent.Main.Configured.{configured-stops}
use metrics_alerting_service.Config.Tests.{os, read_agent, agent_flags, agent_config, agent_parsed}

abbrev float64 : ℕ → Float64
float64 n = n

abbrev format : ℕ → String
format n = "1"

abbrev range : Dict Float64 → Dict Float64
range d = d

abbrev batch : Batch
batch = metrics range new_collector

abbrev at_end : World
at_end = record {
  collector = new_collector;
  pool = record { jobs = []; queue_size = 1; done = true; taken = batch ∷ batch ∷ [] };
  sending = [];
  finished = batch ∷ batch ∷ [];
  cut = [];
  canceled = true;
  phase = stopped none;
  reported = batch ∷ batch ∷ [];
}

abbrev waits : World
waits = record {
  collector = new_collector;
  pool = record { jobs = batch ∷ []; queue_size = 1; done = false; taken = [] };
  sending = [];
  finished = [];
  cut = [];
  canceled = false;
  phase = submitting true batch;
  reported = batch ∷ batch ∷ [];
}

reached_waits : Steps float64 format range 1 (started float64 format range 1) waits
unfolding started report submit new_pool next_phase
reached_waits =
    one_more (one_more (one_more no_step (ticks refl)) (submits false batch _ refl refl))
      (signals refl)

reached_end : Steps float64 format range 1 (started float64 format range 1) at_end
unfolding submit next_phase work take_from shutdown
reached_end =
    one_more
      (one_more
        (one_more
          (one_more
            (one_more
              (one_more (one_more reached_waits (takes batch [] refl (omega arith)))
                (submits true batch _ refl refl))
              (closes refl))
            (sends batch [] (first []) refl))
          (takes batch [] refl (omega arith)))
        (sends batch [] (first []) refl))
      (drained refl refl refl)

stopped-Told_example :
    (at_end.cut ≡ []) × (total (λ b. 1) (batch ∷ batch ∷ []) ≡ total (λ b. 1) at_end.reported)
stopped-Told_example = stopped-Told float64 format range 1 at_end none (λ b. 1) reached_end refl

configured-stops_example : (v : World) × (Steps float64 format range 1 waits v) × IsStopped v.phase
unfolding workers
configured-stops_example =
    configured-stops float64 format range os read_agent agent_flags agent_config agent_parsed waits
      reached_waits
