-- ===== src/Agent/Main/Configured.antt =====
-- The agent with the number of workers that its configuration gives.
use metrics_alerting_service.Prelude.{ℕ, zero, suc, String, ◌<◌, ◌≡◌, false, arith}
use metrics_alerting_service.Dict.{Dict}
use metrics_alerting_service.Model.{Float64}
use metrics_alerting_service.Errors.{Result, ok}
use metrics_alerting_service.Config.{ℤ, pos, negsuc, Os, is_nonpositive}
use metrics_alerting_service.Config.Agent.{
  AgentConfig, AgentFileConfig, AgentFlags, parse_agent_config,
}
use metrics_alerting_service.Config.Agent.Resolve.{parse_agent_config_positive}
use metrics_alerting_service.Agent.Main.{World, started, Steps, workers}
use metrics_alerting_service.Agent.Main.Liveness.{IsStopped, main-stops}

workers-positive : (n : ℤ) → is_nonpositive n ≡ false → 0 < workers n
unfolding workers
workers-positive (pos zero) h = cc
workers-positive (pos (suc n)) h = omega arith
workers-positive (negsuc n) h = cc

-- Under a configuration that was accepted, some steps lead to the end from everywhere that the agent can
-- be: a batch that waits in `Submit` gets a place, and the wait of `Shutdown` ends.
pub configured-stops :
    (float64 : ℕ → Float64) (format : ℕ → String) (range : Dict Float64 → Dict Float64) (os : Os)
    (read : String → Result AgentFileConfig) (flags : AgentFlags) (cfg : AgentConfig)
    → parse_agent_config os read flags ≡ ok cfg
    → (w : World)
    → Steps float64 format range
        (workers cfg.rate_limit)
        (started float64 format range (workers cfg.rate_limit))
        w
    → (v : World) × (Steps float64 format range (workers cfg.rate_limit) w v) × IsStopped v.phase
configured-stops float64 format range os read flags cfg parsed w reached =
    main-stops float64 format range (workers cfg.rate_limit)
      (workers-positive cfg.rate_limit (parse_agent_config_positive os read flags cfg parsed).2) w
      reached
