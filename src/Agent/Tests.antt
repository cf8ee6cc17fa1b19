-- ===== src/Agent/Tests.antt =====
-- Two reports of an agent, after two polls and after three more.
use metrics_alerting_service.Prelude.{ℕ, String, ◌≡◌, some, List, [], ◌∷◌}
use metrics_alerting_service.Dict.{get}
use metrics_alerting_service.Model.{Float64}
use metrics_alerting_service.Repository.Mem.{new_mem_storage, apply_metrics}
use metrics_alerting_service.Agent.Collector.{MemStats, call_metrics, new_collector}
use metrics_alerting_service.Agent.Collector.Report.{polls, counter-two_reports}

abbrev figures : MemStats
figures = record {
  alloc = 1;
  buck_hash_sys = 2;
  frees = 3;
  gc_cpu_fraction = 4;
  gc_sys = 5;
  heap_alloc = 6;
  heap_idle = 7;
  heap_inuse = 8;
  heap_objects = 9;
  heap_released = 10;
  heap_sys = 11;
  last_gc = 12;
  lookups = 13;
  mcache_inuse = 14;
  mcache_sys = 15;
  mspan_inuse = 16;
  mspan_sys = 17;
  mallocs = 18;
  next_gc = 19;
  num_forced_gc = 20;
  num_gc = 21;
  other_sys = 22;
  pause_total_ns = 23;
  stack_inuse = 24;
  stack_sys = 25;
  sys = 26;
  total_alloc = 27;
}

abbrev first : List (MemStats × Float64)
first = (figures, 1) ∷ (figures, 2) ∷ []

abbrev second : List (MemStats × Float64)
second = (figures, 3) ∷ (figures, 4) ∷ (figures, 5) ∷ []

abbrev float64 : ℕ → Float64
float64 n = n

abbrev format : ℕ → String
format n = ""

counter-two_reports_example :
    let (batch, c) = call_metrics (λ d. d) (polls float64 format (λ d. d) first new_collector) in
    let (batch', c') = call_metrics (λ d. d) (polls float64 format (λ d. d) second c) in
    get "PollCount" (apply_metrics batch' (apply_metrics batch new_mem_storage)).counters ≡ some 7
counter-two_reports_example = counter-two_reports float64 format (λ d. d) first second
