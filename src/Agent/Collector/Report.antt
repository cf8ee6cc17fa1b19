-- ===== src/Agent/Collector/Report.antt =====
-- What a report of the agent does to a storage in memory.
use metrics_alerting_service.Prelude.{
  ℕ, length, ◌+◌, ◌%◌, ◌^◌, String, ◌≡◌, refl, ap, ◌∙◌, some, List, [], ◌∷◌, ◌++◌, map, or_else,
  arith, true,
}
use metrics_alerting_service.Dict.{Dict, get}
use metrics_alerting_service.Model.{Float64, Metrics, add_int64}
use metrics_alerting_service.Repository.Mem.{MemStorage, new_mem_storage, apply_metrics}
use metrics_alerting_service.Repository.Mem.Batch.{mentions, total, counter-apply_metrics}
use metrics_alerting_service.Agent.Collector.{
  Collector, MemStats, gauge_metric, counter_metric, metrics, collect, new_collector, call_metrics,
}

total-gauges :
    (k : String) (d : Dict Float64) (ms : List Metrics)
    → total k (map gauge_metric d ++ ms) ≡ total k ms
unfolding total gauge_metric
total-gauges k [] ms = refl
total-gauges k ((name, v) ∷ d) ms = ground (arith, total-gauges k d ms)

mentions-gauges :
    (k : String) (d : Dict Float64) (ms : List Metrics)
    → mentions k (map gauge_metric d ++ ms) ≡ mentions k ms
unfolding mentions gauge_metric
mentions-gauges k [] ms = refl
mentions-gauges k ((name, v) ∷ d) ms = ground (arith, mentions-gauges k d ms)

module _ (range : Dict Float64 → Dict Float64) (c : Collector) where
  two : List Metrics
  two = gauge_metric ("RandomValue", c.random_value) ∷ counter_metric "PollCount" c.poll_count ∷ []

  total-two : total "PollCount" two ≡ c.poll_count
  unfolding two total gauge_metric counter_metric
  total-two = ground arith

  mentions-two : mentions "PollCount" two ≡ true
  unfolding two mentions gauge_metric counter_metric
  mentions-two = refl

  total-metrics : total "PollCount" (metrics range c) ≡ c.poll_count
  unfolding metrics two
  total-metrics =
      total-gauges "PollCount" (range c.runtime_metrics)
        (map gauge_metric (range c.extra_metrics) ++ two)
      ∙ total-gauges "PollCount" (range c.extra_metrics) two
      ∙ total-two

  mentions-metrics : mentions "PollCount" (metrics range c) ≡ true
  unfolding metrics two
  mentions-metrics =
      mentions-gauges "PollCount" (range c.runtime_metrics)
        (map gauge_metric (range c.extra_metrics) ++ two)
      ∙ mentions-gauges "PollCount" (range c.extra_metrics) two
      ∙ mentions-two

  -- A report adds the whole poll count of the agent to the counter PollCount of the server, whatever
  -- the maps hold.
  counter-metrics :
      (s : MemStorage)
      → get "PollCount" (apply_metrics (metrics range c) s).counters
        ≡ some ((or_else (get "PollCount" s.counters) 0 + c.poll_count) % 2 ^ 64)
  counter-metrics s =
      counter-apply_metrics "PollCount" (metrics range c) s ∙ rw (mentions-metrics, total-metrics)

two_reports :
    (range : Dict Float64 → Dict Float64) (first second : Collector)
    → get "PollCount"
        (apply_metrics
          (metrics range second)
          (apply_metrics (metrics range first) new_mem_storage)).counters
      ≡ some ((first.poll_count % 2 ^ 64 + second.poll_count) % 2 ^ 64)
unfolding new_mem_storage get
two_reports range first second =
    counter-metrics range second (apply_metrics (metrics range first) new_mem_storage)
    ∙ ap (λ old. some ((or_else old 0 + second.poll_count) % 2 ^ 64))
        (counter-metrics range first new_mem_storage)
    ∙ ap (λ n. some ((n % 2 ^ 64 + second.poll_count) % 2 ^ 64)) from_zero
  where
    from_zero : 0 + first.poll_count ≡ first.poll_count
    from_zero = omega arith

module _ (float64 : ℕ → Float64) (format : ℕ → String) (range : Dict Float64 → Dict Float64) where
  -- a poll for each element, with what the runtime gives
  abbrev pub polls : List (MemStats × Float64) → Collector → Collector
  polls [] c = c
  polls ((m, random) ∷ xs) c = polls xs (collect float64 format m random c)

  poll_count-polls :
      (xs : List (MemStats × Float64)) (c : Collector)
      → (polls xs c).poll_count % 2 ^ 64 ≡ (c.poll_count + length xs) % 2 ^ 64
  unfolding collect add_int64
  poll_count-polls [] c = omega arith
  poll_count-polls ((m, random) ∷ xs) c =
      omega (arith, poll_count-polls xs (collect float64 format m random c))

  -- Each report of the agent has the count of all its polls since its start, and leaves the count as it
  -- is: when a new agent has polled `n` times and reports, polls `m` times more and reports again, a
  -- new storage in memory then has `n + (n + m)` as the counter PollCount, in 64 bits.
  pub counter-two_reports :
      (first second : List (MemStats × Float64))
      → let (batch, c) = call_metrics range (polls first new_collector) in
        let (batch', c') = call_metrics range (polls second c) in
        get "PollCount" (apply_metrics batch' (apply_metrics batch new_mem_storage)).counters
        ≡ some ((length first + (length first + length second)) % 2 ^ 64)
  unfolding call_metrics new_collector
  counter-two_reports first second =
      let c = polls first new_collector in
      two_reports range c (polls second c)
      ∙ ap some (omega (arith, poll_count-polls first new_collector, poll_count-polls second c))
