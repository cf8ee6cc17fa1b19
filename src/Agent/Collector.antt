-- ===== src/Agent/Collector.antt =====
-- internal/agent/collector.go: the figures that the agent collects, and the batch that it sends. The
-- runtime, gopsutil, the random numbers, `strconv` and the order of `range` are parameters.
pub mod Report
use Prim.Native.String.{◌++◌ as concat}
use metrics_alerting_service.Prelude.{
  ℕ, suc, ◌+◌, String, Option, none, some, List, [], ◌∷◌, ◌++◌, map, ◌≡◌, refl,
}
use metrics_alerting_service.Dict.{Dict, put}
use metrics_alerting_service.Model.{Float64, Int64, Metrics, gauge, counter, add_int64}
use metrics_alerting_service.Errors.{Result, ok, err}

-- The fields of runtime.MemStats that are read; all but one are unsigned integers.
pub record MemStats : Type 0 where
  pub alloc : ℕ
  pub buck_hash_sys : ℕ
  pub frees : ℕ
  pub gc_cpu_fraction : Float64
  pub gc_sys : ℕ
  pub heap_alloc : ℕ
  pub heap_idle : ℕ
  pub heap_inuse : ℕ
  pub heap_objects : ℕ
  pub heap_released : ℕ
  pub heap_sys : ℕ
  pub last_gc : ℕ
  pub lookups : ℕ
  pub mcache_inuse : ℕ
  pub mcache_sys : ℕ
  pub mspan_inuse : ℕ
  pub mspan_sys : ℕ
  pub mallocs : ℕ
  pub next_gc : ℕ
  pub num_forced_gc : ℕ
  pub num_gc : ℕ
  pub other_sys : ℕ
  pub pause_total_ns : ℕ
  pub stack_inuse : ℕ
  pub stack_sys : ℕ
  pub sys : ℕ
  pub total_alloc : ℕ

pub record Collector : Type 0 where
  pub runtime_metrics : Dict Float64
  pub poll_count : Int64
  pub random_value : Float64
  pub extra_metrics : Dict Float64

unfoldable pub new_collector : Collector
new_collector = record {
  runtime_metrics = [];
  poll_count = 0;
  random_value = 0;
  extra_metrics = [];
}

-- assignments to a map, one after the other
set_all : List (String × Float64) → Dict Float64 → Dict Float64
set_all [] m = m
set_all ((k, v) ∷ rest) m = set_all rest (put k v m)

-- what `Metrics` makes of an entry of a map
unfoldable pub gauge_metric : String × Float64 → Metrics
gauge_metric (name, v) = record {
  id = name;
  m_type = gauge;
  delta = none;
  value = some v;
  hash = "";
}

unfoldable pub counter_metric : String → Int64 → Metrics
counter_metric name d = record {
  id = name;
  m_type = counter;
  delta = some d;
  value = none;
  hash = "";
}

-- `float64` of an unsigned integer, and `%d`
module _ (float64 : ℕ → Float64) (format : ℕ → String) where
  runtime_figures : MemStats → List (String × Float64)
  runtime_figures m =
      ("Alloc", float64 m.alloc)
      ∷ ("BuckHashSys", float64 m.buck_hash_sys)
      ∷ ("Frees", float64 m.frees)
      ∷ ("GCCPUFraction", m.gc_cpu_fraction)
      ∷ ("GCSys", float64 m.gc_sys)
      ∷ ("HeapAlloc", float64 m.heap_alloc)
      ∷ ("HeapIdle", float64 m.heap_idle)
      ∷ ("HeapInuse", float64 m.heap_inuse)
      ∷ ("HeapObjects", float64 m.heap_objects)
      ∷ ("HeapReleased", float64 m.heap_released)
      ∷ ("HeapSys", float64 m.heap_sys)
      ∷ ("LastGC", float64 m.last_gc)
      ∷ ("Lookups", float64 m.lookups)
      ∷ ("MCacheInuse", float64 m.mcache_inuse)
      ∷ ("MCacheSys", float64 m.mcache_sys)
      ∷ ("MSpanInuse", float64 m.mspan_inuse)
      ∷ ("MSpanSys", float64 m.mspan_sys)
      ∷ ("Mallocs", float64 m.mallocs)
      ∷ ("NextGC", float64 m.next_gc)
      ∷ ("NumForcedGC", float64 m.num_forced_gc)
      ∷ ("NumGC", float64 m.num_gc)
      ∷ ("OtherSys", float64 m.other_sys)
      ∷ ("PauseTotalNs", float64 m.pause_total_ns)
      ∷ ("StackInuse", float64 m.stack_inuse)
      ∷ ("StackSys", float64 m.stack_sys)
      ∷ ("Sys", float64 m.sys)
      ∷ ("TotalAlloc", float64 m.total_alloc)
      ∷ []

  -- `Collect`, with what `ReadMemStats` and `rand.Float64` give
  unfoldable pub collect : MemStats → Float64 → Collector → Collector
  unfolding set_all runtime_figures
  collect m random c = record c {
    runtime_metrics = set_all (runtime_figures m) c.runtime_metrics;
    poll_count = add_int64 c.poll_count 1;
    random_value = random;
  }

  memory_figures : Result (ℕ × ℕ) → Dict Float64 → Dict Float64
  memory_figures (err e) extra = extra
  memory_figures (ok (total, free)) extra =
      put "FreeMemory" (float64 free) (put "TotalMemory" (float64 total) extra)

  -- the loop over the processors, from the index `i`
  cpu_loop : ℕ → List Float64 → Dict Float64 → Dict Float64
  cpu_loop i [] extra = extra
  cpu_loop i (pct ∷ rest) extra =
      cpu_loop (suc i) rest (put (concat "CPUutilization" (format (i + 1))) pct extra)

  cpu_figures : Result (List Float64) → Dict Float64 → Dict Float64
  unfolding cpu_loop
  cpu_figures (err e) extra = extra
  cpu_figures (ok percents) extra = cpu_loop 0 percents extra

  -- `CollectExtra`, with what mem.VirtualMemory and cpu.Percent give
  unfoldable pub collect_extra : Result (ℕ × ℕ) → Result (List Float64) → Collector → Collector
  unfolding memory_figures cpu_figures
  collect_extra memory percents c = record c {
    extra_metrics = cpu_figures percents (memory_figures memory []);
  }

-- `Metrics`, over the maps in the order of `range`
unfoldable pub metrics : (Dict Float64 → Dict Float64) → Collector → List Metrics
unfolding gauge_metric counter_metric
metrics range c =
    map gauge_metric (range c.runtime_metrics)
    ++ (map gauge_metric (range c.extra_metrics)
        ++ (gauge_metric ("RandomValue", c.random_value)
            ∷ counter_metric "PollCount" c.poll_count
            ∷ []))

-- a call of `Metrics`, with the collector that it leaves
unfoldable pub call_metrics : (Dict Float64 → Dict Float64) → Collector → List Metrics × Collector
call_metrics range c = (metrics range c, c)
