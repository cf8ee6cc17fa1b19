-- ===== src/File/Load.antt =====
-- The loop of `Load` against the batch update of the storage in memory.
use metrics_alerting_service.Prelude.{
  ◌≡◌, refl, List, [], ◌∷◌, Option, some, none, String, arith, ℕ,
}
use metrics_alerting_service.Model.{Metrics}
use metrics_alerting_service.Repository.Mem.{
  MemStorage, mem_storage, gauge_if_set, counter_if_set, apply_metric, apply_metrics, update_batch,
}
use metrics_alerting_service.File.{load_metric, load_metrics, load_gauge, load_counter}

load_gauge-mem :
    (k : String) (v : Option ℕ) (s : MemStorage)
    → load_gauge mem_storage k v s ≡ (none, gauge_if_set k v s)
unfolding load_gauge mem_storage
load_gauge-mem k none s = refl
load_gauge-mem k (some v) s = refl

load_counter-mem :
    (k : String) (v : Option ℕ) (s : MemStorage)
    → load_counter mem_storage k v s ≡ (none, counter_if_set k v s)
unfolding load_counter mem_storage
load_counter-mem k none s = refl
load_counter-mem k (some v) s = refl

load_metric-mem :
    (m : Metrics) (s : MemStorage) → load_metric mem_storage m s ≡ (none, apply_metric m s)
unfolding load_metric apply_metric
load_metric-mem m s = ground (arith, load_gauge-mem m.id m.value s, load_counter-mem m.id m.delta s)

-- `Load` into a storage in memory does to it what `UpdateBatch` does with the decoded metrics, and
-- stops at no metric.
pub load_metrics-eq-update_batch :
    (ms : List Metrics) (s : MemStorage) → load_metrics mem_storage ms s ≡ update_batch ms s
unfolding load_metrics update_batch apply_metrics
load_metrics-eq-update_batch [] s = refl
load_metrics-eq-update_batch (m ∷ ms) s =
    rw (load_metric-mem m s) (load_metrics-eq-update_batch ms (apply_metric m s))
