-- ===== src/Repository/Mem/Lawful.antt =====
-- `MemStorage` keeps the laws of `Storage`.
use metrics_alerting_service.Prelude.{refl, or_else}
use metrics_alerting_service.Dict.{get, get-put}
use metrics_alerting_service.Model.{add_int64}
use metrics_alerting_service.Repository.Laws.{IsLawful}
use metrics_alerting_service.Repository.Mem.{mem_storage}

-- `MemStorage` is a lawful storage: an update of one metric never fails, a gauge reads as the value
-- written last, a counter as the 64-bit sum of its amounts, and no other metric changes.
unfoldable pub mem_storage-IsLawful : IsLawful mem_storage
unfolding mem_storage add_int64
mem_storage-IsLawful = record {
  gauge_at = λ s k. get k s.gauges;
  counter_at = λ s k. get k s.counters;
  get_gauge_lem = λ k s. refl;
  get_counter_lem = λ k s. refl;
  update_gauge_ok = λ k v s. refl;
  update_counter_ok = λ k d s. refl;
  gauge-update_gauge = λ k j v s. get-put k j v s.gauges;
  counter-update_gauge = λ k j v s. refl;
  gauge-update_counter = λ k j d s. refl;
  counter-update_counter =
      λ k j d s. get-put k j (add_int64 (or_else (get k s.counters) 0) d) s.counters;
}
