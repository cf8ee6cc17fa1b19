-- ===== src/Repository/Mem.antt =====
-- `MemStorage` of internal/repository/storage.go. `RWMutex` makes each method atomic, so a method is
-- one step on the two maps.
pub mod Batch
pub mod Lawful
pub mod Order
mod Tests
use metrics_alerting_service.Prelude.{
  String, Option, none, some, List, [], ◌∷◌, ◌==◌, if◌then◌else◌, or_else,
}
use metrics_alerting_service.Dict.{Dict, get, put}
use metrics_alerting_service.Model.{Float64, Int64, Metrics, gauge, counter, add_int64}
use metrics_alerting_service.Errors.{Error, no_db}
use metrics_alerting_service.Repository.{Storage}

pub record MemStorage : Type 0 where
  pub gauges : Dict Float64
  pub counters : Dict Int64

unfoldable pub new_mem_storage : MemStorage
new_mem_storage = record { gauges = []; counters = [] }

-- ms.gauges[name] = value
unfoldable pub set_gauge : String → Float64 → MemStorage → MemStorage
set_gauge name value ms = record ms { gauges = put name value ms.gauges }

-- ms.counters[name] += value, where a missing key reads as 0
unfoldable pub add_counter : String → Int64 → MemStorage → MemStorage
add_counter name value ms = record ms {
  counters = put name (add_int64 (or_else (get name ms.counters) 0) value) ms.counters;
}

abbrev pub gauge_if_set : String → Option Float64 → MemStorage → MemStorage
gauge_if_set name none ms = ms
gauge_if_set name (some value) ms = set_gauge name value ms

abbrev pub counter_if_set : String → Option Int64 → MemStorage → MemStorage
counter_if_set name none ms = ms
counter_if_set name (some delta) ms = add_counter name delta ms

-- one round of the loop of `UpdateBatch`
unfoldable pub apply_metric : Metrics → MemStorage → MemStorage
apply_metric m ms =
    if m.m_type == gauge
    then gauge_if_set m.id m.value ms
    else if m.m_type == counter
    then counter_if_set m.id m.delta ms
    else ms

unfoldable pub apply_metrics : List Metrics → MemStorage → MemStorage
apply_metrics [] ms = ms
apply_metrics (m ∷ rest) ms = apply_metrics rest (apply_metric m ms)

unfoldable pub update_gauge : String → Float64 → MemStorage → Option Error × MemStorage
unfolding set_gauge
update_gauge name value ms = (none, set_gauge name value ms)

unfoldable pub update_counter : String → Int64 → MemStorage → Option Error × MemStorage
unfolding add_counter
update_counter name value ms = (none, add_counter name value ms)

unfoldable pub update_batch : List Metrics → MemStorage → Option Error × MemStorage
update_batch metrics ms = (none, apply_metrics metrics ms)

unfoldable pub get_gauge : String → MemStorage → Option Float64 × MemStorage
get_gauge name ms = (get name ms.gauges, ms)

unfoldable pub get_counter : String → MemStorage → Option Int64 × MemStorage
get_counter name ms = (get name ms.counters, ms)

unfoldable pub ping : MemStorage → Option Error × MemStorage
ping ms = (some no_db, ms)

-- the copies are values here
unfoldable pub get_all : MemStorage → Dict Float64 × Dict Int64 × MemStorage
get_all ms = (ms.gauges, ms.counters, ms)

unfoldable pub mem_storage : Storage MemStorage
unfolding update_gauge update_counter update_batch get_gauge get_counter ping get_all
mem_storage = record {
  update_gauge = update_gauge;
  update_counter = update_counter;
  update_batch = update_batch;
  get_gauge = get_gauge;
  get_counter = get_counter;
  get_all = get_all;
  ping = ping;
}
