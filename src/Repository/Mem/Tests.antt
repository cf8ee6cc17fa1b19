-- ===== src/Repository/Mem/Tests.antt =====
-- Tests of `MemStorage`, and its theorems at concrete inputs.
use mathlib.Core.List.{Perm, Permᴰ}
use metrics_alerting_service.Prelude.{
  ◌+◌, ◌%◌, ◌^◌, ◌≡◌, refl, none, some, List, [], ◌∷◌, or_else, if◌then◌else◌,
}
use metrics_alerting_service.Dict.{get, put}
use metrics_alerting_service.Model.{Metrics, gauge, counter, add_int64}
use metrics_alerting_service.Repository.Mem.{
  new_mem_storage, apply_metric, apply_metrics, update_batch, set_gauge, add_counter,
}
use metrics_alerting_service.Repository.Mem.Batch.{mentions, total, counter-apply_metrics}
use metrics_alerting_service.Repository.Mem.Order.{counter-update_batch_perm}

abbrev load : Metrics
load = record { id = "Load"; m_type = gauge; delta = none; value = some 7; hash = "" }

abbrev up : Metrics
up = record { id = "PollCount"; m_type = counter; delta = some 3; value = none; hash = "" }

-- -1 as an int64
abbrev down : Metrics
down = record {
  id = "PollCount";
  m_type = counter;
  delta = some 0xffff_ffff_ffff_ffff;
  value = none;
  hash = "";
}

abbrev batch : List Metrics
batch = up ∷ load ∷ down ∷ up ∷ []

batch_applied :
    (update_batch batch new_mem_storage).1
    ≡ record { gauges = ("Load", 7) ∷ []; counters = ("PollCount", 5) ∷ [] }
unfolding update_batch apply_metrics apply_metric set_gauge add_counter add_int64 get put
    new_mem_storage
batch_applied = refl

counter-apply_metrics_example : get "PollCount" (apply_metrics batch new_mem_storage).counters ≡ (
    if mentions "PollCount" batch
    then some
        ((or_else (get "PollCount" new_mem_storage.counters) 0 + total "PollCount" batch) % 2 ^ 64)
    else get "PollCount" new_mem_storage.counters)
counter-apply_metrics_example = counter-apply_metrics "PollCount" batch new_mem_storage

swapped : Perm (up ∷ down ∷ []) (down ∷ up ∷ [])
swapped = ∣ Permᴰ.swap refl refl ∣₁

counter-update_batch_perm_example :
    get "PollCount" (update_batch (up ∷ down ∷ []) new_mem_storage).1.counters
    ≡ get "PollCount" (update_batch (down ∷ up ∷ []) new_mem_storage).1.counters
counter-update_batch_perm_example = counter-update_batch_perm "PollCount" new_mem_storage swapped
