-- ===== src/File/Tests.antt =====
-- Tests of the file storage, and its theorems at concrete inputs.
use metrics_alerting_service.Prelude.{ℕ, String, ◌≡◌, refl, none, some, [], ◌∷◌, arith, false}
use metrics_alerting_service.Dict.{get, put}
use metrics_alerting_service.Model.{is_finite, add_int64}
use metrics_alerting_service.Repository.Mem.{MemStorage, mem_storage, new_mem_storage, add_counter}
use metrics_alerting_service.File.{save, load, gauge_entry, counter_entry, replace_file}
use metrics_alerting_service.File.Example.{
  Text, Files, files, files_laws, codec, codec_laws, contents-files, in_order, in_order-Enumerates,
  set_file,
}
use metrics_alerting_service.File.Save.{IsOutcome, encoded, save-IsOutcome}
use metrics_alerting_service.File.RoundTrip.{IsInRange, load-save}
use metrics_alerting_service.File.Sync.{sync_update_counter, sync_update_batch}
use metrics_alerting_service.File.Sync.Unsupported.{sync_update_counter-unsupported}
use metrics_alerting_service.File.Sync.Durable.{Restores, sync_update_counter-durable}

abbrev two_metrics : MemStorage
two_metrics = record {
  gauges = ("Alloc", 4607182418800017408) ∷ [];
  counters = ("PollCount", 5) ∷ [];
}

abbrev old_file : Files
old_file = set_file "db.json" (some []) (λ j. none)

abbrev saved_metrics : Text
saved_metrics =
    record {
      id = "Alloc";
      m_type = "gauge";
      delta = none;
      value = some 4607182418800017408;
      hash = "";
    }
    ∷ record { id = "PollCount"; m_type = "counter"; delta = some 5; value = none; hash = "" }
    ∷ []

two_metrics_saved : (save in_order codec files mem_storage "db.json" two_metrics old_file).0 ≡ none
unfolding save in_order mem_storage replace_file gauge_entry counter_entry is_finite
two_metrics_saved = refl

save-IsOutcome_example :
    let r = save in_order codec files mem_storage "db.json" two_metrics old_file in
    IsOutcome files files_laws "db.json" []
      (encoded in_order codec files files_laws mem_storage two_metrics)
      r.0
      r.2
save-IsOutcome_example =
    save-IsOutcome in_order codec files files_laws mem_storage "db.json" [] two_metrics old_file
      (contents-files old_file "db.json")

two_metrics-IsInRange : IsInRange two_metrics.counters
unfolding get
two_metrics-IsInRange k d h = ground arith

load-save_example :
    let r =
      load codec files mem_storage "db.json" new_mem_storage
        (save in_order codec files mem_storage "db.json" two_metrics old_file).2 in
    (r.0 ≡ none)
    × ((k : String)
        → (get k r.1.gauges ≡ get k two_metrics.gauges)
          × (get k r.1.counters ≡ get k two_metrics.counters))
load-save_example =
    load-save in_order codec files in_order-Enumerates codec_laws files_laws "db.json" two_metrics
      old_file two_metrics-IsInRange two_metrics_saved

-- a NaN
abbrev nan : ℕ
nan = 0x7ff8_0000_0000_0001

abbrev with_nan : MemStorage
with_nan = record { gauges = ("Load", nan) ∷ []; counters = ("PollCount", 5) ∷ [] }

nan_not_finite : is_finite nan ≡ false
unfolding is_finite
nan_not_finite = refl

has_nan : get "Load" with_nan.gauges ≡ some nan
unfolding get
has_nan = refl

sync_update_counter-unsupported_example :
    sync_update_counter in_order codec files mem_storage "db.json" "PollCount" 1
      (with_nan, old_file)
    ≡ (some codec_laws.unsupported, (add_counter "PollCount" 1 with_nan, old_file))
sync_update_counter-unsupported_example =
    sync_update_counter-unsupported in_order codec files in_order-Enumerates codec_laws "db.json"
      "Load" "PollCount" nan 1 with_nan old_file has_nan nan_not_finite

counted-IsInRange : IsInRange (add_counter "PollCount" 1 two_metrics).counters
unfolding get put add_counter add_int64
counted-IsInRange k d h = ground arith

counted_saved :
    (sync_update_counter in_order codec files mem_storage "db.json" "PollCount" 1
      (two_metrics, old_file)).0
    ≡ none
unfolding sync_update_counter save in_order mem_storage replace_file gauge_entry counter_entry
    is_finite put get add_int64
counted_saved = refl

sync_update_counter-durable_example :
    let r =
      (sync_update_counter in_order codec files mem_storage "db.json" "PollCount" 1
        (two_metrics, old_file)).1 in
    (r.0 ≡ add_counter "PollCount" 1 two_metrics) × Restores in_order codec files "db.json" r.0 r.1
sync_update_counter-durable_example =
    sync_update_counter-durable in_order codec files in_order-Enumerates codec_laws files_laws
      "db.json" "PollCount" 1 two_metrics old_file counted-IsInRange counted_saved

-- `SyncStorage.UpdateBatch` reports no error where the save fails: the error is only logged.
batch_hides_error :
    (sync_update_batch in_order codec files mem_storage "db.json" saved_metrics
      (with_nan, old_file)).0
    ≡ none
unfolding sync_update_batch save in_order mem_storage replace_file gauge_entry counter_entry
    is_finite put get add_int64
batch_hides_error = refl
