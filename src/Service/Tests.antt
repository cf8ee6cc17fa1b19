-- ===== src/Service/Tests.antt =====
-- Tests of the service over a storage in memory, and its theorems at concrete inputs.
use metrics_alerting_service.Prelude.{String, ◌≡◌, refl, ◌≢◌, none, some, arith, eq_iff, [], ◌∷◌}
use metrics_alerting_service.Dict.{get, put}
use metrics_alerting_service.Model.{Metrics, gauge, counter, add_int64}
use metrics_alerting_service.Errors.{missing_delta}
use metrics_alerting_service.Repository.Mem.{MemStorage, mem_storage}
use metrics_alerting_service.Repository.Mem.Lawful.{mem_storage-IsLawful}
use metrics_alerting_service.Service.{update_json, get_json}
use metrics_alerting_service.Service.Accept.{IsAcceptable}
use metrics_alerting_service.Service.Update.{get_json-update_json}

abbrev stored : MemStorage
stored = record { gauges = ("Alloc", 1) ∷ []; counters = ("PollCount", 5) ∷ [] }

abbrev polls : Metrics
polls = record { id = "PollCount"; m_type = counter; delta = some 3; value = none; hash = "" }

abbrev alloc : Metrics
alloc = record { id = "Alloc"; m_type = gauge; delta = none; value = some 9; hash = "" }

abbrev no_delta : Metrics
no_delta = record { id = "PollCount"; m_type = counter; delta = none; value = some 3; hash = "" }

polls_ok : (update_json mem_storage polls stored).1 ≡ none
unfolding update_json mem_storage get put add_int64
polls_ok = refl

alloc_ok : (update_json mem_storage alloc stored).1 ≡ none
unfolding update_json mem_storage get put
alloc_ok = refl

no_delta_refused : (update_json mem_storage no_delta stored).1 ≡ some missing_delta
unfolding update_json
no_delta_refused = refl

no_delta_not-IsAcceptable : ¬ IsAcceptable no_delta
no_delta_not-IsAcceptable h = ground (arith, eq_iff counter gauge)

get_json-update_json_example :
    get_json mem_storage
      (update_json mem_storage polls stored).0
      (update_json mem_storage polls stored).2
    ≡ update_json mem_storage polls stored
get_json-update_json_example =
    get_json-update_json mem_storage mem_storage-IsLawful polls stored polls_ok

polls_not_alloc : ◌≢◌ {A = String} "PollCount" "Alloc"
polls_not_alloc = ground (arith, eq_iff "PollCount" "Alloc")
