-- ===== src/Handler/Tests.antt =====
-- Tests of the handlers, and their theorems at concrete inputs.
use metrics_alerting_service.Prelude.{◌≡◌, refl, ◌≢◌, ◌⊎◌, false, none, some, List, [], ◌∷◌, map}
use metrics_alerting_service.Model.{Metrics, counter}
use metrics_alerting_service.Audit.Publisher.{Publisher}
use metrics_alerting_service.Repository.Mem.{MemStorage, mem_storage, apply_metrics}
use metrics_alerting_service.Repository.Mem.Lawful.{mem_storage-IsLawful}
use metrics_alerting_service.Service
use metrics_alerting_service.Service.Accept.{IsAcceptable}
use metrics_alerting_service.Http.{status, write_header, write}
use metrics_alerting_service.Handler.{
  State, publish_audit, update_handler, update_json_handler, update_batch_handler,
}
use metrics_alerting_service.Handler.Outcomes.{
  IsAudited, IsRejected, IsRefusal, IsRecorded, update_json_handler_outcome,
}
use metrics_alerting_service.Handler.Batch.{update_batch_handler_outcome}
use metrics_alerting_service.Handler.Example.{net, codecs, conv, error_status, request}

abbrev publisher : Publisher
publisher = record {
  lanes = record { queue = []; delivered = [] } ∷ [];
  buffer_size = 64;
  closed = false;
}

abbrev start : State MemStorage
start = record { store = record { gauges = []; counters = [] }; audit = some publisher }

abbrev polls : Metrics
polls = record { id = "PollCount"; m_type = counter; delta = some 1; value = none; hash = "" }

abbrev nameless : Metrics
nameless = record { id = ""; m_type = counter; delta = some 1; value = none; hash = "" }

counted :
    (update_handler net codecs conv mem_storage (request "counter" "PollCount" "1" []) start).0
    ≡ write_header 200 ∷ []
unfolding update_handler publish_audit mem_storage Service.update
counted = refl

not_a_number :
    (update_handler net codecs conv mem_storage (request "counter" "PollCount" "x" []) start).0
    ≡ write_header 400 ∷ write [] ∷ []
unfolding update_handler
not_a_number = refl

-- a metric with no name is answered by 404, as the tests of the program require
nameless_not_found :
    (update_json_handler net codecs conv mem_storage (request "" "" "" (nameless ∷ [])) start).0
    ≡ write_header 404 ∷ write [] ∷ []
unfolding update_json_handler Service.update_json
nameless_not_found = refl

update_json_handler_outcome_example :
    let r = request "" "" "" (polls ∷ []) in
    let o = update_json_handler net codecs conv mem_storage r start in
    IsAcceptable polls
      × IsRecorded net codecs conv error_status mem_storage mem_storage-IsLawful r start "PollCount"
          (Service.update_json mem_storage polls start.store).2
          o.1
    ⊎ (¬ IsAcceptable polls) × IsRefusal polls (status o.0) × (o.1 ≡ start)
update_json_handler_outcome_example =
    update_json_handler_outcome net codecs conv error_status mem_storage mem_storage-IsLawful
      (request "" "" "" (polls ∷ [])) start polls refl

update_batch_handler_outcome_example :
    let r = request "" "" "" (polls ∷ nameless ∷ []) in
    let o = update_batch_handler net codecs conv mem_storage r start in
    (◌≢◌ {A = List Metrics} (polls ∷ nameless ∷ []) [])
      × IsAudited net codecs conv error_status mem_storage r start
          (map (λ m. m.id) (polls ∷ nameless ∷ []))
          (apply_metrics (polls ∷ nameless ∷ []) start.store)
          o
    ⊎ (◌≡◌ {A = List Metrics} (polls ∷ nameless ∷ []) [])
      × IsRejected net codecs conv error_status mem_storage start 400 o
update_batch_handler_outcome_example =
    update_batch_handler_outcome net codecs conv error_status
      (request "" "" "" (polls ∷ nameless ∷ [])) start (polls ∷ nameless ∷ []) refl
