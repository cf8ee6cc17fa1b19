-- ===== src/Grpc/Tests.antt =====
-- The theorems of the gRPC server at concrete inputs.
use metrics_alerting_service.Prelude.{◌≡◌, refl, inl, inr, none, some, List, [], ◌∷◌, All}
use metrics_alerting_service.Model.{Metrics, gauge, counter}
use metrics_alerting_service.Repository.Mem.{MemStorage, mem_storage, new_mem_storage}
use metrics_alerting_service.Handler.{State, update_batch_handler}
use metrics_alerting_service.Handler.Example.{net, codecs, conv, request}
use metrics_alerting_service.Grpc.{
  Metric, gauge_type, unrecognized, invalid_argument, to_proto, update_metrics,
}
use metrics_alerting_service.Grpc.Convert.{IsPlain}
use metrics_alerting_service.Grpc.Transport.{update_metrics-unrecognized, transports_agree}

abbrev collected : List Metrics
collected =
    record { id = "Alloc"; m_type = gauge; delta = none; value = some 7; hash = "" }
    ∷ record { id = "PollCount"; m_type = counter; delta = some 3; value = none; hash = "" }
    ∷ []

collected-IsPlain : All IsPlain collected
collected-IsPlain = ((7, inl refl), ((3, inr refl), tt))

abbrev bad_request : List Metric
bad_request =
    record { id = "a"; type = gauge_type; delta = 0; value = 1 }
    ∷ record { id = "b"; type = unrecognized 9; delta = 0; value = 1 }
    ∷ []

update_metrics-unrecognized_example :
    update_metrics mem_storage bad_request new_mem_storage ≡ (invalid_argument, new_mem_storage)
update_metrics-unrecognized_example =
    update_metrics-unrecognized mem_storage bad_request new_mem_storage (inr (inl (9, refl)))

abbrev idle : State MemStorage
idle = record { store = new_mem_storage; audit = none }

transports_agree_example :
    (update_batch_handler net codecs conv mem_storage (request "" "" "" collected) idle).1.store
    ≡ (update_metrics mem_storage (to_proto collected) new_mem_storage).1
transports_agree_example =
    transports_agree net codecs conv (request "" "" "" collected) idle collected refl
      collected-IsPlain
