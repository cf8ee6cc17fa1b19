-- ===== src/Grpc/Transport.antt =====
-- `UpdateMetrics` against the HTTP handler of batches, and its refusals.
use metrics_alerting_service.Prelude.{ℕ, ◌≡◌, refl, ◌≢◌, ◌⊎◌, inl, inr, List, [], ◌∷◌, All, arith}
use metrics_alerting_service.Model.{Metrics}
use metrics_alerting_service.Errors.{ok, err, ◌>>=◌, unknown_type}
use metrics_alerting_service.Repository.{Storage}
use metrics_alerting_service.Repository.Mem.{MemStorage, mem_storage, apply_metrics}
use metrics_alerting_service.Service
use metrics_alerting_service.Service.{Strconv}
use metrics_alerting_service.Http.{Request, Net}
use metrics_alerting_service.Handler.{Codecs, State, update_batch_handler, batch_decoded}
use metrics_alerting_service.Grpc.{
  Metric, unrecognized, success, invalid_argument, to_proto, to_model, to_models, update_metrics,
  update_converted,
}
use metrics_alerting_service.Grpc.Convert.{IsPlain, HasUnrecognized, to_models-to_proto}

to_model-unrecognized :
    (m : Metric) (n : ℕ) → m.type ≡ unrecognized n → to_model m ≡ err unknown_type
unfolding to_model
to_model-unrecognized m n e = rw e

to_models-rest :
    (m : Metric) (ms : List Metric)
    → to_models ms ≡ err unknown_type
    → to_models (m ∷ ms) ≡ err unknown_type
unfolding to_models to_model
to_models-rest m ms h = ground arith

to_models-unrecognized : (ms : List Metric) → HasUnrecognized ms → to_models ms ≡ err unknown_type
unfolding to_models
to_models-unrecognized [] h = absurd h
to_models-unrecognized (m ∷ ms) (inl (n, e)) = rw (to_model-unrecognized m n e)
to_models-unrecognized (m ∷ ms) (inr h) = to_models-rest m ms (to_models-unrecognized ms h)

-- A request with a metric of an unknown type, at any place, is refused whole: InvalidArgument, and the
-- storage is not touched.
pub update_metrics-unrecognized :
    {S : Type 0} (repo : Storage S) (ms : List Metric) (s : S)
    → HasUnrecognized ms
    → update_metrics repo ms s ≡ (invalid_argument, s)
unfolding update_metrics
update_metrics-unrecognized repo ms s h = rw (to_models-unrecognized ms h)

update_converted-mem :
    (ms : List Metrics) (s : MemStorage)
    → (ms ≢ []) × (update_converted mem_storage (ok ms) s ≡ (success, apply_metrics ms s))
      ⊎ (ms ≡ []) × (update_converted mem_storage (ok ms) s ≡ (invalid_argument, s))
unfolding update_converted mem_storage Service.update_batch
update_converted-mem [] s = inr (refl, refl)
update_converted-mem (m ∷ ms) s = inl ((λ e. cc), refl)

-- What the agent sends for a list of plain metrics over gRPC is accepted, unless the list is empty,
-- and is applied whole.
pub update_metrics-to_proto :
    (ms : List Metrics) (s : MemStorage)
    → All IsPlain ms
    → (ms ≢ []) × (update_metrics mem_storage (to_proto ms) s ≡ (success, apply_metrics ms s))
      ⊎ (ms ≡ []) × (update_metrics mem_storage (to_proto ms) s ≡ (invalid_argument, s))
unfolding update_metrics
update_metrics-to_proto ms s h = rw (to_models-to_proto ms h) (update_converted-mem ms s)

module _ {B : Type 0} (net : Net B) (codecs : Codecs B) (conv : Strconv) where
  same_store :
      (r : Request B) (st : State MemStorage) (ms : List Metrics)
      → (batch_decoded net codecs conv mem_storage r (ok ms) st).1.store
        ≡ (update_converted mem_storage (ok ms) st.store).1
  unfolding batch_decoded update_converted mem_storage Service.update_batch
  same_store r st [] = refl
  same_store r st (m ∷ ms) = refl

  -- The two transports agree: a list of plain metrics, in JSON to POST /updates/ or in protobuf to
  -- `UpdateMetrics`, leaves the storage in memory in the same state.
  pub transports_agree :
      (r : Request B) (st : State MemStorage) (ms : List Metrics)
      → (r.body >>= codecs.decode_metrics) ≡ ok ms
      → All IsPlain ms
      → (update_batch_handler net codecs conv mem_storage r st).1.store
        ≡ (update_metrics mem_storage (to_proto ms) st.store).1
  unfolding update_batch_handler update_metrics
  transports_agree r st ms h p = rw (h, to_models-to_proto ms p) (same_store r st ms)
