-- ===== src/Handler/Batch.antt =====
-- `UpdateBatchHandler` over the storage in memory.
use metrics_alerting_service.Prelude.{ℕ, String, ◌≡◌, refl, ◌≢◌, ◌⊎◌, inl, inr, List, [], ◌∷◌, map}
use metrics_alerting_service.Model.{Metrics}
use metrics_alerting_service.Errors.{ok, ◌>>=◌, empty_batch}
use metrics_alerting_service.Repository.Mem.{MemStorage, mem_storage, apply_metrics}
use metrics_alerting_service.Service
use metrics_alerting_service.Service.{Strconv}
use metrics_alerting_service.Http.{Request, status, Net}
use metrics_alerting_service.Handler.{
  Codecs, State, update_batch_handler, batch_decoded, write_service_error,
}
use metrics_alerting_service.Handler.Outcomes.{IsAudited, IsRejected}
use metrics_alerting_service.Handler.Published.{publish_audit-IsPublished}

module _ {B : Type 0} (net : Net B) (codecs : Codecs B) (conv : Strconv)
    (error_status : (text : String) (code : ℕ) → status (net.error text code) ≡ code) where
  batch_decoded_outcome :
      (r : Request B) (st : State MemStorage) (ms : List Metrics)
      → let o = batch_decoded net codecs conv mem_storage r (ok ms) st in
        (ms ≢ [])
          × IsAudited net codecs conv error_status mem_storage r st
              (map (λ m. m.id) ms)
              (apply_metrics ms st.store)
              o
        ⊎ (ms ≡ []) × IsRejected net codecs conv error_status mem_storage st 400 o
  unfolding batch_decoded mem_storage Service.update_batch status write_service_error
  batch_decoded_outcome r st [] = inr (refl, (error_status (codecs.message empty_batch) 400, refl))
  batch_decoded_outcome r st (m ∷ ms) = inl (
    (λ e. cc),
    (
      refl,
      refl,
      publish_audit-IsPublished net codecs conv mem_storage r m.id (map (λ x. x.id) ms)
          (record st { store = apply_metrics (m ∷ ms) st.store }),
    ),
  )

  -- POST /updates/ over the storage in memory, with a body that decodes to the list `ms`. A list
  -- with at least one metric is answered by 200 and applied whole, and one event with the time of the
  -- request, the names of all its metrics and the client's address is offered to each channel of an
  -- open audit. An empty list is answered by 400 and changes nothing.
  pub update_batch_handler_outcome :
      (r : Request B) (st : State MemStorage) (ms : List Metrics)
      → (r.body >>= codecs.decode_metrics) ≡ ok ms
      → let o = update_batch_handler net codecs conv mem_storage r st in
        (ms ≢ [])
          × IsAudited net codecs conv error_status mem_storage r st
              (map (λ m. m.id) ms)
              (apply_metrics ms st.store)
              o
        ⊎ (ms ≡ []) × IsRejected net codecs conv error_status mem_storage st 400 o
  unfolding update_batch_handler
  update_batch_handler_outcome r st ms h = rw h (batch_decoded_outcome r st ms)
