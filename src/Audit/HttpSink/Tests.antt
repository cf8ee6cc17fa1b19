-- ===== src/Audit/HttpSink/Tests.antt =====
-- A receiver that fails once and then takes the event, and one that does not know the path.
use metrics_alerting_service.Prelude.{ℕ, ◌≡◌, ◌≢◌, refl, false, none, List, [], ◌∷◌, arith}
use metrics_alerting_service.Errors.{Result, err, ok, url_error}
use metrics_alerting_service.Retry.{retry}
use metrics_alerting_service.Audit.{Event}
use metrics_alerting_service.Audit.HttpSink.{
  HttpSink, notify, send_data, send, of_request, of_response, of_status, is_retriable_http,
}
use metrics_alerting_service.Audit.HttpSink.Delivery.{IsDelivered, notify-ok}

-- the responses that are still to come
abbrev next_response : List (Result ℕ) → Result ℕ × List (Result ℕ)
next_response [] = (err url_error, [])
next_response (r ∷ rs) = (r, rs)

abbrev sink : HttpSink (List (Result ℕ))
sink = record {
  url = "http://audit";
  marshal = λ ev. ok "{}";
  new_request = λ url data_. ok data_;
  do_post = λ request rs. next_response rs;
  wait = λ delay rs. (false, rs);
}

abbrev event : Event
event = record { timestamp = 0; metrics = "Alloc" ∷ []; ip_address = "10.0.0.1" }

notify-retries :
    notify sink event (ok 503 ∷ err url_error ∷ ok 204 ∷ ok 404 ∷ []) ≡ (none, ok 404 ∷ [])
unfolding notify send_data retry send of_request of_response of_status is_retriable_http
notify-retries = refl

notify-ok_example : IsDelivered sink "{}" (ok 404 ∷ [])
notify-ok_example =
    notify-ok sink event "{}" "{}" (ok 503 ∷ err url_error ∷ ok 204 ∷ ok 404 ∷ []) (ok 404 ∷ [])
      refl refl notify-retries

not_429 : ◌≢◌ {A = ℕ} 404 429
not_429 h = omega arith
