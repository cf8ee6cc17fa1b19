-- ===== src/Audit/HttpSink/Delivery.antt =====
-- What the result of a delivery says about the responses.
use metrics_alerting_service.Prelude.{
  ℕ, String, ◌≡◌, ◌≢◌, ◌≤◌, ◌<◌, refl, sym, ap, ◌∙◌, ◌⊎◌, false, Option, none, some, arith,
}
use metrics_alerting_service.Errors.{Error, Result, err, ok, http_status}
use metrics_alerting_service.Retry.Outcome.{retry-ok, retry-permanent}
use metrics_alerting_service.Audit.{Event}
use metrics_alerting_service.Audit.HttpSink.{
  HttpSink, is_retriable_http, of_status, of_response, of_request, send, send_data, notify,
}

of_status-none : (code : ℕ) → of_status code ≡ none → (200 ≤ code) × (code < 300)
unfolding of_status
of_status-none code h = ground arith

of_status-some : (code : ℕ) → (code < 200) ⊎ (300 ≤ code) → of_status code ≡ some (http_status code)
unfolding of_status
of_status-some code h = ground arith

is_retriable_http-permanent :
    (code : ℕ) → code ≢ 429 → code < 500 → is_retriable_http (http_status code) ≡ false
unfolding is_retriable_http
is_retriable_http-permanent code x y = ground arith

module _ {S : Type 0} (sink : HttpSink S) where
  -- The request for the event was answered with a status of success, and nothing came after it.
  abbrev pub IsDelivered : String → S → Type 0
  IsDelivered request t =
      (u : S) × (code : ℕ) × (sink.do_post request u ≡ (ok code, t)) × (200 ≤ code) × (code < 300)

  of_response-ok :
      (request : String) (u t : S) (r : Result ℕ × S)
      → sink.do_post request u ≡ r
      → of_response sink r ≡ (none, t)
      → IsDelivered request t
  unfolding of_response of_status
  of_response-ok request u t (err e, s) p q = cc
  of_response-ok request u t (ok code, s) p q =
      let (l, h) = of_status-none code (ap (λ (x : Option Error × S). x.0) q) in
      (u, code, p ∙ ap (λ (x : Option Error × S). (ok code, x.1)) q, l, h)

  send-ok :
      (data_ request : String) (u t : S)
      → sink.new_request sink.url data_ ≡ ok request
      → send sink data_ u ≡ (none, t)
      → IsDelivered request t
  unfolding send of_request
  send-ok data_ request u t m q =
      of_response-ok request u t (sink.do_post request u) refl
        (ap (λ r. of_request sink r u) (sym m) ∙ q)

  -- For an event that can be encoded and sent, `Notify` returns nil only if a request was answered with
  -- a status from 200 to 299 and nothing was sent after it.
  pub notify-ok :
      (ev : Event) (data_ request : String) (s t : S)
      → sink.marshal ev ≡ ok data_
      → sink.new_request sink.url data_ ≡ ok request
      → notify sink ev s ≡ (none, t)
      → IsDelivered request t
  unfolding notify send_data
  notify-ok ev data_ request s t m n q =
      let (u, p) =
        retry-ok (send sink data_) is_retriable_http sink.wait s t
          (ap (λ r. send_data sink r s) (sym m) ∙ q) in
      send-ok data_ request u t n p

  -- If the first request for an event is answered with a status below 500 that is neither a success nor
  -- 429, `Notify` ends after that one request, with the status as the error.
  notify-permanent :
      (ev : Event) (data_ request : String) (code : ℕ) (s t : S)
      → sink.marshal ev ≡ ok data_
      → sink.new_request sink.url data_ ≡ ok request
      → sink.do_post request s ≡ (ok code, t)
      → (code < 200) ⊎ (300 ≤ code)
      → code ≢ 429
      → code < 500
      → notify sink ev s ≡ (some (http_status code), t)
  unfolding notify send_data send of_request of_response
  notify-permanent ev data_ request code s t m n p o x y =
      ap (λ r. send_data sink r s) m
      ∙ retry-permanent (send sink data_) is_retriable_http sink.wait (http_status code) s t
          (ap (λ r. of_request sink r s) n
            ∙ ap (of_response sink) p
            ∙ ap (λ o. (o, t)) (of_status-some code o))
          (is_retriable_http-permanent code x y)
