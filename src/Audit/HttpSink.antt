-- ===== src/Audit/HttpSink.antt =====
-- internal/audit/http_sink.go. encoding/json, the building of a request and the HTTP client are
-- parameters; what a request and a wait do to the world is the state `S`. An error of the client that
-- wraps an error of the context is that error here, as `errors.Is` sees it.
pub mod Delivery
mod Tests
use metrics_alerting_service.Prelude.{
  ℕ, String, Bool, true, false, Option, none, some, ◌||◌, ltb, leb, eqb, if◌then◌else◌,
}
use metrics_alerting_service.Errors.{
  Error, Result, err, ok, canceled, deadline_exceeded, http_status,
}
use metrics_alerting_service.Retry.{retry}
use metrics_alerting_service.Audit.{Event}

unfoldable pub is_retriable_http : Error → Bool
is_retriable_http canceled = false
is_retriable_http deadline_exceeded = false
is_retriable_http (http_status code) = eqb code 429 || leb 500 code
is_retriable_http e = true

-- `do_post` sends the body and gives the status of the response.
pub record HttpSink (S : Type 0) : Type 0 where
  pub url : String
  pub marshal : Event → Result String
  pub new_request : String → String → Result String
  pub do_post : String → S → Result ℕ × S
  pub wait : ℕ → S → Bool × S

-- the test of `resp.StatusCode`
unfoldable pub of_status : ℕ → Option Error
of_status code = if ltb code 200 || leb 300 code then some (http_status code) else none

module _ {S : Type 0} (sink : HttpSink S) where
  unfoldable pub of_response : Result ℕ × S → Option Error × S
  unfolding of_status
  of_response (err e, s) = (some e, s)
  of_response (ok code, s) = (of_status code, s)

  of_request : Result String → S → Option Error × S
  unfolding of_response
  of_request (err e) s = (some e, s)
  of_request (ok request) s = of_response (sink.do_post request s)

  unfoldable pub send : String → S → Option Error × S
  unfolding of_request
  send data_ s = of_request (sink.new_request sink.url data_) s

  send_data : Result String → S → Option Error × S
  unfolding send is_retriable_http retry
  send_data (err e) s = (some e, s)
  send_data (ok data_) s = retry (send data_) is_retriable_http sink.wait s

  unfoldable pub notify : Event → S → Option Error × S
  unfolding send_data
  notify ev s = send_data (sink.marshal ev) s
