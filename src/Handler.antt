-- ===== src/Handler.antt =====
-- internal/handler/handler.go: the HTTP handlers over the service and the audit publisher.
pub mod Published
pub mod Outcomes
pub mod Batch
pub mod Example
mod Tests
use Prim.Native.String.{◌++◌ as concat}
use mathlib.Core.Option
use metrics_alerting_service.Prelude.{
  ℕ, String, Bool, Option, none, some, List, [], ◌∷◌, ◌++◌, map, ◌==◌, if◌then◌else◌, or_else,
}
use metrics_alerting_service.Dict.{Dict}
use metrics_alerting_service.Model.{Float64, Int64, Metrics, gauge, counter}
use metrics_alerting_service.Errors.{
  Error, Result, ok, err, metric_not_found, empty_id, invalid_type, missing_value, missing_delta,
  empty_batch, ◌>>=◌,
}
use metrics_alerting_service.Audit.{Event}
use metrics_alerting_service.Audit.Publisher
use metrics_alerting_service.Audit.Publisher.{Publisher}
use metrics_alerting_service.Repository.{Storage}
use metrics_alerting_service.Service
use metrics_alerting_service.Service.{Strconv}
use metrics_alerting_service.Http.{Request, Op, set_header, write_header, write, Handler, Net}

-- `encoding/json` at one metric and at a list, `err.Error()`, `http.StatusText` and
-- `net.SplitHostPort` (the host, if the address has that form).
pub record Codecs (B : Type 0) : Type 0 where
  pub decode_metric : B → Result Metrics
  pub decode_metrics : B → Result (List Metrics)
  pub encode_metric : Metrics → Result B
  pub message : Error → String
  pub status_text : ℕ → String
  pub split_host_port : String → Option String

-- The storage below the service, and the publisher, if there is one.
pub record State (S : Type 0) : Type 0 where
  pub store : S
  pub audit : Option Publisher

-- `writeServiceError`: the sentinels' statuses
unfoldable pub service_status : Error → ℕ
service_status metric_not_found = 404
service_status empty_id = 404
service_status invalid_type = 400
service_status missing_value = 400
service_status missing_delta = 400
service_status empty_batch = 400
service_status _ = 500

module _ {B : Type 0} (net : Net B) (codecs : Codecs B) (conv : Strconv) where
  -- http.Error(w, err.Error(), …)
  pub error_text : Error → ℕ → List (Op B)
  error_text e code = net.error (codecs.message e) code

  -- http.Error(w, http.StatusText(code), code)
  pub bad_request : List (Op B)
  bad_request = net.error (codecs.status_text 400) 400

  pub write_service_error : Error → List (Op B)
  unfolding service_status error_text
  write_service_error e = error_text e (service_status e)

  pub client_ip : Request B → String
  client_ip r = or_else (codecs.split_host_port r.remote_addr) r.remote_addr

  pub publish_to : Event → Option Publisher → Option Publisher
  publish_to ev none = none
  publish_to ev (some p) = some (Publisher.publish ev p)

  module _ {S : Type 0} (repo : Storage S) where
    -- nothing is published for an empty list of names
    unfoldable pub publish_audit : Request B → List String → State S → State S
    publish_audit r [] st = st
    publish_audit r (name ∷ names) st =
        let ev : Event = record {
          timestamp = r.now;
          metrics = name ∷ names;
          ip_address = client_ip r;
        } in
        record st { audit = publish_to ev st.audit }

    -- the end of `UpdateHandler`, after the value has been parsed
    after_update : Request B → String → State S → Option Error × S → List (Op B) × State S
    unfolding publish_audit error_text
    after_update r name st (some e, s) = (error_text e 400, record st { store = s })
    after_update r name st (none, s) =
        (write_header 200 ∷ [], publish_audit r (name ∷ []) (record st { store = s }))

    -- the `switch` of `UpdateHandler`: the value and the delta to pass on, if they parse
    unfoldable pub parse_value : String → String → Option (Float64 × Int64)
    parse_value m_type text =
        if m_type == gauge
        then Option.map (λ v. (v, 0)) (conv.parse_float text)
        else if m_type == counter
        then Option.map (λ d. (0, d)) (conv.parse_int text)
        else none

    update_with :
        Request B → String → String → Option (Float64 × Int64) → State S → List (Op B) × State S
    unfolding after_update bad_request
    update_with r name m_type none st = (bad_request, st)
    update_with r name m_type (some (value, delta)) st =
        after_update r name st (Service.update repo name m_type value delta st.store)

    -- POST /update/{type}/{name}/{value}
    unfoldable pub update_handler : Handler B (State S)
    unfolding update_with parse_value
    update_handler r st =
        update_with r (r.url_param "name") (r.url_param "type")
          (parse_value (r.url_param "type") (r.url_param "value")) st

    value_reply : State S → String × Option Error × S → List (Op B) × State S
    unfolding write_service_error
    value_reply st (text, some e, s) = (write_service_error e, record st { store = s })
    value_reply st (text, none, s) = (write (net.bytes text) ∷ [], record st { store = s })

    -- GET /value/{type}/{name}
    unfoldable pub value_handler : Handler B (State S)
    unfolding value_reply
    value_handler r st =
        value_reply st
          (Service.get_value repo conv (r.url_param "name") (r.url_param "type") st.store)

    -- the answer in JSON; the encoder writes nothing if it fails
    json_body : Result B → List (Op B)
    unfolding error_text
    json_body (err e) = error_text e 500
    json_body (ok b) = write b ∷ []

    json_reply : Metrics → List (Op B)
    unfolding json_body
    json_reply m = set_header "Content-Type" "application/json" ∷ json_body (codecs.encode_metric m)

    update_json_reply : Request B → State S → Metrics × Option Error × S → List (Op B) × State S
    unfolding json_reply write_service_error publish_audit
    update_json_reply r st (m, some e, s) = (write_service_error e, record st { store = s })
    update_json_reply r st (m, none, s) =
        (json_reply m, publish_audit r (m.id ∷ []) (record st { store = s }))

    update_json_decoded : Request B → Result Metrics → State S → List (Op B) × State S
    unfolding update_json_reply error_text
    update_json_decoded r (err e) st = (error_text e 400, st)
    update_json_decoded r (ok m) st = update_json_reply r st (Service.update_json repo m st.store)

    -- POST /update/
    unfoldable pub update_json_handler : Handler B (State S)
    unfolding update_json_decoded
    update_json_handler r st = update_json_decoded r (r.body >>= codecs.decode_metric) st

    value_json_reply : State S → Metrics × Option Error × S → List (Op B) × State S
    unfolding json_reply write_service_error
    value_json_reply st (m, some e, s) = (write_service_error e, record st { store = s })
    value_json_reply st (m, none, s) = (json_reply m, record st { store = s })

    value_json_decoded : Result Metrics → State S → List (Op B) × State S
    unfolding value_json_reply error_text
    value_json_decoded (err e) st = (error_text e 400, st)
    value_json_decoded (ok m) st = value_json_reply st (Service.get_json repo m st.store)

    -- POST /value/
    unfoldable pub value_json_handler : Handler B (State S)
    unfolding value_json_decoded
    value_json_handler r st = value_json_decoded (r.body >>= codecs.decode_metric) st

    batch_reply : Request B → List Metrics → State S → Option Error × S → List (Op B) × State S
    unfolding write_service_error publish_audit
    batch_reply r ms st (some e, s) = (write_service_error e, record st { store = s })
    batch_reply r ms st (none, s) =
        (write_header 200 ∷ [], publish_audit r (map (λ m. m.id) ms) (record st { store = s }))

    unfoldable pub batch_decoded :
        Request B → Result (List Metrics) → State S → List (Op B) × State S
    unfolding batch_reply error_text
    batch_decoded r (err e) st = (error_text e 400, st)
    batch_decoded r (ok ms) st = batch_reply r ms st (Service.update_batch repo ms st.store)

    -- POST /updates/
    unfoldable pub update_batch_handler : Handler B (State S)
    unfolding batch_decoded
    update_batch_handler r st = batch_decoded r (r.body >>= codecs.decode_metrics) st

    ping_reply : State S → Option Error × S → List (Op B) × State S
    ping_reply st (some e, s) = (net.error (codecs.status_text 500) 500, record st { store = s })
    ping_reply st (none, s) = (write_header 200 ∷ [], record st { store = s })

    -- GET /ping
    unfoldable pub ping_db : Handler B (State S)
    unfolding ping_reply
    ping_db r st = ping_reply st (Service.ping repo st.store)

    gauge_rows : Dict Float64 → String
    gauge_rows [] = ""
    gauge_rows ((name, v) ∷ rest) = concat "<li>[Gauge] " (
        concat name (concat ": " (concat (conv.format_float v) (concat "</li>" (gauge_rows rest)))))

    counter_rows : Dict Int64 → String
    counter_rows [] = ""
    counter_rows ((name, d) ∷ rest) = concat "<li>[Counter] " (
        concat name (concat ": " (concat (conv.format_int d) (concat "</li>" (counter_rows rest)))))

    page : Dict Float64 → Dict Int64 → String
    unfolding gauge_rows counter_rows
    page gauges counters =
        concat "<html><body><h1>Metrics</h1><ul>"
          (concat (gauge_rows gauges) (concat (counter_rows counters) "</ul></body></html>"))

    -- GET /, over the maps in the order of `range`
    unfoldable pub root_handler : (Dict ℕ → Dict ℕ) → Handler B (State S)
    unfolding page
    root_handler range r st =
        let (gauges, counters, s) = Service.get_all repo st.store in
        (
          set_header "Content-Type" "text/html"
              ∷ write (net.bytes (page (range gauges) (range counters)))
              ∷ [],
          record st { store = s },
        )
