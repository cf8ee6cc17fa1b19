-- ===== src/Middleware/Logger/Tests.antt =====
-- The logger over bodies of bytes, with a handler that writes two bytes in two calls.
use metrics_alerting_service.Prelude.{ℕ, ◌+◌, ◌≡◌, List, [], ◌∷◌}
use metrics_alerting_service.Errors.{ok, Bytes}
use metrics_alerting_service.Http.{Request, Op, set_header, write_header, write, Handler}
use metrics_alerting_service.Middleware.Logger.{request_logger}
use metrics_alerting_service.Middleware.Logger.Logged.{body_size, last_status, request_logger_lem}

abbrev written : Bytes → ℕ
written [] = 0
written (b ∷ bs) = 1

abbrev ops : List (Op Bytes)
ops =
    set_header "Content-Type" "text/plain"
    ∷ write_header 404
    ∷ write (60 ∷ [])
    ∷ write (62 ∷ [])
    ∷ []

abbrev answers : Handler Bytes ℕ
answers r s = (ops, s + 1)

abbrev request : Request Bytes
request = record {
  url_param = λ p. "";
  header = λ h. "";
  body = ok [];
  remote_addr = "10.0.0.7:40000";
  now = 0;
}

request_logger_lem_example :
    let out = request_logger written answers request 3 in
    (out.0 ≡ (answers request 3).0)
    × (out.1 ≡ (answers request 3).1)
    × (out.2.size ≡ body_size written (answers request 3).0)
    × (out.2.status ≡ last_status written 200 (answers request 3).0)
request_logger_lem_example = request_logger_lem written answers request 3
