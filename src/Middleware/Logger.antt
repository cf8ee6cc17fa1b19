-- ===== src/Middleware/Logger.antt =====
-- internal/logger/logger.go: the middleware that logs each request. zap and the clock are left out: what
-- is logged of a response is returned beside it. `written` is the number of bytes that the writer below
-- takes from a call of `Write`.
pub mod Logged
mod Tests
use metrics_alerting_service.Prelude.{ℕ, ◌+◌, List, [], ◌∷◌, ◌++◌}
use metrics_alerting_service.Http.{
  Request, Op, set_header, del_header, write_header, write, Handler,
}

pub record ResponseData : Type 0 where
  pub status : ℕ
  pub size : ℕ

-- `loggingResponseWriter`; `passed` is what went through to the writer below.
pub record LoggingWriter (B : Type 0) : Type 0 where
  pub passed : List (Op B)
  pub response_data : ResponseData

module _ {B : Type 0} (written : B → ℕ) where
  -- a call on the writer: `Write` and `WriteHeader` are its own, `Header` is the embedded one
  unfoldable pub logging_op : Op B → LoggingWriter B → LoggingWriter B
  logging_op (set_header k v) w = record w { passed = w.passed ++ set_header k v ∷ [] }
  logging_op (del_header k) w = record w { passed = w.passed ++ del_header k ∷ [] }
  logging_op (write_header code) w = record {
    passed = w.passed ++ write_header code ∷ [];
    response_data = record { status = code; size = w.response_data.size };
  }
  logging_op (write b) w = record {
    passed = w.passed ++ write b ∷ [];
    response_data = record {
      status = w.response_data.status;
      size = w.response_data.size + written b;
    };
  }

  unfoldable pub logging_ops : List (Op B) → LoggingWriter B → LoggingWriter B
  unfolding logging_op
  logging_ops [] w = w
  logging_ops (op ∷ ops) w = logging_ops ops (logging_op op w)

  new_writer : LoggingWriter B
  new_writer = record { passed = []; response_data = record { status = 200; size = 0 } }

  -- `RequestLogger`: the calls on the writer below, the new state, and what is logged
  unfoldable pub request_logger :
      {S : Type 0} → Handler B S → Request B → S → List (Op B) × S × ResponseData
  unfolding logging_ops new_writer
  request_logger next r s =
      let (ops, s') = next r s in
      let w = logging_ops ops new_writer in (w.passed, s', w.response_data)
