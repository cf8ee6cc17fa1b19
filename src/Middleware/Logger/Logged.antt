-- ===== src/Middleware/Logger/Logged.antt =====
-- What the logger logs of a response.
use mathlib.Core.List.{append_assoc, append-nil}
use metrics_alerting_service.Prelude.{
  ℕ, String, ◌+◌, ◌≡◌, refl, ap, sym, ◌∙◌, List, [], ◌∷◌, ◌++◌, arith,
}
use metrics_alerting_service.Http.{
  Request, Op, set_header, del_header, write_header, write, Handler, status,
}
use metrics_alerting_service.Middleware.Logger.{
  LoggingWriter, logging_op, logging_ops, new_writer, request_logger,
}

-- No `WriteHeader` comes after the response has begun.
pub data IsBegun {B : Type 0} : List (Op B) → Type 0 where
  nothing : IsBegun []
  then_header : (k v : String) (ops : List (Op B)) → IsBegun ops → IsBegun (set_header k v ∷ ops)
  then_del : (k : String) (ops : List (Op B)) → IsBegun ops → IsBegun (del_header k ∷ ops)
  then_write : (b : B) (ops : List (Op B)) → IsBegun ops → IsBegun (write b ∷ ops)

-- One `WriteHeader` at most, and before the first `Write`.
pub data IsOrderly {B : Type 0} : List (Op B) → Type 0 where
  no_calls : IsOrderly []
  header_first :
      (k v : String) (ops : List (Op B)) → IsOrderly ops → IsOrderly (set_header k v ∷ ops)
  del_first : (k : String) (ops : List (Op B)) → IsOrderly ops → IsOrderly (del_header k ∷ ops)
  status_once : (code : ℕ) (ops : List (Op B)) → IsBegun ops → IsOrderly (write_header code ∷ ops)
  write_once : (b : B) (ops : List (Op B)) → IsBegun ops → IsOrderly (write b ∷ ops)

module _ {B : Type 0} (written : B → ℕ) where
  -- the bytes of the body
  unfoldable pub body_size : List (Op B) → ℕ
  body_size [] = 0
  body_size (set_header k v ∷ ops) = body_size ops
  body_size (del_header k ∷ ops) = body_size ops
  body_size (write_header code ∷ ops) = body_size ops
  body_size (write b ∷ ops) = written b + body_size ops

  passed-logging_op :
      (op : Op B) (w : LoggingWriter B) → (logging_op written op w).passed ≡ w.passed ++ op ∷ []
  unfolding logging_op
  passed-logging_op (set_header k v) w = refl
  passed-logging_op (del_header k) w = refl
  passed-logging_op (write_header code) w = refl
  passed-logging_op (write b) w = refl

  passed-logging_ops :
      (ops : List (Op B)) (w : LoggingWriter B)
      → (logging_ops written ops w).passed ≡ w.passed ++ ops
  unfolding logging_ops
  passed-logging_ops [] w = sym (append-nil w.passed)
  passed-logging_ops (op ∷ ops) w =
      passed-logging_ops ops (logging_op written op w)
      ∙ ap (λ l. l ++ ops) (passed-logging_op op w)
      ∙ append_assoc w.passed (op ∷ []) ops

  size-logging_ops :
      (ops : List (Op B)) (w : LoggingWriter B)
      → (logging_ops written ops w).response_data.size ≡ w.response_data.size + body_size ops
  unfolding logging_ops logging_op body_size
  size-logging_ops [] w = omega arith
  size-logging_ops (set_header k v ∷ ops) w = size-logging_ops ops _
  size-logging_ops (del_header k ∷ ops) w = size-logging_ops ops _
  size-logging_ops (write_header code ∷ ops) w = size-logging_ops ops _
  size-logging_ops (write b ∷ ops) w =
      omega (arith, size-logging_ops ops (logging_op written (write b) w))

  begun-status :
      (ops : List (Op B))
      → IsBegun ops
      → (w : LoggingWriter B)
      → (logging_ops written ops w).response_data.status ≡ w.response_data.status
  unfolding logging_ops logging_op
  begun-status _ nothing w = refl
  begun-status _ (then_header k v ops h) w =
      begun-status ops h (logging_op written (set_header k v) w)
  begun-status _ (then_del k ops h) w = begun-status ops h (logging_op written (del_header k) w)
  begun-status _ (then_write b ops h) w = begun-status ops h (logging_op written (write b) w)

  orderly-status :
      (ops : List (Op B))
      → IsOrderly ops
      → (w : LoggingWriter B) → w.response_data.status ≡ 200
      → (logging_ops written ops w).response_data.status ≡ status ops
  unfolding logging_ops logging_op status
  orderly-status _ no_calls w e = e
  orderly-status _ (header_first k v ops h) w e =
      orderly-status ops h (logging_op written (set_header k v) w) e
  orderly-status _ (del_first k ops h) w e =
      orderly-status ops h (logging_op written (del_header k) w) e
  orderly-status _ (status_once code ops h) w e =
      begun-status ops h (logging_op written (write_header code) w)
  orderly-status _ (write_once b ops h) w e =
      begun-status ops h (logging_op written (write b) w) ∙ e

  size_logged :
      (ops : List (Op B))
      → (logging_ops written ops (new_writer written)).response_data.size ≡ body_size ops
  unfolding new_writer
  size_logged ops = omega (arith, size-logging_ops ops (new_writer written))

  -- the status that a wrapper records which holds `code`
  unfoldable pub last_status : ℕ → List (Op B) → ℕ
  last_status code [] = code
  last_status code (set_header k v ∷ ops) = last_status code ops
  last_status code (del_header k ∷ ops) = last_status code ops
  last_status code (write_header c ∷ ops) = last_status c ops
  last_status code (write b ∷ ops) = last_status code ops

  logged_last :
      (ops : List (Op B)) (w : LoggingWriter B)
      → (logging_ops written ops w).response_data.status ≡ last_status w.response_data.status ops
  unfolding logging_ops logging_op last_status
  logged_last [] w = refl
  logged_last (set_header k v ∷ ops) w = logged_last ops (logging_op written (set_header k v) w)
  logged_last (del_header k ∷ ops) w = logged_last ops (logging_op written (del_header k) w)
  logged_last (write_header code ∷ ops) w =
      logged_last ops (logging_op written (write_header code) w)
  logged_last (write b ∷ ops) w = logged_last ops (logging_op written (write b) w)

  -- The logger passes every call of a handler on, in order, and leaves its state alone; the size that it
  -- logs is that of the whole body, and the status is that of the last call of `WriteHeader`, or 200.
  pub request_logger_lem :
      {S : Type 0} (next : Handler B S) (r : Request B) (s : S)
      → let out = request_logger written next r s in
        (out.0 ≡ (next r s).0)
        × (out.1 ≡ (next r s).1)
        × (out.2.size ≡ body_size (next r s).0)
        × (out.2.status ≡ last_status 200 (next r s).0)
  unfolding request_logger new_writer
  request_logger_lem next r s =
      let (ops, s') = next r s in
      (
        passed-logging_ops ops (new_writer written),
        refl,
        size_logged ops,
        logged_last ops (new_writer written),
      )

  -- For a handler that calls `WriteHeader` once at most, before the first `Write`, the status that is
  -- logged is the one that the client gets.
  logged-status :
      {S : Type 0} (next : Handler B S) (r : Request B) (s : S)
      → IsOrderly (next r s).0
      → (request_logger written next r s).2.status ≡ status (request_logger written next r s).0
  unfolding request_logger new_writer
  logged-status next r s h =
      orderly-status (next r s).0 h (new_writer written) refl
      ∙ ap status (sym (passed-logging_ops (next r s).0 (new_writer written)))
