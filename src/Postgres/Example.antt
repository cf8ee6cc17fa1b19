-- ===== src/Postgres/Example.antt =====
-- A database that keeps the laws: two tables, and a script of failures for the calls to come.
use metrics_alerting_service.Prelude.{
  ℕ, ◌≡◌, refl, Bool, false, Option, none, some, List, [], ◌∷◌, inl,
}
use metrics_alerting_service.Dict.{get}
use metrics_alerting_service.Errors.{Error, Result, ok, err, pg_error, no_rows}
use metrics_alerting_service.Postgres.{Table, Statement, execute, gauge_in, counter_in, Database}
use metrics_alerting_service.Postgres.Laws.{
  Executed, Began, InTransaction, Committed, Reads, IsTransactional,
}

pub record Server : Type 0 where
  pub table : Table
  pub pending : Table
  pub script : List (Option Error)

abbrev pub next : List (Option Error) → Server → Option Error × Server
next [] d = (none, record d { script = [] })
next (r ∷ rs) d = (r, record d { script = rs })

abbrev pub on_table : Option Table → Server → Option Error × Server
on_table none d = (some (pg_error "22003"), d)
on_table (some t) d = (none, record d { table = t })

abbrev pub on_pending : Option Table → Server → Option Error × Server
on_pending none d = (some (pg_error "22003"), d)
on_pending (some t) d = (none, record d { pending = t })

abbrev pub if_up : (Server → Option Error × Server) → Option Error × Server → Option Error × Server
if_up f (some e, d) = (some e, d)
if_up f (none, d) = f d

abbrev pub calling : (Server → Option Error × Server) → Server → Option Error × Server
calling f d = if_up f (next d.script d)

abbrev pub cell : Option ℕ → Server → Result ℕ × Server
cell none d = (err no_rows, d)
cell (some v) d = (ok v, d)

abbrev pub server : Database Server
server = record {
  ping = calling (λ d. (none, d));
  exec = λ st. calling (λ d. on_table (execute st d.table) d);
  begin = calling (λ d. (none, record d { pending = d.table }));
  tx_exec = λ st. calling (λ d. on_pending (execute st d.pending) d);
  commit = calling (λ d. (none, record d { table = d.pending }));
  rollback = λ d. d;
  query_value = λ k d. cell (gauge_in (get k d.table)) d;
  query_delta = λ k d. cell (counter_in (get k d.table)) d;
  query_all = λ d. (ok ([], none), d);
}

abbrev pub patient : ℕ → Server → Bool × Server
patient n d = (false, d)

-- The laws for a call that may fail: what `P` says of a failure and of `f` holds of the call.
pub called :
    (P : Server → Option Error × Server → Type 0) (f : Server → Option Error × Server)
    → ((d : Server) (e : Error) (s : List (Option Error)) → P d (some e, record d { script = s }))
    → ((d : Server) (s : List (Option Error)) → P d (f (record d { script = s })))
    → (d : Server) → P d (calling f d)
called P f fails works d = by_script d.script
  where
    by_script : (s : List (Option Error)) → P d (if_up f (next s d))
    by_script [] = works d []
    by_script (none ∷ s) = works d s
    by_script (some x ∷ s) = fails d x s

abbrev pub table_of : Server → Table
table_of d = d.table

abbrev pub pending_of : Server → Table
pending_of d = d.pending

pub on_table-Executed :
    (st : Statement) (d : Server) (s : List (Option Error)) (o : Option Table)
    → execute st d.table ≡ o
    → Executed table_of pending_of st d (on_table o (record d { script = s }))
on_table-Executed st d s none e = inl refl
on_table-Executed st d s (some t) e = e

pub on_pending-InTransaction :
    (st : Statement) (d : Server) (s : List (Option Error)) (o : Option Table)
    → execute st d.pending ≡ o
    → InTransaction table_of pending_of st d (on_pending o (record d { script = s }))
on_pending-InTransaction st d s none e = refl
on_pending-InTransaction st d s (some t) e = (refl, e)

pub cell-Reads : (o : Option ℕ) (d : Server) → Reads table_of o d (cell o d)
cell-Reads none d = refl
cell-Reads (some v) d = (refl, refl)

unfoldable pub server-IsTransactional : IsTransactional server patient
server-IsTransactional = record {
  table = table_of;
  pending = pending_of;
  exec_lem = λ st.
      called (Executed table_of pending_of st) (λ d. on_table (execute st d.table) d)
        (λ d e s. inl refl) (λ d s. on_table-Executed st d s (execute st d.table) refl);
  begin_lem =
      called (Began table_of pending_of) (λ d. (none, record d { pending = d.table }))
        (λ d e s. refl) (λ d s. (refl, refl));
  tx_exec_lem = λ st.
      called (InTransaction table_of pending_of st) (λ d. on_pending (execute st d.pending) d)
        (λ d e s. refl) (λ d s. on_pending-InTransaction st d s (execute st d.pending) refl);
  commit_lem =
      called (Committed table_of pending_of) (λ d. (none, record d { table = d.pending }))
        (λ d e s. inl refl) (λ d s. refl);
  rollback_lem = λ d. refl;
  query_value_lem = λ k d. cell-Reads (gauge_in (get k d.table)) d;
  query_delta_lem = λ k d. cell-Reads (counter_in (get k d.table)) d;
  wait_lem = λ n d. refl;
}
