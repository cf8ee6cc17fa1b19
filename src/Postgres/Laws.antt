-- ===== src/Postgres/Laws.antt =====
-- What is relied on in PostgreSQL, for one client at a time. A statement or a COMMIT that returns no error
-- has had the effect that it says. One that returns a retriable error, a reply of the server with a code
-- of class 08 or 40, has had none. Of any other error of a statement outside a transaction or of a
-- COMMIT nothing is known: a connection that is lost may be lost before the effect or after it. A
-- transaction works on a copy of the table, which `commit` puts in its place.
use metrics_alerting_service.Prelude.{ℕ, String, ◌≡◌, Bool, false, Option, none, some, ◌⊎◌}
use metrics_alerting_service.Dict.{get}
use metrics_alerting_service.Errors.{Error, Result, ok, err}
use metrics_alerting_service.Postgres.{
  Table, Statement, execute, gauge_in, counter_in, Database, is_retriable_pg_error,
}

module _ {D : Type 0} (table pending : D → Table) where
  abbrev pub Executed : Statement → D → Option Error × D → Type 0
  Executed st d (some e, d') =
      (table d' ≡ table d)
      ⊎ ((is_retriable_pg_error e ≡ false) × (execute st (table d) ≡ some (table d')))
  Executed st d (none, d') = execute st (table d) ≡ some (table d')

  abbrev pub Began : D → Option Error × D → Type 0
  Began d (some e, d') = table d' ≡ table d
  Began d (none, d') = (table d' ≡ table d) × (pending d' ≡ table d)

  abbrev pub InTransaction : Statement → D → Option Error × D → Type 0
  InTransaction st d (some e, d') = table d' ≡ table d
  InTransaction st d (none, d') =
      (table d' ≡ table d) × (execute st (pending d) ≡ some (pending d'))

  abbrev pub Committed : D → Option Error × D → Type 0
  Committed d (some e, d') =
      (table d' ≡ table d) ⊎ ((is_retriable_pg_error e ≡ false) × (table d' ≡ pending d))
  Committed d (none, d') = table d' ≡ pending d

module _ {D : Type 0} (table : D → Table) where
  -- A value that is found is that of the row; if there is none, the query or its `Scan` fails.
  abbrev pub Reads : Option ℕ → D → Result ℕ × D → Type 0
  Reads cell d (err e, d') = table d' ≡ table d
  Reads cell d (ok v, d') = (table d' ≡ table d) × (cell ≡ some v)

pub record IsTransactional {D : Type 0} (db : Database D) (wait : ℕ → D → Bool × D) : Type 0 where
  pub table : D → Table
  pub pending : D → Table
  pub exec_lem : (st : Statement) (d : D) → Executed table pending st d (db.exec st d)
  pub begin_lem : (d : D) → Began table pending d (db.begin d)
  pub tx_exec_lem : (st : Statement) (d : D) → InTransaction table pending st d (db.tx_exec st d)
  pub commit_lem : (d : D) → Committed table pending d (db.commit d)
  pub rollback_lem : (d : D) → table (db.rollback d) ≡ table d
  pub query_value_lem :
      (k : String) (d : D) → Reads table (gauge_in (get k (table d))) d (db.query_value k d)
  pub query_delta_lem :
      (k : String) (d : D) → Reads table (counter_in (get k (table d))) d (db.query_delta k d)
  pub wait_lem : (n : ℕ) (d : D) → table (wait n d).1 ≡ table d
