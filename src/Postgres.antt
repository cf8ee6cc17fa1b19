-- ===== src/Postgres.antt =====
-- internal/repository/pg/storage.go: the storage in PostgreSQL. The database is a parameter; what the
-- SQL of the program says is `execute`, on a table whose key is the column `id`. The column
-- `updated_at`, which nothing reads, is left out.
pub mod Laws
pub mod Batch
pub mod Refines
pub mod Lost
pub mod Example
mod Tests
use mathlib.Core.Option
use text.Mathlib.Text.{starts_with}
use metrics_alerting_service.Prelude.{
  ℕ, ◌^◌, String, Bool, true, false, ◌&&◌, ◌||◌, Option, none, some, List, [], ◌∷◌, ◌==◌, leb, not,
  if◌then◌else◌,
}
use metrics_alerting_service.Dict.{Dict, get, put}
use metrics_alerting_service.Model.{Float64, Int64, Metrics, gauge, counter, add_int64}
use metrics_alerting_service.Errors.{Error, Result, ok, err, pg_error}
use metrics_alerting_service.Repository.{Storage}
use metrics_alerting_service.Retry.{retry}

-- A row without its key; NULL is `none`.
pub record Row : Type 0 where
  pub m_type : String
  pub delta : Option Int64
  pub value : Option Float64

abbrev pub Table : Type 0
Table = Dict Row

-- The two INSERT statements, with their arguments.
pub data Statement : Type 0 where
  upsert_gauge : String → Float64 → Statement
  upsert_counter : String → Int64 → Statement

abbrev pub is_negative : Int64 → Bool
is_negative n = leb (2 ^ 63) n

abbrev pub same_sign : Bool → Bool → Bool
same_sign true b = b
same_sign false b = not b

-- The sum of two BIGINT values, which PostgreSQL refuses when it is out of range.
unfoldable pub add_bigint : Int64 → Int64 → Option Int64
add_bigint a b =
    if same_sign (is_negative a) (is_negative b)
      && not (same_sign (is_negative a) (is_negative (add_int64 a b)))
    then none
    else some (add_int64 a b)

-- `metrics.delta + $2`, where NULL + $2 is NULL
unfoldable pub add_delta : Option Int64 → Int64 → Option (Option Int64)
add_delta none d = some none
add_delta (some old) d = Option.map (λ s. some s) (add_bigint old d)

-- `VALUES ($1, 'gauge', $2, …) ON CONFLICT (id) DO UPDATE SET value = $2`
unfoldable pub gauge_row : Float64 → Option Row → Row
gauge_row v none = record { m_type = gauge; delta = none; value = some v }
gauge_row v (some r) = record r { value = some v }

-- `VALUES ($1, 'counter', $2, …) ON CONFLICT (id) DO UPDATE SET delta = metrics.delta + $2`
unfoldable pub counter_row : Int64 → Option Row → Option Row
counter_row d none = some (record { m_type = counter; delta = some d; value = none })
counter_row d (some r) = Option.map (λ s. record r { delta = s }) (add_delta r.delta d)

-- `none` where the statement fails on the values.
unfoldable pub execute : Statement → Table → Option Table
execute (upsert_gauge id v) t = some (put id (gauge_row v (get id t)) t)
execute (upsert_counter id d) t = Option.map (λ r. put id r t) (counter_row d (get id t))

-- `WHERE id = $1 AND type = 'gauge'`
abbrev pub gauge_in : Option Row → Option Float64
gauge_in none = none
gauge_in (some r) = if r.m_type == gauge then r.value else none

abbrev pub counter_in : Option Row → Option Int64
counter_in none = none
counter_in (some r) = if r.m_type == counter then r.delta else none

-- The connection pool: `exec` outside a transaction, `begin` to `rollback` for the one that is open,
-- `query_value` and `query_delta` with their `Scan`, and the rows that `query_all` gives, each scanned,
-- with `rows.Err`.
pub record Database (D : Type 0) : Type 0 where
  pub ping : D → Option Error × D
  pub exec : Statement → D → Option Error × D
  pub begin : D → Option Error × D
  pub tx_exec : Statement → D → Option Error × D
  pub commit : D → Option Error × D
  pub rollback : D → D
  pub query_value : String → D → Result Float64 × D
  pub query_delta : String → D → Result Int64 × D
  pub query_all : D → Result (List (Result (String × Row)) × Option Error) × D

-- `isRetriablePgError`: classes 08 (connection) and 40 (rollback)
unfoldable pub is_retriable_pg_error : Error → Bool
is_retriable_pg_error (pg_error code) = starts_with code "08" || starts_with code "40"
is_retriable_pg_error e = false

-- A variable of a method that its attempts write, beside the database.
abbrev pub wait_with : {V D : Type 0} → (ℕ → D → Bool × D) → ℕ → V × D → Bool × (V × D)
wait_with wait d (v, s) = let (cancelled, s') = wait d s in (cancelled, (v, s'))

module _ {D : Type 0} (db : Database D) (wait : ℕ → D → Bool × D) where
  unfoldable pub update_gauge : String → Float64 → D → Option Error × D
  update_gauge name value = retry (db.exec (upsert_gauge name value)) is_retriable_pg_error wait

  unfoldable pub update_counter : String → Int64 → D → Option Error × D
  update_counter name value = retry (db.exec (upsert_counter name value)) is_retriable_pg_error wait

  exec_gauge : String → Option Float64 → D → Option Error × D
  exec_gauge id none d = (none, d)
  exec_gauge id (some v) d = db.tx_exec (upsert_gauge id v) d

  exec_counter : String → Option Int64 → D → Option Error × D
  exec_counter id none d = (none, d)
  exec_counter id (some x) d = db.tx_exec (upsert_counter id x) d

  -- one round of the loop of `UpdateBatch`
  exec_metric : Metrics → D → Option Error × D
  unfolding exec_gauge exec_counter
  exec_metric m d =
      if m.m_type == gauge
      then exec_gauge m.id m.value d
      else if m.m_type == counter
      then exec_counter m.id m.delta d
      else (none, d)

  unless_failed : (D → Option Error × D) → Option Error × D → Option Error × D
  unless_failed rest (some e, d) = (some e, d)
  unless_failed rest (none, d) = rest d

  exec_metrics : List Metrics → D → Option Error × D
  unfolding exec_metric unless_failed
  exec_metrics [] d = (none, d)
  exec_metrics (m ∷ ms) d = unless_failed (exec_metrics ms) (exec_metric m d)

  -- `defer tx.Rollback`, which does nothing after a commit
  rolled_back : Option Error × D → Option Error × D
  rolled_back (r, d) = (r, db.rollback d)

  batch_attempt : List Metrics → D → Option Error × D
  unfolding exec_metrics rolled_back unless_failed
  batch_attempt ms d =
      unless_failed (λ d'. rolled_back (unless_failed db.commit (exec_metrics ms d'))) (db.begin d)

  unfoldable pub update_batch : List Metrics → D → Option Error × D
  unfolding batch_attempt
  update_batch ms = retry (batch_attempt ms) is_retriable_pg_error wait

  -- a query with `Scan(&val)` as an attempt of `Do`
  scanned : {V : Type 0} → V → Result V × D → Option Error × (V × D)
  scanned val (err e, d) = (some e, (val, d))
  scanned val (ok v, d) = (none, (v, d))

  scan : {V : Type 0} → (D → Result V × D) → V × D → Option Error × (V × D)
  unfolding scanned
  scan query (val, d) = scanned val (query d)

  found : {V : Type 0} → Option Error × (V × D) → Option V × D
  found (some e, (val, d)) = (none, d)
  found (none, (val, d)) = (some val, d)

  unfoldable pub get_gauge : String → D → Option Float64 × D
  unfolding scan found
  get_gauge name d =
      found (retry (scan (db.query_value name)) is_retriable_pg_error (wait_with wait) (0, d))

  unfoldable pub get_counter : String → D → Option Int64 × D
  unfolding scan found
  get_counter name d =
      found (retry (scan (db.query_delta name)) is_retriable_pg_error (wait_with wait) (0, d))

  set_if_some : String → Option ℕ → Dict ℕ → Dict ℕ
  set_if_some id none m = m
  set_if_some id (some v) m = put id v m

  -- the `switch` of `GetAll`
  read_row : String × Row → Dict Float64 × Dict Int64 → Dict Float64 × Dict Int64
  unfolding set_if_some
  read_row (id, r) (gauges, counters) =
      if r.m_type == "gauge"
      then (set_if_some id r.value gauges, counters)
      else if r.m_type == "counter"
      then (gauges, set_if_some id r.delta counters)
      else (gauges, counters)

  -- the loop over the rows; it ends with `rows.Err` or at a row that does not scan
  read_rows :
      Option Error
      → List (Result (String × Row))
      → Dict Float64 × Dict Int64
      → Option Error × (Dict Float64 × Dict Int64)
  unfolding read_row
  read_rows last [] maps = (last, maps)
  read_rows last (err e ∷ rows) maps = (some e, maps)
  read_rows last (ok row ∷ rows) maps = read_rows last rows (read_row row maps)

  all_read :
      Dict Float64 × Dict Int64
      → Result (List (Result (String × Row)) × Option Error) × D
      → Option Error × ((Dict Float64 × Dict Int64) × D)
  unfolding read_rows
  all_read maps (err e, d) = (some e, (maps, d))
  all_read maps (ok (rows, last), d) = let (r, maps') = read_rows last rows maps in (r, (maps', d))

  -- the maps keep what an earlier attempt has read
  all_attempt : (Dict Float64 × Dict Int64) × D → Option Error × ((Dict Float64 × Dict Int64) × D)
  unfolding all_read
  all_attempt (maps, d) = all_read maps (db.query_all d)

  all_found : Option Error × ((Dict Float64 × Dict Int64) × D) → Dict Float64 × Dict Int64 × D
  all_found (some e, (maps, d)) = ([], [], d)
  all_found (none, ((gauges, counters), d)) = (gauges, counters, d)

  unfoldable pub get_all : D → Dict Float64 × Dict Int64 × D
  unfolding all_attempt all_found
  get_all d = all_found (retry all_attempt is_retriable_pg_error (wait_with wait) (([], []), d))

  unfoldable pub pg_storage : Storage D
  pg_storage = record {
    update_gauge = update_gauge;
    update_counter = update_counter;
    update_batch = update_batch;
    get_gauge = get_gauge;
    get_counter = get_counter;
    get_all = get_all;
    ping = db.ping;
  }
