-- ===== src/Postgres/Tests.antt =====
-- The storage in PostgreSQL on a database that fails in the middle of a transaction, and its theorems
-- at concrete inputs.
use metrics_alerting_service.Prelude.{
  String, ◌≡◌, refl, none, some, List, [], ◌∷◌, ◌==◌, if◌then◌else◌, arith, eq_iff, Bool-cases, inl,
  inr, subst, false,
}
use metrics_alerting_service.Dict.{get, put}
use metrics_alerting_service.Retry.{retry}
use metrics_alerting_service.Model.{Metrics, add_int64}
use metrics_alerting_service.Errors.{pg_error}
use metrics_alerting_service.Repository.Mem.{MemStorage, apply_metrics}
use metrics_alerting_service.Postgres.{
  execute, counter_row, gauge_row, add_delta, add_bigint, is_retriable_pg_error, gauge_in,
  counter_in, Row, Table, update_batch, update_counter, get_counter, upsert_counter,
}
use metrics_alerting_service.Postgres.Batch.{IsAtomic, update_batch-IsAtomic}
use metrics_alerting_service.Postgres.Refines.{IsKept, IsTyped, Represents}
use metrics_alerting_service.Postgres.Refines.Storage.{update_batch-Represents}
use metrics_alerting_service.Postgres.Lost.{update_counter-lost}
use metrics_alerting_service.Postgres.Example.{Server, server, patient, server-IsTransactional}

abbrev poll_row : Row
poll_row = record { m_type = "counter"; delta = some 5; value = none }

abbrev alloc_row : Row
alloc_row = record { m_type = "gauge"; delta = none; value = some 1 }

abbrev before : Server
before = record {
  table = ("PollCount", poll_row) ∷ ("Alloc", alloc_row) ∷ [];
  pending = [];
  script = none ∷ none ∷ some (pg_error "40001") ∷ [];
}

abbrev batch : List Metrics
batch =
    record { id = "PollCount"; m_type = "counter"; delta = some 2; value = none; hash = "" }
    ∷ record { id = "Alloc"; m_type = "gauge"; delta = none; value = some 9; hash = "" }
    ∷ []

abbrev new_rows : Table
new_rows =
    ("PollCount", record poll_row { delta = some 7 })
    ∷ ("Alloc", record alloc_row { value = some 9 })
    ∷ []

abbrev after : Server
after = record { table = new_rows; pending = new_rows; script = [] }

-- the first attempt fails at its second statement, and the counter is not counted twice
retried : update_batch server patient batch before ≡ (none, after)
unfolding update_batch retry execute counter_row get add_delta add_bigint add_int64
    is_retriable_pg_error put gauge_row
retried = refl

update_batch-IsAtomic_example :
    IsAtomic server patient server-IsTransactional batch
      (server-IsTransactional.table before)
      (update_batch server patient batch before)
update_batch-IsAtomic_example =
    update_batch-IsAtomic server patient server-IsTransactional batch before

abbrev kind : String → String
kind name = if name == "PollCount" then "counter" else "gauge"

abbrev mem : MemStorage
mem = record { gauges = ("Alloc", 1) ∷ []; counters = ("PollCount", 5) ∷ [] }

-- A claim about every name: it holds at the two names of the table and where both tests fail.
at_every_name :
    (P : String → Type 0)
    → P "PollCount"
    → P "Alloc"
    → ((k : String) → ("PollCount" == k) ≡ false → ("Alloc" == k) ≡ false → P k)
    → (k : String) → P k
at_every_name P p q other k = elim (Bool-cases ("PollCount" == k)) [
  | inl e ↦ subst P ((eq_iff "PollCount" k).0 e) p
  | inr e ↦ elim (Bool-cases ("Alloc" == k)) [
    | inl f ↦ subst P ((eq_iff "Alloc" k).0 f) q
    | inr f ↦ other k e f
  ]
]

before-IsTyped : IsTyped kind before.table
unfolding get
before-IsTyped =
    at_every_name (λ k. IsKept (kind k) (get k before.table)) (refl, refl) (refl, refl)
      (λ k e f. rw (e, f) tt)

before-Represents : Represents before.table mem
unfolding get
before-Represents =
    at_every_name
      (λ k.
        (gauge_in (get k before.table) ≡ get k mem.gauges)
        × (counter_in (get k before.table) ≡ get k mem.counters))
      (refl, refl) (refl, refl) (λ k e f. rw (e, f) (refl, refl))

update_batch-Represents_example :
    IsTyped kind (server-IsTransactional.table after)
    × Represents (server-IsTransactional.table after) (apply_metrics batch mem)
unfolding server-IsTransactional
update_batch-Represents_example =
    update_batch-Represents server patient server-IsTransactional kind batch before after mem
      ((refl, omega arith), ((refl, omega arith), tt)) before-IsTyped before-Represents retried

abbrev quiet : Server
quiet = record before { script = [] }

update_counter-lost_example :
    let (e, after) = update_counter server patient "Alloc" 3 quiet in
    ((t : Table) × (execute (upsert_counter "Alloc" 3) (server-IsTransactional.table quiet)
        ≡ some t)
      × (get "Alloc" t ≡ some alloc_row))
    × (get "Alloc" (server-IsTransactional.table after) ≡ some alloc_row)
    × ((get_counter server patient "Alloc" after).0 ≡ none)
unfolding server-IsTransactional get
update_counter-lost_example =
    update_counter-lost server patient server-IsTransactional "Alloc" 3 quiet alloc_row refl refl
      refl
