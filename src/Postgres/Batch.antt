-- ===== src/Postgres/Batch.antt =====
-- `UpdateBatch` is all or nothing, also when it is repeated.
use mathlib.Core.Bool.{true≢false}
use metrics_alerting_service.Prelude.{
  ℕ, String, ◌≡◌, refl, ap, sym, ◌∙◌, subst, Bool, true, false, Option, none, some, List, [], ◌∷◌,
  ◌⊎◌, inl, inr, ◌==◌, if◌then◌else◌,
}
use metrics_alerting_service.Model.{Float64, Int64, Metrics, gauge, counter}
use metrics_alerting_service.Errors.{Error}
use metrics_alerting_service.Retry.Effect.{Settles, retry-Settles}
use metrics_alerting_service.Postgres.{
  Table, Statement, upsert_gauge, upsert_counter, execute, Database, is_retriable_pg_error,
  exec_gauge, exec_counter, exec_metric, unless_failed, exec_metrics, rolled_back, batch_attempt,
  update_batch,
}
use metrics_alerting_service.Postgres.Laws.{IsTransactional, Began, InTransaction, Committed}

abbrev gauge_statement : String → Option Float64 → Option Statement
gauge_statement id none = none
gauge_statement id (some v) = some (upsert_gauge id v)

abbrev counter_statement : String → Option Int64 → Option Statement
counter_statement id none = none
counter_statement id (some d) = some (upsert_counter id d)

-- The statement that a metric of a batch asks for, if any.
unfoldable pub statement_of : Metrics → Option Statement
statement_of m =
    if m.m_type == gauge
    then gauge_statement m.id m.value
    else if m.m_type == counter
    then counter_statement m.id m.delta
    else none

abbrev pub execute_opt : Option Statement → Table → Option Table
execute_opt none t = some t
execute_opt (some st) t = execute st t

abbrev pub then_all : (Table → Option Table) → Option Table → Option Table
then_all f none = none
then_all f (some t) = f t

-- A whole batch on a table, one statement after the other.
unfoldable pub execute_batch : List Metrics → Table → Option Table
execute_batch [] t = some t
execute_batch (m ∷ ms) t = then_all (execute_batch ms) (execute_opt (statement_of m) t)

module _ {D : Type 0} (db : Database D) (wait : ℕ → D → Bool × D)
    (laws : IsTransactional db wait) where
  -- The table is as it was, and the transaction's copy is what `f` makes of it, if there is no error.
  abbrev Ran : (Table → Option Table) → D → Option Error × D → Type 0
  Ran f d (some e, d') = laws.table d' ≡ laws.table d
  Ran f d (none, d') =
      (laws.table d' ≡ laws.table d) × (f (laws.pending d) ≡ some (laws.pending d'))

  InTransaction-Ran :
      (st : Statement) (d : D) (r : Option Error × D)
      → InTransaction laws.table laws.pending st d r
      → Ran (execute_opt (some st)) d r
  InTransaction-Ran st d (some e, d') h = h
  InTransaction-Ran st d (none, d') h = h

  exec_gauge-Ran :
      (id : String) (v : Option Float64) (d : D)
      → Ran (execute_opt (gauge_statement id v)) d (exec_gauge db wait id v d)
  unfolding exec_gauge
  exec_gauge-Ran id none d = (refl, refl)
  exec_gauge-Ran id (some v) d =
      InTransaction-Ran (upsert_gauge id v) d (db.tx_exec (upsert_gauge id v) d)
        (laws.tx_exec_lem (upsert_gauge id v) d)

  exec_counter-Ran :
      (id : String) (v : Option Int64) (d : D)
      → Ran (execute_opt (counter_statement id v)) d (exec_counter db wait id v d)
  unfolding exec_counter
  exec_counter-Ran id none d = (refl, refl)
  exec_counter-Ran id (some v) d =
      InTransaction-Ran (upsert_counter id v) d (db.tx_exec (upsert_counter id v) d)
        (laws.tx_exec_lem (upsert_counter id v) d)

  exec_metric-Ran :
      (m : Metrics) (d : D) → Ran (execute_opt (statement_of m)) d (exec_metric db wait m d)
  unfolding exec_metric statement_of
  exec_metric-Ran m d = branches (m.m_type == gauge) (m.m_type == counter)
    where
      branches :
          (g c : Bool)
          → Ran
              (execute_opt (
                if g
                then gauge_statement m.id m.value
                else if c
                then counter_statement m.id m.delta
                else none))
              d
              (if g
                then exec_gauge db wait m.id m.value d
                else if c
                then exec_counter db wait m.id m.delta d
                else (none, d))
      branches true c = exec_gauge-Ran m.id m.value d
      branches false true = exec_counter-Ran m.id m.delta d
      branches false false = (refl, refl)

  then-Ran :
      (f g : Table → Option Table) (rest : D → Option Error × D)
      → ((d : D) → Ran g d (rest d))
      → (d : D) (r : Option Error × D) → Ran f d r
      → Ran (λ t. then_all g (f t)) d (unless_failed db wait rest r)
  unfolding unless_failed
  then-Ran f g rest h d (some e, d') p = p
  then-Ran f g rest h d (none, d') p = continue (rest d') (h d')
    where
      continue : (q : Option Error × D) → Ran g d' q → Ran (λ t. then_all g (f t)) d q
      continue (some e, d2) k = k ∙ p.0
      continue (none, d2) k = (k.0 ∙ p.0, ap (then_all g) p.1 ∙ k.1)

  exec_metrics-Ran :
      (ms : List Metrics) (d : D) → Ran (execute_batch ms) d (exec_metrics db wait ms d)
  unfolding exec_metrics execute_batch
  exec_metrics-Ran [] d = (refl, refl)
  exec_metrics-Ran (m ∷ ms) d =
      then-Ran (execute_opt (statement_of m)) (execute_batch ms) (exec_metrics db wait ms)
        (exec_metrics-Ran ms) d (exec_metric db wait m d) (exec_metric-Ran m d)

  -- What one attempt, or the whole call, has done to the table.
  abbrev pub IsAtomic : List Metrics → Table → Option Error × D → Type 0
  IsAtomic ms t (some e, d) =
      (laws.table d ≡ t)
      ⊎ ((is_retriable_pg_error e ≡ false) × (execute_batch ms t ≡ some (laws.table d)))
  IsAtomic ms t (none, d) = execute_batch ms t ≡ some (laws.table d)

  Committed-IsAtomic :
      (ms : List Metrics) (t : Table) (d : D)
      → laws.table d ≡ t
      → execute_batch ms t ≡ some (laws.pending d)
      → (r : Option Error × D) → Committed laws.table laws.pending d r
      → IsAtomic ms t (rolled_back db wait r)
  unfolding rolled_back
  Committed-IsAtomic ms t d p q (some e, d') (inl c) = inl (laws.rollback_lem d' ∙ c ∙ p)
  Committed-IsAtomic ms t d p q (some e, d') (inr (n, c)) =
      inr (n, q ∙ ap (λ x. some x) (sym (laws.rollback_lem d' ∙ c)))
  Committed-IsAtomic ms t d p q (none, d') c = q ∙ ap (λ x. some x) (sym (laws.rollback_lem d' ∙ c))

  executed-IsAtomic :
      (ms : List Metrics) (t : Table) (d : D)
      → laws.table d ≡ t
      → laws.pending d ≡ t
      → (r : Option Error × D) → Ran (execute_batch ms) d r
      → IsAtomic ms t (rolled_back db wait (unless_failed db wait db.commit r))
  unfolding rolled_back unless_failed
  executed-IsAtomic ms t d p q (some e, d') h = inl (laws.rollback_lem d' ∙ h ∙ p)
  executed-IsAtomic ms t d p q (none, d') h =
      Committed-IsAtomic ms t d' (h.0 ∙ p) (ap (execute_batch ms) (sym q) ∙ h.1) (db.commit d')
        (laws.commit_lem d')

  attempt-IsAtomic :
      (ms : List Metrics) (d : D) → IsAtomic ms (laws.table d) (batch_attempt db wait ms d)
  unfolding batch_attempt unless_failed
  attempt-IsAtomic ms d = begun (db.begin d) (laws.begin_lem d)
    where
      begun :
          (r : Option Error × D)
          → Began laws.table laws.pending d r
          → IsAtomic ms (laws.table d) (
              unless_failed db wait
                (λ d'.
                  rolled_back db wait
                    (unless_failed db wait db.commit (exec_metrics db wait ms d')))
                r)
      begun (some e, d') b = inl b
      begun (none, d') b =
          executed-IsAtomic ms (laws.table d) d' b.0 b.1 (exec_metrics db wait ms d')
            (exec_metrics-Ran ms d')

  -- A retriable error leaves the table alone.
  retriable-keeps :
      (ms : List Metrics) (t : Table) (e : Error) (d : D)
      → is_retriable_pg_error e ≡ true
      → IsAtomic ms t (some e, d)
      → laws.table d ≡ t
  retriable-keeps ms t e d h (inl p) = p
  retriable-keeps ms t e d h (inr (n, p)) = absurd (true≢false (sym h ∙ n))

  -- `UpdateBatch` with its retries is one transaction. If it returns no error, every statement of the batch
  -- has been executed once, in order. If it returns a retriable error, the table is as before. If it
  -- returns any other error, the table is as before or the whole batch has been executed once, as
  -- when the connection is lost in the middle of COMMIT.
  pub update_batch-IsAtomic :
      (ms : List Metrics) (d : D) → IsAtomic ms (laws.table d) (update_batch db wait ms d)
  unfolding update_batch
  update_batch-IsAtomic ms d = once (update_batch db wait ms d) (
      retry-Settles (batch_attempt db wait ms) is_retriable_pg_error wait laws.table
        (λ s t e h q.
          retriable-keeps ms (laws.table s) e t h
            (subst (IsAtomic ms (laws.table s)) q (attempt-IsAtomic ms s)))
        laws.wait_lem d)
    where
      attempted :
          (u : D) (r : Option Error × D)
          → laws.table u ≡ laws.table d
          → batch_attempt db wait ms u ≡ r
          → IsAtomic ms (laws.table d) r
      attempted u r p q =
          subst (λ t. IsAtomic ms t r) p
            (subst (IsAtomic ms (laws.table u)) q (attempt-IsAtomic ms u))

      once :
          (r : Option Error × D)
          → Settles
              (batch_attempt db wait ms)
              is_retriable_pg_error
              wait
              laws.table
              (laws.table d)
              r
          → IsAtomic ms (laws.table d) r
      once (some e, t) (inl h) = inl h
      once (some e, t) (inr (n, u, p, q)) = attempted u (some e, t) p q
      once (none, t) (u, p, q) = attempted u (none, t) p q
