-- ===== src/Postgres/Lost.antt =====
-- A name that PostgreSQL holds as a gauge cannot be a counter as well.
use metrics_alerting_service.Prelude.{
  ℕ, String, ◌≡◌, refl, sym, ap, ◌∙◌, subst, Bool, Option, none, some, eq_iff, arith, inl, inr,
}
use metrics_alerting_service.Dict.{get, put}
use metrics_alerting_service.Model.{Int64, gauge, counter}
use metrics_alerting_service.Errors.{Error, Result, ok, err}
use metrics_alerting_service.Retry.{retry}
use metrics_alerting_service.Retry.Effect.{Ends, retry-Ends}
use metrics_alerting_service.Postgres.{
  Row, Table, upsert_counter, execute, counter_row, add_delta, counter_in, Database,
  is_retriable_pg_error, update_counter, get_counter, scan, scanned, found, wait_with,
}
use metrics_alerting_service.Postgres.Laws.{IsTransactional, Reads}
use metrics_alerting_service.Postgres.Refines.{get-put_self}
use metrics_alerting_service.Postgres.Refines.Storage.{Ran, update_counter-Ran}

wait_with-keeps :
    {V D : Type 0} (wait : ℕ → D → Bool × D) (table : D → Table)
    → ((n : ℕ) (d : D) → table (wait n d).1 ≡ table d)
    → (n : ℕ) (x : V × D) → table (wait_with wait n x).1.1 ≡ table x.1
wait_with-keeps wait table h n (v, d) = h n d

module _ {D : Type 0} (db : Database D) (wait : ℕ → D → Bool × D)
    (laws : IsTransactional db wait) where
  -- An attempt of a query leaves the table alone, and writes the variable only with what the row holds.
  abbrev Scanned : (D → Option ℕ) → ℕ × D → Option Error × (ℕ × D) → Type 0
  Scanned cell x (some e, y) = laws.table y.1 ≡ laws.table x.1
  Scanned cell x (none, y) = (laws.table y.1 ≡ laws.table x.1) × (cell x.1 ≡ some y.0)

  scanned-Scanned :
      (cell : D → Option ℕ) (val : ℕ) (d : D) (r : Result ℕ × D)
      → Reads laws.table (cell d) d r
      → Scanned cell (val, d) (scanned db wait val r)
  unfolding scanned
  scanned-Scanned cell val d (err e, d') h = h
  scanned-Scanned cell val d (ok v, d') h = h

  -- What `GetCounter` finds is the amount in the counter's row.
  pub get_counter-found :
      (k : String) (d d' : D) (v : Int64)
      → get_counter db wait k d ≡ (some v, d')
      → counter_in (get k (laws.table d)) ≡ some v
  unfolding get_counter scan found
  get_counter-found k d d' v h =
      by_outcome
        (retry (scan db wait (db.query_delta k)) is_retriable_pg_error (wait_with wait) (0, d))
        (retry-Ends (scan db wait (db.query_delta k)) is_retriable_pg_error (wait_with wait)
          (λ x. laws.table x.1) (λ s t e q. subst (Scanned cell s) q (attempt s))
          (wait_with-keeps wait laws.table laws.wait_lem) (0, d))
        h
    where
      cell : D → Option ℕ
      cell x = counter_in (get k (laws.table x))

      attempt : (x : ℕ × D) → Scanned cell x (scan db wait (db.query_delta k) x)
      attempt (val, x) = scanned-Scanned cell val x (db.query_delta k x) (laws.query_delta_lem k x)

      by_outcome :
          (r : Option Error × (ℕ × D))
          → Ends
              (scan db wait (db.query_delta k))
              is_retriable_pg_error
              (wait_with wait)
              (λ x. laws.table x.1)
              (laws.table d)
              r
          → found db wait r ≡ (some v, d')
          → counter_in (get k (laws.table d)) ≡ some v
      by_outcome (some e, (val, t)) p q = cc
      by_outcome (none, (val, t)) (u, p, q) w =
          ap (λ x. counter_in (get k x)) (sym p) ∙ (subst (Scanned cell u) q (attempt u)).1 ∙ same w
        where
          same : ◌≡◌ {A = Option ℕ × D} (some val, t) (some v, d') → some val ≡ some v
          same w' = cc

  counter_row-gauge : (x : Int64) (r : Row) → r.delta ≡ none → counter_row x (some r) ≡ some r
  unfolding counter_row add_delta
  counter_row-gauge x r e = ground arith

  -- Where a name has the row of a gauge, the statement of a counter update does not fail, and it leaves
  -- that row as it is. After `UpdateCounter`, whether it returns an error or not, the row is as before,
  -- and `GetCounter` finds nothing: the amount is lost.
  pub update_counter-lost :
      (k : String) (x : Int64) (d : D) (r : Row)
      → get k (laws.table d) ≡ some r
      → r.m_type ≡ gauge
      → r.delta ≡ none
      → let (e, d') = update_counter db wait k x d in
        ((t : Table) × (execute (upsert_counter k x) (laws.table d) ≡ some t) × (get k t ≡ some r))
        × (get k (laws.table d') ≡ some r)
        × ((get_counter db wait k d').0 ≡ none)
  unfolding execute
  update_counter-lost k x d r at g n =
      let (e, d') = update_counter db wait k x d in
      let stays = kept e d' (update_counter-Ran db wait laws k x d) in
      (
        (put k r (laws.table d), runs, get-put_self k r (laws.table d)),
        stays,
        nothing d' stays (get_counter db wait k d') refl,
      )
    where
      runs : execute (upsert_counter k x) (laws.table d) ≡ some (put k r (laws.table d))
      runs = ground (arith, counter_row-gauge x r n)

      written_row :
          (d' : D)
          → execute (upsert_counter k x) (laws.table d) ≡ some (laws.table d')
          → get k (laws.table d') ≡ some r
      written_row d' ran = ap (get k) (sym written) ∙ get-put_self k r (laws.table d)
        where
          written : put k r (laws.table d) ≡ laws.table d'
          written = ground (arith, ran, runs)

      kept :
          (e : Option Error) (d' : D)
          → Ran db wait laws (upsert_counter k x) (laws.table d) (e, d')
          → get k (laws.table d') ≡ some r
      kept (some e) d' (inl same) = ap (get k) same ∙ at
      kept (some e) d' (inr (_, ran)) = written_row d' ran
      kept none d' ran = written_row d' ran

      nothing :
          (d' : D)
          → get k (laws.table d') ≡ some r
          → (q : Option Int64 × D) → get_counter db wait k d' ≡ q
          → q.0 ≡ none
      nothing d' stays (none, d2) q = refl
      nothing d' stays (some v, d2) q =
          absurd (no_amount (ap counter_in (sym stays) ∙ get_counter-found k d' d2 v q))
        where
          no_amount : counter_in (some r) ≡ some v → ⊥
          no_amount w =
              ground (arith, eq_iff r.m_type gauge, eq_iff r.m_type counter, eq_iff gauge counter)
