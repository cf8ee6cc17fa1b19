-- ===== src/Postgres/Refines/Storage.antt =====
-- The storage in PostgreSQL against the storage in memory.
use mathlib.Core.Bool.{true≢false}
use metrics_alerting_service.Prelude.{
  ℕ, ◌^◌, ◌<◌, String, ◌≡◌, refl, sym, ◌∙◌, subst, Bool, true, false, Option, none, some, List, [],
  ◌∷◌, ◌⊎◌, inl, inr, All, ◌==◌, eq_iff, or_else, arith,
}
use metrics_alerting_service.Model.{Int64, Metrics, gauge, counter}
use metrics_alerting_service.Errors.{Error}
use metrics_alerting_service.Retry.Effect.{Settles, retry-Settles}
use metrics_alerting_service.Repository.Mem.{MemStorage, apply_metric, apply_metrics}
use metrics_alerting_service.Postgres.{
  Table, Statement, upsert_gauge, upsert_counter, execute, Database, is_retriable_pg_error,
  update_batch, update_counter,
}
use metrics_alerting_service.Postgres.Laws.{IsTransactional, Executed}
use metrics_alerting_service.Postgres.Batch.{
  statement_of, execute_opt, then_all, execute_batch, IsAtomic, update_batch-IsAtomic,
}
use metrics_alerting_service.Postgres.Refines.{
  IsTyped, Represents, IsFitting, FollowsAt, keeps-FollowsAt, gauge-FollowsAt, counter-FollowsAt,
}

metric-FollowsAt :
    (kind : String → String) (m : Metrics) (t t' : Table) (s : MemStorage)
    → IsFitting kind m
    → execute_opt (statement_of m) t ≡ some t'
    → IsTyped kind t
    → Represents t s
    → (k : String) → FollowsAt kind m t s t' k
unfolding statement_of
metric-FollowsAt kind m t t' s fits h typed rep k =
    branches (m.m_type == gauge) (m.m_type == counter) m.value m.delta refl refl refl refl
  where
    same : (o : Option Statement) → statement_of m ≡ o → execute_opt o t ≡ some t'
    same o e = subst (λ x. execute_opt x t ≡ some t') e h

    unchanged : statement_of m ≡ none → FollowsAt kind m t s t' k
    unchanged e =
        subst (λ x. FollowsAt kind m t s x k) (stay (same none e))
          (keeps-FollowsAt kind m t s e typed rep k)
      where
        stay : some t ≡ some t' → t ≡ t'
        stay q = cc

    branches :
        (g c : Bool) (v d : Option ℕ)
        → (m.m_type == gauge) ≡ g
        → (m.m_type == counter) ≡ c
        → m.value ≡ v
        → m.delta ≡ d
        → FollowsAt kind m t s t' k
    branches true c (some v) d eg ec ev ed =
        gauge-FollowsAt kind m t t' s v ((eq_iff m.m_type gauge).0 eg) ev fits.0
          (same (some (upsert_gauge m.id v)) (ground arith)) typed rep k
    branches true c none d eg ec ev ed = unchanged (ground arith)
    branches false true v (some d) eg ec ev ed =
        counter-FollowsAt kind m t t' s d ((eq_iff m.m_type counter).0 ec) ed
          (subst (λ o. or_else o 0 < 2 ^ 64) ed fits.1) fits.0
          (same (some (upsert_counter m.id d)) (ground arith)) typed rep k
    branches false true v none eg ec ev ed = unchanged (ground arith)
    branches false false v d eg ec ev ed = unchanged (ground arith)

then_all-some :
    (f : Table → Option Table) (o : Option Table) {t : Table}
    → then_all f o ≡ some t
    → (t1 : Table) × (o ≡ some t1) × (f t1 ≡ some t)
then_all-some f none h = cc
then_all-some f (some t1) h = (t1, refl, h)

batch-Represents :
    (kind : String → String) (ms : List Metrics) (t t' : Table) (s : MemStorage)
    → All (IsFitting kind) ms
    → execute_batch ms t ≡ some t'
    → IsTyped kind t
    → Represents t s
    → IsTyped kind t' × Represents t' (apply_metrics ms s)
unfolding execute_batch apply_metrics
batch-Represents kind [] t t' s fits h typed rep =
    subst (λ x. IsTyped kind x × Represents x s) (stay h) (typed, rep)
  where
    stay : some t ≡ some t' → t ≡ t'
    stay q = cc
batch-Represents kind (m ∷ ms) t t' s fits h typed rep =
    let (t1, e, q) = then_all-some (execute_batch ms) (execute_opt (statement_of m) t) h in
    let f = metric-FollowsAt kind m t t1 s fits.0 e typed rep in
    batch-Represents kind ms t1 t' (apply_metric m s) fits.1 q (λ k. (f k).0)
      (λ k. ((f k).1, (f k).2))

module _ {D : Type 0} (db : Database D) (wait : ℕ → D → Bool × D)
    (laws : IsTransactional db wait) where
  -- A batch in which each name has one type, that of its row if there is one, has the effect that it
  -- has in memory, if `UpdateBatch` returns no error.
  pub update_batch-Represents :
      (kind : String → String) (ms : List Metrics) (d d' : D) (s : MemStorage)
      → All (IsFitting kind) ms
      → IsTyped kind (laws.table d)
      → Represents (laws.table d) s
      → update_batch db wait ms d ≡ (none, d')
      → IsTyped kind (laws.table d') × Represents (laws.table d') (apply_metrics ms s)
  update_batch-Represents kind ms d d' s fits typed rep e =
      batch-Represents kind ms (laws.table d) (laws.table d') s fits
        (subst (IsAtomic db wait laws ms (laws.table d)) e
          (update_batch-IsAtomic db wait laws ms d))
        typed rep

  -- A call of `Do` with one statement.
  abbrev pub Ran : Statement → Table → Option Error × D → Type 0
  Ran st t (some e, d) =
      (laws.table d ≡ t)
      ⊎ ((is_retriable_pg_error e ≡ false) × (execute st t ≡ some (laws.table d)))
  Ran st t (none, d) = execute st t ≡ some (laws.table d)

  exec-Ran : (st : Statement) (d : D) → Ran st (laws.table d) (db.exec st d)
  exec-Ran st d = same (db.exec st d) (laws.exec_lem st d)
    where
      same :
          (r : Option Error × D) → Executed laws.table laws.pending st d r → Ran st (laws.table d) r
      same (some e, t) h = h
      same (none, t) h = h

  retriable-keeps :
      (st : Statement) (t : Table) (e : Error) (d : D)
      → is_retriable_pg_error e ≡ true
      → Ran st t (some e, d)
      → laws.table d ≡ t
  retriable-keeps st t e d h (inl p) = p
  retriable-keeps st t e d h (inr (n, p)) = absurd (true≢false (sym h ∙ n))

  pub update_counter-Ran :
      (k : String) (x : Int64) (d : D)
      → Ran (upsert_counter k x) (laws.table d) (update_counter db wait k x d)
  unfolding update_counter
  update_counter-Ran k x d = once (update_counter db wait k x d) (
      retry-Settles (db.exec st) is_retriable_pg_error wait laws.table
        (λ s t e h q.
          retriable-keeps st (laws.table s) e t h (subst (Ran st (laws.table s)) q (exec-Ran st s)))
        laws.wait_lem d)
    where
      st : Statement
      st = upsert_counter k x

      attempted :
          (u : D) (r : Option Error × D)
          → laws.table u ≡ laws.table d
          → db.exec st u ≡ r
          → Ran st (laws.table d) r
      attempted u r p q =
          subst (λ t. Ran st t r) p (subst (Ran st (laws.table u)) q (exec-Ran st u))

      once :
          (r : Option Error × D)
          → Settles (db.exec st) is_retriable_pg_error wait laws.table (laws.table d) r
          → Ran st (laws.table d) r
      once (some e, t) (inl h) = inl h
      once (some e, t) (inr (n, u, p, q)) = attempted u (some e, t) p q
      once (none, t) (u, p, q) = attempted u (none, t) p q
