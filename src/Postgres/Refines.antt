-- ===== src/Postgres/Refines.antt =====
-- One metric of a batch in PostgreSQL against the same metric in memory.
pub mod Storage
use metrics_alerting_service.Prelude.{
  ℕ, ◌+◌, ◌%◌, ◌^◌, ◌<◌, String, ◌≡◌, refl, ◌≢◌, sym, ap, ◌∙◌, subst, Bool, true, false, Option,
  none, some, List, [], ◌∷◌, All, ◌==◌, eq_iff, eq_refl, if◌then◌else◌, or_else, Bool-cases, ◌⊎◌,
  inl, inr, arith,
}
use metrics_alerting_service.Dict.{get, put, get-put}
use metrics_alerting_service.Model.{Float64, Int64, Metrics, gauge, counter, add_int64}
use metrics_alerting_service.Errors.{Error}
use metrics_alerting_service.Repository.Mem.{MemStorage, apply_metric, apply_metrics}
use metrics_alerting_service.Repository.Mem.Batch.{
  gauge_of, delta_of, or_old, add_to, is_set, gauge-apply_metric, counter-apply_metric,
}
use metrics_alerting_service.Postgres.{
  Row, Table, Statement, upsert_gauge, upsert_counter, execute, gauge_row, counter_row, add_delta,
  add_bigint, gauge_in, counter_in, Database, update_batch,
}
use metrics_alerting_service.Postgres.Laws.{IsTransactional}
use metrics_alerting_service.Postgres.Batch.{
  statement_of, execute_opt, then_all, execute_batch, IsAtomic, update_batch-IsAtomic,
}

-- A row, if there is one, has the type that its name is kept for, and a counter's row has an amount.
abbrev pub IsKept : String → Option Row → Type 0
IsKept kind none = Unit
IsKept kind (some r) =
    (r.m_type ≡ kind) × ((if r.m_type == counter then is_set r.delta else true) ≡ true)

-- Each name is used for metrics of one type only.
abbrev pub IsTyped : (String → String) → Table → Type 0
IsTyped kind t = (k : String) → IsKept (kind k) (get k t)

-- Both storages answer alike to every query of one metric.
abbrev pub Represents : Table → MemStorage → Type 0
Represents t s =
    (k : String) → (gauge_in (get k t) ≡ get k s.gauges) × (counter_in (get k t) ≡ get k s.counters)

-- A metric of a type for which its name is kept, with a 64-bit amount.
abbrev pub IsFitting : (String → String) → Metrics → Type 0
IsFitting kind m = (m.m_type ≡ kind m.id) × (or_else m.delta 0 < 2 ^ 64)

gauge_row-gauge :
    (v : Float64) (o : Option Row)
    → IsKept gauge o
    → (gauge_in (some (gauge_row v o)) ≡ some v)
      × (counter_in (some (gauge_row v o)) ≡ counter_in o)
      × IsKept gauge (some (gauge_row v o))
unfolding gauge_row
gauge_row-gauge v none h = (refl, refl, ground (arith, eq_iff gauge counter))
gauge_row-gauge v (some r) h = (
  ground (arith, eq_iff r.m_type gauge),
  ground arith,
  ground (arith, eq_iff r.m_type gauge, eq_iff r.m_type counter, eq_iff gauge counter),
)

add_bigint-some : (a b : Int64) {s : Int64} → add_bigint a b ≡ some s → s ≡ (a + b) % 2 ^ 64
unfolding add_bigint add_int64
add_bigint-some a b h = ground arith

counter_row-counter :
    (d : Int64) (o : Option Row) (r : Row)
    → d < 2 ^ 64
    → counter_row d o ≡ some r
    → IsKept counter o
    → (counter_in (some r) ≡ add_to (some d) (counter_in o))
      × (gauge_in (some r) ≡ gauge_in o)
      × IsKept counter (some r)
unfolding counter_row add_delta
counter_row-counter d none r b e h = (
  ground (arith, eq_iff r.m_type counter),
  ground (arith, eq_iff r.m_type gauge, eq_iff r.m_type counter, eq_iff gauge counter),
  ground (arith, eq_iff r.m_type counter),
)
counter_row-counter d (some old) r b e h = with_amount old.delta refl
  where
    with_sum :
        (x : Int64) (o : Option Int64)
        → old.delta ≡ some x
        → add_bigint x d ≡ o
        → (counter_in (some r) ≡ add_to (some d) (counter_in (some old)))
          × (gauge_in (some r) ≡ gauge_in (some old))
          × IsKept counter (some r)
    with_sum x none q k = absurd (ground arith)
    with_sum x (some s) q k =
        let sum = add_bigint-some x d k in
        (
          ground (arith, eq_iff r.m_type counter, eq_iff old.m_type counter),
          ground (
            arith,
            eq_iff r.m_type gauge,
            eq_iff old.m_type gauge,
            eq_iff old.m_type counter,
            eq_iff gauge counter,
          ),
          ground (arith, eq_iff r.m_type counter, eq_iff old.m_type counter),
        )

    with_amount :
        (o : Option Int64)
        → old.delta ≡ o
        → (counter_in (some r) ≡ add_to (some d) (counter_in (some old)))
          × (gauge_in (some r) ≡ gauge_in (some old))
          × IsKept counter (some r)
    with_amount none q = absurd (ground (arith, eq_iff old.m_type counter))
    with_amount (some x) q = with_sum x (add_bigint x d) q refl

pub get-put_self : (id : String) (r : Row) (t : Table) → get id (put id r t) ≡ some r
get-put_self id r t = get-put id id r t ∙ rw (eq_refl id)

get-put_other :
    (id k : String) (r : Row) (t : Table) → (id == k) ≡ false → get k (put id r t) ≡ get k t
get-put_other id k r t e = get-put id k r t ∙ rw e

-- The claim about one name, for a metric and the tables before and after it.
abbrev FollowsAt : (String → String) → Metrics → Table → MemStorage → Table → String → Type 0
FollowsAt kind m t s t' k =
    IsKept (kind k) (get k t')
    × (gauge_in (get k t') ≡ get k (apply_metric m s).gauges)
    × (counter_in (get k t') ≡ get k (apply_metric m s).counters)

-- A metric of another name changes nothing at `k`.
apply_metric-other :
    (m : Metrics) (s : MemStorage) (k : String)
    → (m.id == k) ≡ false
    → (get k (apply_metric m s).gauges ≡ get k s.gauges)
      × (get k (apply_metric m s).counters ≡ get k s.counters)
apply_metric-other m s k e =
    (gauge-apply_metric k m s ∙ ground arith, counter-apply_metric k m s ∙ ground arith)

-- If the row that is written at `m.id` reads as `m` says, then the tables follow at every name.
put-FollowsAt :
    (kind : String → String) (m : Metrics) (t : Table) (s : MemStorage) (r : Row)
    → IsKept (kind m.id) (some r)
    → gauge_in (some r) ≡ or_old (gauge_of m.id m) (gauge_in (get m.id t))
    → counter_in (some r) ≡ add_to (delta_of m.id m) (counter_in (get m.id t))
    → IsTyped kind t
    → Represents t s
    → (k : String) → FollowsAt kind m t s (put m.id r t) k
put-FollowsAt kind m t s r kept g c typed rep k = elim (Bool-cases (m.id == k)) [
  | inl e ↦ subst (FollowsAt kind m t s (put m.id r t)) ((eq_iff m.id k).0 e) here
  | inr e ↦ elsewhere e
]
  where
    here : FollowsAt kind m t s (put m.id r t) m.id
    here =
        let at = get-put_self m.id r t in
        (
          subst (IsKept (kind m.id)) (sym at) kept,
          ap gauge_in at
              ∙ g
              ∙ ap (or_old (gauge_of m.id m)) (rep m.id).0
              ∙ sym (gauge-apply_metric m.id m s),
          ap counter_in at
              ∙ c
              ∙ ap (add_to (delta_of m.id m)) (rep m.id).1
              ∙ sym (counter-apply_metric m.id m s),
        )

    elsewhere : (m.id == k) ≡ false → FollowsAt kind m t s (put m.id r t) k
    elsewhere e =
        let at = get-put_other m.id k r t e in
        (
          subst (IsKept (kind k)) (sym at) (typed k),
          ap gauge_in at ∙ (rep k).0 ∙ sym (apply_metric-other m s k e).0,
          ap counter_in at ∙ (rep k).1 ∙ sym (apply_metric-other m s k e).1,
        )

-- A metric that asks for no statement changes nothing.
keeps-FollowsAt :
    (kind : String → String) (m : Metrics) (t : Table) (s : MemStorage)
    → statement_of m ≡ none
    → IsTyped kind t
    → Represents t s
    → (k : String) → FollowsAt kind m t s t k
unfolding statement_of
keeps-FollowsAt kind m t s q typed rep k = (
  typed k,
  (rep k).0 ∙ sym (gauge-apply_metric k m s ∙ ground (arith, eq_iff m.m_type gauge)),
  (rep k).1
      ∙ sym (
          counter-apply_metric k m s
          ∙ ground (arith, eq_iff m.m_type gauge, eq_iff m.m_type counter, eq_iff gauge counter)),
)

gauge-FollowsAt :
    (kind : String → String) (m : Metrics) (t t' : Table) (s : MemStorage) (v : Float64)
    → m.m_type ≡ gauge
    → m.value ≡ some v
    → m.m_type ≡ kind m.id
    → execute (upsert_gauge m.id v) t ≡ some t'
    → IsTyped kind t
    → Represents t s
    → (k : String) → FollowsAt kind m t s t' k
unfolding execute
gauge-FollowsAt kind m t t' s v g q fits h typed rep k =
    let row =
      gauge_row-gauge v (get m.id t)
        (subst (λ y. IsKept y (get m.id t)) (sym fits ∙ g) (typed m.id)) in
    subst (λ x. FollowsAt kind m t s x k) put_is
      (put-FollowsAt kind m t s (gauge_row v (get m.id t))
        (subst (λ y. IsKept y (some (gauge_row v (get m.id t)))) (sym g ∙ fits) row.2)
        (row.0 ∙ ground (arith, eq_iff m.m_type gauge, eq_refl m.id))
        (row.1
          ∙ ground (arith, eq_iff m.m_type gauge, eq_iff m.m_type counter, eq_iff gauge counter))
        typed rep k)
  where
    put_is : put m.id (gauge_row v (get m.id t)) t ≡ t'
    put_is = cc

counter-FollowsAt :
    (kind : String → String) (m : Metrics) (t t' : Table) (s : MemStorage) (d : Int64)
    → m.m_type ≡ counter
    → m.delta ≡ some d
    → d < 2 ^ 64
    → m.m_type ≡ kind m.id
    → execute (upsert_counter m.id d) t ≡ some t'
    → IsTyped kind t
    → Represents t s
    → (k : String) → FollowsAt kind m t s t' k
unfolding execute
counter-FollowsAt kind m t t' s d g q b fits h typed rep k =
    with_row (counter_row d (get m.id t)) refl
  where
    with_row : (o : Option Row) → counter_row d (get m.id t) ≡ o → FollowsAt kind m t s t' k
    with_row none e = absurd (ground arith)
    with_row (some r) e =
        let row =
          counter_row-counter d (get m.id t) r b e
            (subst (λ y. IsKept y (get m.id t)) (sym fits ∙ g) (typed m.id)) in
        subst (λ x. FollowsAt kind m t s x k) (put_is r e)
          (put-FollowsAt kind m t s r (subst (λ y. IsKept y (some r)) (sym g ∙ fits) row.2)
            (row.1
              ∙ ground
                  (arith, eq_iff m.m_type gauge, eq_iff m.m_type counter, eq_iff gauge counter))
            (row.0 ∙ ground (arith, eq_iff m.m_type counter, eq_refl m.id)) typed rep k)
      where
        put_is : (r : Row) → counter_row d (get m.id t) ≡ some r → put m.id r t ≡ t'
        put_is r e = ground arith
