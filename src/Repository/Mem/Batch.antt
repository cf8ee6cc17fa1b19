-- ===== src/Repository/Mem/Batch.antt =====
-- What a batch does to each metric, against a description that does not go through the storage.
use metrics_alerting_service.Prelude.{
  ℕ, ◌+◌, ◌%◌, ◌^◌, String, ◌≡◌, refl, Bool, true, false, ◌&&◌, ◌||◌, Option, none, some, List, [],
  ◌∷◌, ◌==◌, eq_iff, if◌then◌else◌, or_else, arith,
}
use metrics_alerting_service.Dict.{get, get-put}
use metrics_alerting_service.Model.{Float64, Metrics, gauge, counter, add_int64}
use metrics_alerting_service.Repository.Mem.{
  MemStorage, set_gauge, add_counter, apply_metric, apply_metrics, gauge_if_set, counter_if_set,
}

-- The value that one metric of a batch writes to the gauge `k`.
abbrev pub gauge_of : String → Metrics → Option Float64
gauge_of k m = if m.m_type == gauge && m.id == k then m.value else none

-- The amount that it adds to the counter `k`.
abbrev pub delta_of : String → Metrics → Option ℕ
delta_of k m = if m.m_type == counter && m.id == k then m.delta else none

-- The last value that a batch holds for the gauge `k`.
unfoldable pub last_gauge : String → List Metrics → Option Float64
last_gauge k [] = none
last_gauge k (m ∷ ms) = elim (last_gauge k ms) [ some v ↦ some v | none ↦ gauge_of k m ]

abbrev pub is_set : Option ℕ → Bool
is_set none = false
is_set (some _) = true

-- Whether a batch holds an amount for the counter `k`.
unfoldable pub mentions : String → List Metrics → Bool
mentions k [] = false
mentions k (m ∷ ms) = is_set (delta_of k m) || mentions k ms

-- The sum of those amounts, with no bound.
unfoldable pub total : String → List Metrics → ℕ
total k [] = 0
total k (m ∷ ms) = or_else (delta_of k m) 0 + total k ms

abbrev pub or_old : Option ℕ → Option ℕ → Option ℕ
or_old none old = old
or_old (some v) old = some v

-- `counters[k] += d`, as a 64-bit sum
abbrev pub add_to : Option ℕ → Option ℕ → Option ℕ
add_to none old = old
add_to (some d) old = some ((or_else old 0 + d) % 2 ^ 64)

module _ (k name : String) where
  gauge-gauge_if_set :
      (v : Option Float64) (s : MemStorage)
      → get k (gauge_if_set name v s).gauges
        ≡ (if name == k then or_old v (get k s.gauges) else get k s.gauges)
  unfolding set_gauge
  gauge-gauge_if_set none s = ground arith
  gauge-gauge_if_set (some v) s = get-put name k v s.gauges

  counter-counter_if_set :
      (v : Option ℕ) (s : MemStorage)
      → get k (counter_if_set name v s).counters
        ≡ (if name == k then add_to v (get k s.counters) else get k s.counters)
  unfolding add_counter add_int64
  counter-counter_if_set none s = ground arith
  counter-counter_if_set (some v) s = ground (
    arith,
    get-put name k (add_int64 (or_else (get name s.counters) 0) v) s.counters,
    eq_iff name k,
  )

  counters-gauge_if_set :
      (v : Option Float64) (s : MemStorage) → (gauge_if_set name v s).counters ≡ s.counters
  unfolding set_gauge
  counters-gauge_if_set none s = refl
  counters-gauge_if_set (some v) s = refl

  gauges-counter_if_set :
      (v : Option ℕ) (s : MemStorage) → (counter_if_set name v s).gauges ≡ s.gauges
  unfolding add_counter
  gauges-counter_if_set none s = refl
  gauges-counter_if_set (some v) s = refl

module _ (k : String) where
  pub gauge-apply_metric :
      (m : Metrics) (s : MemStorage)
      → get k (apply_metric m s).gauges ≡ or_old (gauge_of k m) (get k s.gauges)
  unfolding apply_metric
  gauge-apply_metric m s =
      ground (arith, gauge-gauge_if_set k m.id m.value s, gauges-counter_if_set k m.id m.delta s)

  pub counter-apply_metric :
      (m : Metrics) (s : MemStorage)
      → get k (apply_metric m s).counters ≡ add_to (delta_of k m) (get k s.counters)
  unfolding apply_metric
  counter-apply_metric m s = ground (
    arith,
    counter-counter_if_set k m.id m.delta s,
    counters-gauge_if_set k m.id m.value s,
    eq_iff m.m_type gauge,
    eq_iff m.m_type counter,
    eq_iff gauge counter,
  )

  -- After a batch a gauge holds the last value that the batch has for it, or its old value.
  pub gauge-apply_metrics :
      (ms : List Metrics) (s : MemStorage)
      → get k (apply_metrics ms s).gauges ≡ or_old (last_gauge k ms) (get k s.gauges)
  unfolding apply_metrics last_gauge
  gauge-apply_metrics [] s = refl
  gauge-apply_metrics (m ∷ ms) s =
      ground (arith, gauge-apply_metrics ms (apply_metric m s), gauge-apply_metric m s)

  total-eq-zero : (ms : List Metrics) → mentions k ms ≡ false → total k ms ≡ 0
  unfolding mentions total
  total-eq-zero [] h = refl
  total-eq-zero (m ∷ ms) h = ground (arith, total-eq-zero ms)

  -- After a batch a counter that the batch has amounts for holds the 64-bit sum of its old value (0
  -- if it was missing) and all the amounts; any other counter is as it was.
  pub counter-apply_metrics :
      (ms : List Metrics) (s : MemStorage)
      → get k (apply_metrics ms s).counters ≡ (
          if mentions k ms
          then some ((or_else (get k s.counters) 0 + total k ms) % 2 ^ 64)
          else get k s.counters)
  unfolding apply_metrics mentions total
  counter-apply_metrics [] s = refl
  counter-apply_metrics (m ∷ ms) s = ground (
    arith,
    counter-apply_metrics ms (apply_metric m s),
    counter-apply_metric m s,
    total-eq-zero ms,
  )
