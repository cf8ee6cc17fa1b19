-- ===== src/Service/Accept.antt =====
-- The metrics that `UpdateJSON` accepts, and its result on them and on the others.
use metrics_alerting_service.Prelude.{
  ℕ, ◌+◌, ◌%◌, ◌^◌, ◌≡◌, ap, ◌≢◌, inl, inr, Option-cases, false, ◌⊎◌, Option, none, some, ◌==◌,
  eq_iff, if◌then◌else◌, or_else, arith,
}
use metrics_alerting_service.Model.{Metrics, gauge, counter}
use metrics_alerting_service.Errors.{Error, invalid_type, missing_value, missing_delta, empty_id}
use metrics_alerting_service.Repository.{Storage}
use metrics_alerting_service.Repository.Laws.{IsLawful}
use metrics_alerting_service.Service.{update_json}

-- A metric that `UpdateJSON` accepts: it has a name, a known type and the value of that type.
abbrev pub IsAcceptable : Metrics → Type 0
IsAcceptable m =
    (m.id ≢ "") × ((m.m_type ≡ gauge) × (m.value ≢ none) ⊎ (m.m_type ≡ counter) × (m.delta ≢ none))

-- the error of a metric that is not acceptable
unfoldable pub refusal : Metrics → Option Error
refusal m =
    if m.id == ""
    then some empty_id
    else if m.m_type == gauge
    then elim m.value [ none ↦ some missing_value | some _ ↦ none ]
    else if m.m_type == counter
    then elim m.delta [ none ↦ some missing_delta | some _ ↦ none ]
    else some invalid_type

pub IsAcceptable-refusal : (m : Metrics) → IsAcceptable m → refusal m ≡ none
unfolding refusal
IsAcceptable-refusal m h =
    ground
      (arith, eq_iff m.id "", eq_iff m.m_type gauge, eq_iff m.m_type counter, eq_iff gauge counter)

pub refusal-IsAcceptable : (m : Metrics) → refusal m ≡ none → IsAcceptable m
unfolding refusal
refusal-IsAcceptable m h =
    ground (arith, eq_iff m.id "", eq_iff m.m_type gauge, eq_iff m.m_type counter)

pub named : (m : Metrics) → m.id ≢ "" → (m.id == "") ≡ false
named m h = ground (arith, eq_iff m.id "")

pub gauge≢counter : gauge ≢ counter
gauge≢counter = ground (arith, eq_iff gauge counter)

module _ {S : Type 0} (repo : Storage S) (law : IsLawful repo) where
  open law use {gauge_at, counter_at}

  -- what `UpdateJSON` does with a gauge that has a value
  pub update_json-gauge :
      (m : Metrics) (v : ℕ) (s : S)
      → (m.id == "") ≡ false
      → m.m_type ≡ gauge
      → m.value ≡ some v
      → update_json repo m s ≡ (m, none, (repo.update_gauge m.id v s).1)
  unfolding update_json
  update_json-gauge m v s i t e = ground (
    arith,
    law.update_gauge_ok m.id v s,
    law.get_gauge_lem m.id (repo.update_gauge m.id v s).1,
    law.gauge-update_gauge m.id m.id v s,
    eq_iff m.id m.id,
    eq_iff m.m_type gauge,
  )

  pub update_json-counter :
      (m : Metrics) (d : ℕ) (s : S)
      → (m.id == "") ≡ false
      → m.m_type ≡ counter
      → m.delta ≡ some d
      → update_json repo m s ≡ (
        record m { delta = some ((or_else (counter_at s m.id) 0 + d) % 2 ^ 64) },
        none,
        (repo.update_counter m.id d s).1,
      )
  unfolding update_json
  update_json-counter m d s i t e = ground (
    arith,
    law.update_counter_ok m.id d s,
    law.get_counter_lem m.id (repo.update_counter m.id d s).1,
    law.counter-update_counter m.id m.id d s,
    eq_iff m.id m.id,
    eq_iff m.m_type gauge,
    eq_iff gauge counter,
    eq_iff m.m_type counter,
  )

  pub update_json-refusal :
      (m : Metrics) (e : Error) (s : S) → refusal m ≡ some e → update_json repo m s ≡ (m, some e, s)
  unfolding update_json refusal
  update_json-refusal m e s h = ground arith

  -- the two ways to be accepted, with the result of each
  pub data Accepted (m : Metrics) (s : S) : Type 0 where
    as_gauge :
        (v : ℕ)
        → m.m_type ≡ gauge
        → m.value ≡ some v
        → update_json repo m s ≡ (m, none, (repo.update_gauge m.id v s).1)
        → Accepted m s
    as_counter :
        (d : ℕ)
        → m.m_type ≡ counter
        → m.delta ≡ some d
        → update_json repo m s ≡ (
          record m { delta = some ((or_else (counter_at s m.id) 0 + d) % 2 ^ 64) },
          none,
          (repo.update_counter m.id d s).1,
        )
        → Accepted m s

  pub accepted : (m : Metrics) (s : S) → IsAcceptable m → Accepted m s
  accepted m s (i, inl (t, nz)) = elim (Option-cases m.value) [
    | inl e ↦ absurd (nz e)
    | inr (v, e) ↦ as_gauge v t e (update_json-gauge m v s (named m i) t e)
  ]
  accepted m s (i, inr (t, nz)) = elim (Option-cases m.delta) [
    | inl e ↦ absurd (nz e)
    | inr (d, e) ↦ as_counter d t e (update_json-counter m d s (named m i) t e)
  ]

  pub Accepted-ok : (m : Metrics) (s : S) → Accepted m s → (update_json repo m s).1 ≡ none
  Accepted-ok m s (as_gauge v t e r) = ap (λ (x : Metrics × Option Error × S). x.1) r
  Accepted-ok m s (as_counter d t e r) = ap (λ (x : Metrics × Option Error × S). x.1) r
