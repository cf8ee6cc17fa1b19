-- ===== src/Service/Update.antt =====
-- `UpdateJSON` and `GetJSON` over a lawful storage.
use metrics_alerting_service.Prelude.{
  ℕ, ◌+◌, ◌%◌, ◌^◌, ◌≡◌, refl, sym, ◌∙◌, ap, eq_refl, String, ◌≢◌, ◌↔◌, inl, inr, Option-cases,
  false, Option, none, some, ◌==◌, eq_iff, or_else, arith,
}
use metrics_alerting_service.Model.{Metrics, gauge, counter}
use metrics_alerting_service.Errors.{Error}
use metrics_alerting_service.Repository.{Storage}
use metrics_alerting_service.Repository.Laws.{IsLawful}
use metrics_alerting_service.Service.Accept.{
  IsAcceptable, Accepted, as_gauge, as_counter, accepted, Accepted-ok, named, gauge≢counter,
  refusal, refusal-IsAcceptable, update_json-refusal,
}
use metrics_alerting_service.Service.{update_json, get_json}

module _ {S : Type 0} (repo : Storage S) (law : IsLawful repo) where
  open law use {gauge_at, counter_at}

  -- `UpdateJSON` succeeds on the acceptable metrics and on no other.
  pub update_json-ok_iff :
      (m : Metrics) (s : S) → ((update_json repo m s).1 ≡ none) ↔ IsAcceptable m
  update_json-ok_iff m s = (
    λ h. elim (Option-cases (refusal m)) [
      | inl e ↦ refusal-IsAcceptable m e
      | inr (e, h') ↦ cc (update_json-refusal repo law m e s h')
    ],
    λ h. Accepted-ok repo law m s (accepted repo law m s h),
  )

  -- A metric that `UpdateJSON` refuses comes back as it was, and the storage is not touched.
  update_json-refused :
      (m : Metrics) (s : S)
      → ¬ IsAcceptable m
      → ((update_json repo m s).0 ≡ m) × ((update_json repo m s).2 ≡ s)
  update_json-refused m s h = elim (Option-cases (refusal m)) [
    | inl e ↦ absurd (h (refusal-IsAcceptable m e))
    | inr (e, h') ↦ rw (update_json-refusal repo law m e s h') (refl, refl)
  ]

  get_json-gauge :
      (m : Metrics) (v : ℕ) (s : S)
      → (m.id == "") ≡ false
      → m.m_type ≡ gauge
      → m.value ≡ some v
      → gauge_at s m.id ≡ some v
      → get_json repo m s ≡ (m, none, s)
  unfolding get_json
  get_json-gauge m v s i t e g = ground (arith, law.get_gauge_lem m.id s, eq_iff m.m_type gauge)

  get_json-counter :
      (m : Metrics) (d : ℕ) (s : S)
      → (m.id == "") ≡ false
      → m.m_type ≡ counter
      → counter_at s m.id ≡ some d
      → get_json repo m s ≡ (record m { delta = some d }, none, s)
  unfolding get_json
  get_json-counter m d s i t g = ground (
    arith,
    law.get_counter_lem m.id s,
    eq_iff m.m_type gauge,
    eq_iff m.m_type counter,
    eq_iff gauge counter,
  )

  get_json-Accepted :
      (m : Metrics) (s : S)
      → (m.id == "") ≡ false
      → Accepted repo law m s
      → get_json repo (update_json repo m s).0 (update_json repo m s).2 ≡ update_json repo m s
  get_json-Accepted m s i (as_gauge v t e r) = rw r (
      get_json-gauge m v (repo.update_gauge m.id v s).1 i t e
        (rw (law.gauge-update_gauge m.id m.id v s, eq_refl m.id)))
  get_json-Accepted m s i (as_counter d t e r) = rw r (
      get_json-counter (record m { delta = some ((or_else (counter_at s m.id) 0 + d) % 2 ^ 64) })
        ((or_else (counter_at s m.id) 0 + d) % 2 ^ 64) (repo.update_counter m.id d s).1 i t
        (rw (law.counter-update_counter m.id m.id d s, eq_refl m.id)))

  -- Over a lawful storage, whose updates do not fail and whose reads find what was written, as those of
  -- `MemStorage` do: what `UpdateJSON` returns on success is what `GetJSON` then reads, and the read
  -- changes nothing.
  pub get_json-update_json :
      (m : Metrics) (s : S)
      → (update_json repo m s).1 ≡ none
      → get_json repo (update_json repo m s).0 (update_json repo m s).2 ≡ update_json repo m s
  get_json-update_json m s h =
      let a : IsAcceptable m = (update_json-ok_iff m s).0 h in
      get_json-Accepted m s (named m a.0) (accepted repo law m s a)

  gauge_result :
      (m : Metrics) (s : S)
      → m.m_type ≡ gauge
      → Accepted repo law m s
      → (update_json repo m s).0 ≡ m
  gauge_result m s g (as_gauge v t e r) = ap (λ (x : Metrics × Option Error × S). x.0) r
  gauge_result m s g (as_counter d t e r) = absurd (gauge≢counter (sym g ∙ t))

  -- A gauge that `UpdateJSON` accepts comes back as it was sent.
  update_json-gauge_result :
      (m : Metrics) (s : S)
      → m.m_type ≡ gauge
      → (update_json repo m s).1 ≡ none
      → (update_json repo m s).0 ≡ m
  update_json-gauge_result m s g h =
      gauge_result m s g (accepted repo law m s ((update_json-ok_iff m s).0 h))

  counter_result :
      (m : Metrics) (s : S)
      → m.m_type ≡ counter
      → Accepted repo law m s
      → (update_json repo m s).0
        ≡ record m { delta = some ((or_else (counter_at s m.id) 0 + or_else m.delta 0) % 2 ^ 64) }
  counter_result m s c (as_gauge v t e r) = absurd (gauge≢counter (sym t ∙ c))
  counter_result m s c (as_counter d t e r) = rw (r, e)

  -- A counter that `UpdateJSON` accepts comes back with the 64-bit sum of the value that the storage
  -- had (0 if it had none) and the delta that was sent.
  update_json-counter_result :
      (m : Metrics) (s : S)
      → m.m_type ≡ counter
      → (update_json repo m s).1 ≡ none
      → (update_json repo m s).0
        ≡ record m { delta = some ((or_else (counter_at s m.id) 0 + or_else m.delta 0) % 2 ^ 64) }
  update_json-counter_result m s c h =
      counter_result m s c (accepted repo law m s ((update_json-ok_iff m s).0 h))

  Accepted-frame :
      (m : Metrics) (s : S) (j : String)
      → m.id ≢ j
      → Accepted repo law m s
      → (gauge_at (update_json repo m s).2 j ≡ gauge_at s j)
        × (counter_at (update_json repo m s).2 j ≡ counter_at s j)
  Accepted-frame m s j h (as_gauge v t e r) = rw r (
    ground (arith, law.gauge-update_gauge m.id j v s, eq_iff m.id j),
    law.counter-update_gauge m.id j v s,
  )
  Accepted-frame m s j h (as_counter d t e r) = rw r (
    law.gauge-update_counter m.id j d s,
    ground (arith, law.counter-update_counter m.id j d s, eq_iff m.id j),
  )

  -- `UpdateJSON` of one metric changes no metric of another name.
  update_json_frame :
      (m : Metrics) (s : S) (j : String)
      → m.id ≢ j
      → (gauge_at (update_json repo m s).2 j ≡ gauge_at s j)
        × (counter_at (update_json repo m s).2 j ≡ counter_at s j)
  update_json_frame m s j h = elim (Option-cases (refusal m)) [
    | inl e ↦ Accepted-frame m s j h (accepted repo law m s (refusal-IsAcceptable m e))
    | inr (e, h') ↦ rw (update_json-refusal repo law m e s h') (refl, refl)
  ]
