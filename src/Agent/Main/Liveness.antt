-- ===== src/Agent/Main/Liveness.antt =====
-- The agent can stop wherever it is: no `Submit` waits forever, and the wait of `Shutdown` ends.
use metrics_alerting_service.Prelude.{
  ℕ, String, ◌<◌, ◌≡◌, refl, ap, sym, subst, ◌∙◌, Bool, true, false, Option, none, some, List, [],
  ◌∷◌, ◌++◌, length, arith, Bool-cases, inl, inr,
}
use metrics_alerting_service.Dict.{Dict}
use metrics_alerting_service.Model.{Float64}
use metrics_alerting_service.Errors.{Error, deadline_exceeded}
use metrics_alerting_service.Prelude.Removed.{Removed, first}
use metrics_alerting_service.Agent.Pool.{
  Batch, Pool, new_pool, accepted, submit, take_from, work, shutdown,
}
use metrics_alerting_service.Agent.Main.{
  Phase, looping, submitting, closing, waiting, cutting, stopped, World, next_phase, started,
  report, Step, collects, collects_extra, ticks, signals, submits, refused, closes, takes, sends,
  aborts, drained, expires, drained_late, Steps, no_step, one_more,
}
use metrics_alerting_service.Agent.Main.Phases.{
  AtPhase, SubmittedTo, submit-SubmittedTo, take_from-jobs,
}
use metrics_alerting_service.Agent.Main.Stopped.{at, Steps-Inv}

take_from-size : (js : List Batch) (p : Pool) → (take_from js p).queue_size ≡ p.queue_size
unfolding take_from
take_from-size [] p = refl
take_from-size (b ∷ js) p = refl

-- an open pool with an empty queue accepts a batch
submit-empty :
    (b : Batch) (p : Pool)
    → p.jobs ≡ []
    → p.done ≡ false
    → 0 < p.queue_size
    → submit b p ≡ (accepted, record p { jobs = p.jobs ++ b ∷ [] })
unfolding submit
submit-empty b p j d q = ground (arith, ap length j, d, q)

pub data IsStopped : Phase → Type 0 where
  with_result : (o : Option Error) → IsStopped (stopped o)

module _ (float64 : ℕ → Float64) (format : ℕ → String) (range : Dict Float64 → Dict Float64)
    (rate_limit : ℕ) where
  abbrev Goes : World → World → Type 0
  Goes = Steps float64 format range rate_limit

  abbrev Reach : World → Type 0
  Reach = Steps float64 format range rate_limit (started float64 format range rate_limit)

  append : {w v u : World} → Goes w v → Goes v u → Goes w u
  append s no_step = s
  append s (one_more t x) = one_more (append s t) x

  Step-size :
      {w v : World}
      → Step float64 format range rate_limit w v
      → v.pool.queue_size ≡ w.pool.queue_size
  unfolding report work shutdown SubmittedTo
  Step-size {w} (collects m r) = refl
  Step-size {w} (collects_extra m p) = refl
  Step-size {w} (ticks e) = refl
  Step-size {w} (signals e) = refl
  Step-size {w} (submits final b p e s) =
      (subst (SubmittedTo b w.pool) s (submit-SubmittedTo b w.pool)).2
  Step-size {w} (refused final b p e s) =
      (subst (SubmittedTo b w.pool) s (submit-SubmittedTo b w.pool)).1
  Step-size {w} (closes e) = refl
  Step-size {w} (takes b rest e l) = take_from-size w.pool.jobs w.pool
  Step-size {w} (sends b rest r e) = refl
  Step-size {w} (aborts b rest r e) = refl
  Step-size {w} (drained e j s) = refl
  Step-size {w} (expires e) = refl
  Step-size {w} (drained_late e j s) = refl

  Steps-size : {w : World} → Reach w → w.pool.queue_size ≡ rate_limit
  unfolding started new_pool
  Steps-size no_step = refl
  Steps-size (one_more s t) = Step-size t ∙ Steps-size s

  -- The queue is empty, no `Send` is under way, and the main loop is where it was.
  record Quiet (w v : World) : Type 0 where
    pub steps : Goes w v
    pub same_phase : v.phase ≡ w.phase
    pub no_jobs : v.pool.jobs ≡ []
    pub no_sending : v.sending ≡ []

  -- the first `Send` returns
  send_one :
      (w : World) (b : Batch) (rest : List Batch)
      → w.sending ≡ b ∷ rest
      → (v : World) × (Step float64 format range rate_limit w v)
        × (v.phase ≡ w.phase)
        × (v.pool ≡ w.pool)
        × (v.sending ≡ rest)
  send_one w b rest e = elim (Bool-cases w.canceled) [
    | inl c ↦ (
      _,
      aborts b rest (subst (λ bs. Removed b bs rest) (sym e) (first rest)) c,
      refl,
      refl,
      refl,
    )
    | inr c ↦
        (_, sends b rest (subst (λ bs. Removed b bs rest) (sym e) (first rest)) c, refl, refl, refl)
  ]

  send_all :
      (bs : List Batch) (w : World)
      → w.sending ≡ bs
      → (v : World) × (Goes w v) × (v.phase ≡ w.phase) × (v.pool ≡ w.pool) × (v.sending ≡ [])
  send_all [] w e = (w, no_step, refl, refl, e)
  send_all (b ∷ bs) w e =
      let (v, t, p, q, s) = send_one w b bs e in
      let (u, ts, p', q', s') = send_all bs v s in
      (u, append (one_more no_step t) ts, p' ∙ p, q' ∙ q, s')

  -- Every batch in the queue is taken and its `Send` returns.
  drain :
      (js : List Batch) (w : World) → 0 < rate_limit → w.pool.jobs ≡ js → (v : World) × Quiet w v
  drain [] w l e =
      let (v, t, p, q, s) = send_all w.sending w refl in
      (
        v,
        record {
          steps = t;
          same_phase = p;
          no_jobs = ap (λ (x : Pool). x.jobs) q ∙ e;
          no_sending = s;
        },
      )
  drain (b ∷ js) w l e =
      let (v, t, p, q, s) = send_all w.sending w refl in
      let j : v.pool.jobs ≡ b ∷ js = ap (λ (x : Pool). x.jobs) q ∙ e in
      let free : length v.sending < rate_limit =
        subst (λ (n : ℕ). n < rate_limit) (sym (ap length s)) l in
      let (u, h) =
        drain js (record v { pool = work v.pool; sending = b ∷ v.sending }) l
          (take_from-jobs b js v.pool j) in
      (
        u,
        record {
          steps = append (one_more t (takes b js j free)) h.steps;
          same_phase = h.same_phase ∙ p;
          no_jobs = h.no_jobs;
          no_sending = h.no_sending;
        },
      )

  -- some steps lead to the end
  abbrev Stops : World → Type 0
  Stops w = (v : World) × (Goes w v) × (IsStopped v.phase)

  after : {w v : World} → Goes w v → Stops v → Stops w
  after s (u, t, h) = (u, append s t, h)

  module _ (positive : 0 < rate_limit) where
    waiting-Stops : (w : World) → w.phase ≡ waiting → Stops w
    waiting-Stops w e =
        let (v, q) = drain w.pool.jobs w positive refl in
        (_, one_more q.steps (drained (q.same_phase ∙ e) q.no_jobs q.no_sending), with_result none)

    cutting-Stops : (w : World) → w.phase ≡ cutting → Stops w
    cutting-Stops w e =
        let (v, q) = drain w.pool.jobs w positive refl in
        (
          _,
          one_more q.steps (drained_late (q.same_phase ∙ e) q.no_jobs q.no_sending),
          with_result (some deadline_exceeded),
        )

    closing-Stops : (w : World) → w.phase ≡ closing → Stops w
    closing-Stops w e = after (one_more no_step (closes e)) (waiting-Stops _ refl)

    -- a batch that waits for a place gets one
    submitting-Goes :
        (w : World) (final : Bool) (b : Batch)
        → Reach w
        → w.phase ≡ submitting final b
        → (v : World) × (Goes w v) × (v.phase ≡ next_phase final)
    unfolding AtPhase
    submitting-Goes w final b r e =
        let (v, q) = drain w.pool.jobs w positive refl in
        let here = append r q.steps in
        let ph = q.same_phase ∙ e in
        let (d, _, _) = at v (Steps-Inv float64 format range rate_limit here) ph in
        let place : 0 < v.pool.queue_size =
          subst (λ (n : ℕ). 0 < n) (sym (Steps-size here)) positive in
        (_, one_more q.steps (submits final b _ ph (submit-empty b v.pool q.no_jobs d place)), refl)

    looping-Stops : (w : World) → Reach w → w.phase ≡ looping → Stops w
    unfolding report next_phase
    looping-Stops w r e =
        let (v, s, h) =
          submitting-Goes (report float64 format range rate_limit true w) true _
            (one_more r (signals e)) refl in
        after (append (one_more no_step (signals e)) s) (closing-Stops v h)

    next-Stops : (final : Bool) (w : World) → Reach w → w.phase ≡ next_phase final → Stops w
    unfolding next_phase
    next-Stops false w r e = looping-Stops w r e
    next-Stops true w r e = closing-Stops w e

    by_phase : (w : World) → Reach w → (ph : Phase) → w.phase ≡ ph → Stops w
    by_phase w r looping e = looping-Stops w r e
    by_phase w r (submitting final b) e =
        let (v, s, h) = submitting-Goes w final b r e in after s (next-Stops final v (append r s) h)
    by_phase w r closing e = closing-Stops w e
    by_phase w r waiting e = waiting-Stops w e
    by_phase w r cutting e = cutting-Stops w e
    by_phase w r (stopped o) e = (w, no_step, subst IsStopped (sym e) (with_result o))

    -- With at least one worker, some steps lead to the end from everywhere that the agent can be: after a
    -- signal it is never stuck in `Submit`, nor in the wait of `Shutdown`.
    pub main-stops :
        (w : World)
        → Steps float64 format range rate_limit (started float64 format range rate_limit) w
        → (v : World) × (Steps float64 format range rate_limit w v) × IsStopped v.phase
    main-stops w r = by_phase w r w.phase refl
