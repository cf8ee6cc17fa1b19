-- ===== src/Agent/Main/Stopped.antt =====
-- What the agent has sent when it stops.
use mathlib.Core.Bool.{true≢false}
use metrics_alerting_service.Prelude.{
  ℕ, ◌+◌, ◌≡◌, refl, ap, sym, subst, String, ◌∙◌, Bool, Option, none, some, [], ◌∷◌, arith,
}
use metrics_alerting_service.Dict.{Dict}
use metrics_alerting_service.Model.{Float64}
use metrics_alerting_service.Errors.{Error, deadline_exceeded}
use metrics_alerting_service.Agent.Pool.{Batch, Pool, new_pool, accepted, submit, work, shutdown}
use metrics_alerting_service.Agent.Main.{
  Phase, submitting, stopped, World, next_phase, started, report, Step, collects, collects_extra,
  ticks, signals, submits, refused, closes, takes, sends, aborts, drained, expires, drained_late,
  Steps, no_step, one_more,
}
use metrics_alerting_service.Agent.Main.Phases.{
  total, total-Removed, total-append, pending, Balanced, pending-next_phase, IsOpen, AtPhase,
  IsAtPhase, next_phase-open, SubmittedTo, submit-SubmittedTo, take_from-jobs, take_from-done,
  takes-AtPhase, sends-AtPhase, aborts-AtPhase,
}

-- the invariant
pub record Inv (w : World) : Type 0 where
  pub phase_inv : IsAtPhase w
  pub balance : (f : Batch → ℕ) → Balanced f w

pub at :
    (w : World) {ph : Phase}
    → Inv w
    → w.phase ≡ ph
    → AtPhase ph w.pool.done w.canceled w.cut w.pool.jobs w.sending
at w inv e =
    subst (λ ph. AtPhase ph w.pool.done w.canceled w.cut w.pool.jobs w.sending) e inv.phase_inv

balance_at :
    (w : World) {ph : Phase} (f : Batch → ℕ)
    → Inv w
    → w.phase ≡ ph
    → total f w.reported
      ≡ total f w.finished + total f w.cut + total f w.sending + total f w.pool.jobs + pending f ph
balance_at w f inv e =
    inv.balance f
    ∙ ap
        (λ ph.
          total f w.finished
          + total f w.cut
          + total f w.sending
          + total f w.pool.jobs
          + pending f ph)
        e

submitting-IsOpen :
    {final : Bool} {b : Batch} (w : World)
    → Inv w
    → w.phase ≡ submitting final b
    → IsOpen w.pool.done w.canceled w.cut
unfolding AtPhase
submitting-IsOpen w inv e = at w inv e

-- What `Shutdown` returned tells how the batches ended.
abbrev pub Told : Option Error → World → (Batch → ℕ) → Type 0
Told none w f = (w.cut ≡ []) × (total f w.finished ≡ total f w.reported)
Told (some e) w f =
    (e ≡ deadline_exceeded) × (total f w.finished + total f w.cut ≡ total f w.reported)

module _ (float64 : ℕ → Float64) (format : ℕ → String) (range : Dict Float64 → Dict Float64)
    (rate_limit : ℕ) where
  submits-Inv :
      (w : World) (final : Bool) (b : Batch) (p : Pool)
      → w.phase ≡ submitting final b
      → submit b w.pool ≡ (accepted, p)
      → Inv w
      → Inv (record w { pool = p; phase = next_phase final })
  unfolding SubmittedTo pending total
  submits-Inv w final b p e s inv =
      let (j, d, q) = subst (SubmittedTo b w.pool) s (submit-SubmittedTo b w.pool) in
      let (o, c, k) = submitting-IsOpen w inv e in
      record {
        phase_inv = next_phase-open final p.done w.canceled w.cut p.jobs w.sending (d ∙ o, c, k);
        balance = λ f. omega (
          arith,
          balance_at w f inv e,
          ap (total f) j,
          total-append f w.pool.jobs (b ∷ []),
          pending-next_phase f final,
        );
      }

  Step-Inv : {w v : World} → Step float64 format range rate_limit w v → Inv w → Inv v
  unfolding AtPhase report shutdown total pending SubmittedTo
  Step-Inv {w} (collects m random) inv = record { phase_inv = inv.phase_inv; balance = inv.balance }
  Step-Inv {w} (collects_extra m p) inv = record {
    phase_inv = inv.phase_inv;
    balance = inv.balance;
  }
  Step-Inv {w} (ticks e) inv = record {
    phase_inv = at w inv e;
    balance = λ f. omega (arith, balance_at w f inv e);
  }
  Step-Inv {w} (signals e) inv = record {
    phase_inv = at w inv e;
    balance = λ f. omega (arith, balance_at w f inv e);
  }
  Step-Inv {w} (submits final b p e s) inv = submits-Inv w final b p e s inv
  Step-Inv {w} (refused final b p e s) inv = absurd (
      true≢false (
        sym (subst (SubmittedTo b w.pool) s (submit-SubmittedTo b w.pool)).0
        ∙ (submitting-IsOpen w inv e).0))
  Step-Inv {w} (closes e) inv = record {
    phase_inv = ((at w inv e).1, (at w inv e).2);
    balance = λ f. omega (arith, balance_at w f inv e);
  }
  Step-Inv {w} (takes b rest e l) inv = record {
    phase_inv =
        subst (λ d. AtPhase w.phase d w.canceled w.cut (work w.pool).jobs (b ∷ w.sending))
          (sym (take_from-done b rest w.pool e))
          (takes-AtPhase w.phase w.pool.done w.canceled w.cut w.pool.jobs w.sending
            (work w.pool).jobs (b ∷ w.sending) e inv.phase_inv);
    balance = λ f.
        omega (arith, inv.balance f, ap (total f) e, ap (total f) (take_from-jobs b rest w.pool e));
  }
  Step-Inv {w} (sends b rest r e) inv = record {
    phase_inv =
        sends-AtPhase w.phase w.pool.done w.canceled w.cut w.pool.jobs w.sending rest r
          inv.phase_inv;
    balance = λ f. omega (arith, inv.balance f, total-Removed f r);
  }
  Step-Inv {w} (aborts b rest r e) inv = record {
    phase_inv =
        aborts-AtPhase w.phase w.pool.done w.canceled w.cut w.pool.jobs w.sending rest r e
          inv.phase_inv;
    balance = λ f. omega (arith, inv.balance f, total-Removed f r);
  }
  Step-Inv {w} (drained e j s) inv = record {
    phase_inv = ((at w inv e).1, j, s);
    balance = λ f. omega (arith, balance_at w f inv e);
  }
  Step-Inv {w} (expires e) inv = record {
    phase_inv = tt;
    balance = λ f. omega (arith, balance_at w f inv e);
  }
  Step-Inv {w} (drained_late e j s) inv = record {
    phase_inv = (refl, j, s);
    balance = λ f. omega (arith, balance_at w f inv e);
  }

  started-Inv : Inv (started float64 format range rate_limit)
  unfolding started AtPhase total pending new_pool
  started-Inv = record { phase_inv = (refl, refl, refl); balance = λ f. refl }

  pub Steps-Inv :
      {w : World}
      → Steps float64 format range rate_limit (started float64 format range rate_limit) w
      → Inv w
  Steps-Inv no_step = started-Inv
  Steps-Inv (one_more s t) = Step-Inv t (Steps-Inv s)

  -- When the agent has stopped, each batch that it reported, the one at the signal included, was given to
  -- `Send` once and its `Send` has returned: if `Shutdown` returned nil, then each of them before the sends
  -- were canceled; otherwise it returned the error of the deadline. `f` is any weight of a batch.
  pub stopped-Told :
      (w : World) (o : Option Error) (f : Batch → ℕ)
      → Steps float64 format range rate_limit (started float64 format range rate_limit) w
      → w.phase ≡ stopped o
      → Told o w f
  unfolding AtPhase total pending
  stopped-Told w none f r e =
      let inv = Steps-Inv r in
      let (c, j, s) = at w inv e in
      (c, omega (arith, balance_at w f inv e, ap (total f) c, ap (total f) j, ap (total f) s))
  stopped-Told w (some x) f r e =
      let inv = Steps-Inv r in
      let (x_is, j, s) = at w inv e in
      (x_is, omega (arith, balance_at w f inv e, ap (total f) j, ap (total f) s))
