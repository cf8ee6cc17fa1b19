-- ===== src/Agent/Main/Phases.antt =====
-- Where the batches of the agent are, and what holds in each phase of its main loop.
use mathlib.Core.Bool.{true≢false}
use metrics_alerting_service.Prelude.{
  ℕ, ◌+◌, ◌≡◌, refl, ap, sym, ◌∙◌, Bool, true, false, none, some, List, [], ◌∷◌, ◌++◌, length, ltb,
  if_elim, if◌then◌else◌, arith,
}
use metrics_alerting_service.Errors.{deadline_exceeded}
use metrics_alerting_service.Prelude.Removed.{Removed, first, later}
use metrics_alerting_service.Agent.Pool.{
  Batch, Pool, Submission, accepted, rejected, blocked, submit, take_from, work,
}
use metrics_alerting_service.Agent.Main.{
  Phase, looping, submitting, closing, waiting, cutting, stopped, World, next_phase,
}

-- the sum of the weights of batches; two lists with one sum for every weight are the same up to order
unfoldable pub total : (Batch → ℕ) → List Batch → ℕ
total f [] = 0
total f (b ∷ bs) = f b + total f bs

pub total-Removed :
    (f : Batch → ℕ) {b : Batch} {xs ys : List Batch}
    → Removed b xs ys
    → total f xs ≡ f b + total f ys
unfolding total
total-Removed f (first xs) = refl
total-Removed f (later y xs ys r) = omega (arith, total-Removed f r)

pub total-append :
    (f : Batch → ℕ) (xs ys : List Batch) → total f (xs ++ ys) ≡ total f xs + total f ys
unfolding total
total-append f [] ys = omega arith
total-append f (x ∷ xs) ys = omega (arith, total-append f xs ys)

unfoldable pub pending : (Batch → ℕ) → Phase → ℕ
pending f looping = 0
pending f (submitting final b) = f b
pending f closing = 0
pending f waiting = 0
pending f cutting = 0
pending f (stopped o) = 0

pub pending-next_phase : (f : Batch → ℕ) (final : Bool) → pending f (next_phase final) ≡ 0
unfolding pending next_phase
pending-next_phase f false = refl
pending-next_phase f true = refl

-- Each batch that was reported is sent, being sent, in the queue, or about to be submitted.
abbrev pub Balanced : (Batch → ℕ) → World → Type 0
Balanced f w =
    total f w.reported
    ≡ total f w.finished
      + total f w.cut
      + total f w.sending
      + total f w.pool.jobs
      + pending f w.phase

-- before `Shutdown`
abbrev pub IsOpen : Bool → Bool → List Batch → Type 0
IsOpen done canceled cut = (done ≡ false) × (canceled ≡ false) × (cut ≡ [])

-- What holds in a phase of the field `done`, `canceled`, `cut`, the queue and `sending`.
unfoldable pub AtPhase : Phase → Bool → Bool → List Batch → List Batch → List Batch → Type 0
AtPhase looping d c cut jobs sending = IsOpen d c cut
AtPhase (submitting final b) d c cut jobs sending = IsOpen d c cut
AtPhase closing d c cut jobs sending = IsOpen d c cut
AtPhase waiting d c cut jobs sending = (c ≡ false) × (cut ≡ [])
AtPhase cutting d c cut jobs sending = Unit
AtPhase (stopped none) d c cut jobs sending = (cut ≡ []) × (jobs ≡ []) × (sending ≡ [])
AtPhase (stopped (some e)) d c cut jobs sending =
    (e ≡ deadline_exceeded) × (jobs ≡ []) × (sending ≡ [])

abbrev pub IsAtPhase : World → Type 0
IsAtPhase w = AtPhase w.phase w.pool.done w.canceled w.cut w.pool.jobs w.sending

pub next_phase-open :
    (final d c : Bool) (cut jobs sending : List Batch)
    → IsOpen d c cut
    → AtPhase (next_phase final) d c cut jobs sending
unfolding AtPhase next_phase
next_phase-open false d c cut jobs sending h = h
next_phase-open true d c cut jobs sending h = h

-- what a submission leaves of a pool
unfoldable pub SubmittedTo : Batch → Pool → Submission × Pool → Type 0
SubmittedTo b p (accepted, q) =
    (q.jobs ≡ p.jobs ++ b ∷ []) × (q.done ≡ p.done) × (q.queue_size ≡ p.queue_size)
SubmittedTo b p (rejected, q) = (p.done ≡ true) × (q.queue_size ≡ p.queue_size)
SubmittedTo b p (blocked, q) = Unit

pub submit-SubmittedTo : (b : Batch) (p : Pool) → SubmittedTo b p (submit b p)
unfolding submit SubmittedTo
submit-SubmittedTo b p = by_done p.done refl
  where
    by_done :
        (d : Bool)
        → p.done ≡ d
        → SubmittedTo b p (
            if d
            then (rejected, p)
            else if ltb (length p.jobs) p.queue_size
            then (accepted, record p { jobs = p.jobs ++ b ∷ [] })
            else (blocked, p))
    by_done true e = (e, refl)
    by_done false e =
        if_elim (SubmittedTo b p) (ltb (length p.jobs) p.queue_size) (refl, refl, refl) tt

pub take_from-jobs :
    (b : Batch) (rest : List Batch) (p : Pool) → p.jobs ≡ b ∷ rest → (work p).jobs ≡ rest
unfolding work take_from
take_from-jobs b rest p h = ap (λ js. (take_from js p).jobs) h

pub take_from-done :
    (b : Batch) (rest : List Batch) (p : Pool) → p.jobs ≡ b ∷ rest → (work p).done ≡ p.done
unfolding work take_from
take_from-done b rest p h = ap (λ js. (take_from js p).done) h

busy : {b : Batch} {bs rest : List Batch} → bs ≡ [] → Removed b bs rest → ⊥
busy e (first xs) = cc
busy e (later y xs ys r) = cc

-- A phase in which a batch is in the queue or being sent is not the end.
pub takes-AtPhase :
    (ph : Phase) (d c : Bool) (cut jobs sending jobs' sending' : List Batch) {b : Batch}
    {rest : List Batch}
    → jobs ≡ b ∷ rest
    → AtPhase ph d c cut jobs sending
    → AtPhase ph d c cut jobs' sending'
unfolding AtPhase
takes-AtPhase looping d c cut jobs sending jobs' sending' e h = h
takes-AtPhase (submitting final b) d c cut jobs sending jobs' sending' e h = h
takes-AtPhase closing d c cut jobs sending jobs' sending' e h = h
takes-AtPhase waiting d c cut jobs sending jobs' sending' e h = h
takes-AtPhase cutting d c cut jobs sending jobs' sending' e h = h
takes-AtPhase (stopped none) d c cut jobs sending jobs' sending' e (h, j, s) = cc
takes-AtPhase (stopped (some x)) d c cut jobs sending jobs' sending' e (h, j, s) = cc

pub sends-AtPhase :
    (ph : Phase) (d c : Bool) (cut jobs sending rest : List Batch) {b : Batch}
    → Removed b sending rest
    → AtPhase ph d c cut jobs sending
    → AtPhase ph d c cut jobs rest
unfolding AtPhase
sends-AtPhase looping d c cut jobs sending rest r h = h
sends-AtPhase (submitting final b) d c cut jobs sending rest r h = h
sends-AtPhase closing d c cut jobs sending rest r h = h
sends-AtPhase waiting d c cut jobs sending rest r h = h
sends-AtPhase cutting d c cut jobs sending rest r h = h
sends-AtPhase (stopped none) d c cut jobs sending rest r (h, j, s) = absurd (busy s r)
sends-AtPhase (stopped (some x)) d c cut jobs sending rest r (h, j, s) = absurd (busy s r)

pub aborts-AtPhase :
    (ph : Phase) (d c : Bool) (cut jobs sending rest : List Batch) {b : Batch}
    → Removed b sending rest
    → c ≡ true
    → AtPhase ph d c cut jobs sending
    → AtPhase ph d c (b ∷ cut) jobs rest
unfolding AtPhase
aborts-AtPhase looping d c cut jobs sending rest r e (_, h, _) = absurd (true≢false (sym e ∙ h))
aborts-AtPhase (submitting final b) d c cut jobs sending rest r e (_, h, _) =
    absurd (true≢false (sym e ∙ h))
aborts-AtPhase closing d c cut jobs sending rest r e (_, h, _) = absurd (true≢false (sym e ∙ h))
aborts-AtPhase waiting d c cut jobs sending rest r e (h, _) = absurd (true≢false (sym e ∙ h))
aborts-AtPhase cutting d c cut jobs sending rest r e h = h
aborts-AtPhase (stopped none) d c cut jobs sending rest r e (h, j, s) = absurd (busy s r)
aborts-AtPhase (stopped (some x)) d c cut jobs sending rest r e (h, j, s) = absurd (busy s r)
