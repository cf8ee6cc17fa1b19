-- ===== src/Agent/Pool/Delivery.antt =====
-- Every batch that `Submit` accepts is taken once, in order, also when the pool shuts down.
use metrics_alerting_service.Prelude.{
  ℕ, zero, suc, ◌≡◌, refl, ap, ◌∙◌, sym, List, [], ◌∷◌, ◌++◌, length, ltb, if_elim,
}
use metrics_alerting_service.Agent.Pool.{
  Batch, Pool, new_pool, Submission, accepted, rejected, blocked, submit, take_from, work, shutdown,
  Action, submits, works, shuts_down, step, run,
}

-- The batches that are accepted in a run.
if_accepted : Submission → Batch → List Batch
if_accepted accepted b = b ∷ []
if_accepted rejected b = []
if_accepted blocked b = []

accepted_by : Action → Pool → List Batch
unfolding if_accepted
accepted_by (submits b) p = if_accepted (submit b p).0 b
accepted_by works p = []
accepted_by shuts_down p = []

unfoldable pub all_accepted : List Action → Pool → List Batch
unfolding accepted_by
all_accepted [] p = []
all_accepted (a ∷ rest) p = accepted_by a p ++ all_accepted rest (step a p)

append_assoc {ℓ} : {A : Type ℓ} (xs ys zs : List A) → (xs ++ ys) ++ zs ≡ xs ++ (ys ++ zs)
append_assoc [] ys zs = refl
append_assoc (x ∷ xs) ys zs = ap (λ l. x ∷ l) (append_assoc xs ys zs)

append_nil {ℓ} : {A : Type ℓ} (xs : List A) → xs ++ [] ≡ xs
append_nil [] = refl
append_nil (x ∷ xs) = ap (λ l. x ∷ l) (append_nil xs)

-- the batches of a pool, in order
abbrev pub contents : Pool → List Batch
contents p = p.taken ++ p.jobs

abbrev Fits : Batch → Pool → Submission × Pool → Type 0
Fits b p r = contents r.1 ≡ contents p ++ if_accepted r.0 b

submit-Fits : (b : Batch) (p : Pool) → Fits b p (submit b p)
unfolding submit if_accepted
submit-Fits b p = if_elim (Fits b p) p.done (sym (append_nil (contents p))) (
    if_elim (Fits b p) (ltb (length p.jobs) p.queue_size)
      (sym (append_assoc p.taken p.jobs (b ∷ []))) (sym (append_nil (contents p))))

take_from-contents :
    (js : List Batch) (p : Pool) → p.jobs ≡ js → contents (take_from js p) ≡ contents p
unfolding take_from
take_from-contents [] p h = refl
take_from-contents (b ∷ rest) p h =
    append_assoc p.taken (b ∷ []) rest ∙ ap (λ l. p.taken ++ l) (sym h)

step-contents : (a : Action) (p : Pool) → contents (step a p) ≡ contents p ++ accepted_by a p
unfolding step accepted_by work shutdown
step-contents (submits b) p = submit-Fits b p
step-contents works p = take_from-contents p.jobs p refl ∙ sym (append_nil (contents p))
step-contents shuts_down p = sym (append_nil (contents p))

-- In any run, what has been taken and what waits in the queue are, in order, what there was at the
-- start and what was accepted since.
pub contents-run :
    (acts : List Action) (p : Pool) → contents (run acts p) ≡ contents p ++ all_accepted acts p
unfolding run all_accepted
contents-run [] p = sym (append_nil (contents p))
contents-run (a ∷ rest) p =
    contents-run rest (step a p)
    ∙ ap (λ l. l ++ all_accepted rest (step a p)) (step-contents a p)
    ∙ append_assoc (contents p) (accepted_by a p) (all_accepted rest (step a p))

-- `n` rounds of workers
unfoldable pub drain : ℕ → List Action
drain zero = []
drain (suc n) = works ∷ drain n

work-jobs : (b : Batch) (rest : List Batch) (p : Pool) → p.jobs ≡ b ∷ rest → (work p).jobs ≡ rest
unfolding work take_from
work-jobs b rest p h = ap (λ js. (take_from js p).jobs) h

work-taken :
    (b : Batch) (rest : List Batch) (p : Pool)
    → p.jobs ≡ b ∷ rest
    → (work p).taken ≡ p.taken ++ b ∷ []
unfolding work take_from
work-taken b rest p h = ap (λ js. (take_from js p).taken) h

drain-taken :
    (js : List Batch) (p : Pool) → p.jobs ≡ js → (run (drain (length js)) p).taken ≡ p.taken ++ js
unfolding run drain step
drain-taken [] p h = sym (append_nil p.taken)
drain-taken (b ∷ rest) p h =
    drain-taken rest (work p) (work-jobs b rest p h)
    ∙ ap (λ l. l ++ rest) (work-taken b rest p h)
    ∙ append_assoc p.taken (b ∷ []) rest

-- After any run of a new pool and a `Shutdown`, as many rounds of workers as there are batches in the
-- queue have taken exactly the batches that were accepted, in order.
shutdown-delivers :
    (queue_size : ℕ) (acts : List Action)
    → (run
        (drain (length (run acts (new_pool queue_size)).jobs))
        (shutdown (run acts (new_pool queue_size)))).taken
      ≡ all_accepted acts (new_pool queue_size)
unfolding shutdown new_pool
shutdown-delivers queue_size acts =
    drain-taken (run acts (new_pool queue_size)).jobs (shutdown (run acts (new_pool queue_size)))
      refl
    ∙ start
  where
    start : contents (run acts (new_pool queue_size)) ≡ all_accepted acts (new_pool queue_size)
    start = contents-run acts (new_pool queue_size)
