-- ===== src/Repository/Mem/Order.antt =====
-- The order of a batch does not matter to the counters.
use mathlib.Core.List.{Perm, Permᴰ}
use mathlib.Core.Logic.{∥∥₁_elim}
use native.Mathlib.Nat.{ℕ_set}
use metrics_alerting_service.Prelude.{String, ◌≡◌, refl, ◌∙◌, Option, List, arith}
use metrics_alerting_service.Dict.{get}
use metrics_alerting_service.Model.{Metrics, Int64}
use metrics_alerting_service.Repository.Mem.{MemStorage, update_batch}
use metrics_alerting_service.Repository.Mem.Batch.{mentions, total, counter-apply_metrics}

Option-set : IsSet (Option Int64)
Option-set = hlevel ℕ_set

module _ (k : String) where
  mentions-perm : {ms ns : List Metrics} → Permᴰ ms ns → mentions k ms ≡ mentions k ns
  unfolding mentions
  mentions-perm Permᴰ.nil = refl
  mentions-perm (Permᴰ.cons e p) = ground (arith, mentions-perm p)
  mentions-perm (Permᴰ.swap e f) = ground arith
  mentions-perm (Permᴰ.trans p q) = mentions-perm p ∙ mentions-perm q

  total-perm : {ms ns : List Metrics} → Permᴰ ms ns → total k ms ≡ total k ns
  unfolding total
  total-perm Permᴰ.nil = refl
  total-perm (Permᴰ.cons e p) = ground (arith, total-perm p)
  total-perm (Permᴰ.swap e f) = ground arith
  total-perm (Permᴰ.trans p q) = total-perm p ∙ total-perm q

  -- Two batches with the same metrics in any two orders leave every counter with the same value.
  pub counter-update_batch_perm :
      {ms ns : List Metrics} (s : MemStorage)
      → Perm ms ns
      → get k (update_batch ms s).1.counters ≡ get k (update_batch ns s).1.counters
  unfolding update_batch
  counter-update_batch_perm {ms} {ns} s p = ∥∥₁_elim p (Option-set _ _) (λ q.
      rw
        (counter-apply_metrics k ms s, counter-apply_metrics k ns s, mentions-perm q, total-perm q))
