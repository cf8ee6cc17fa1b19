-- ===== src/Middleware/Signature/Hashers/Tests.antt =====
-- Hashers that keep their key and what was written: one is used, stored, and taken for the next body.
use mathlib.Core.List.Memᴰ
use metrics_alerting_service.Prelude.{◌≡◌, refl, ap, false, [], ◌∷◌, ◌++◌}
use metrics_alerting_service.Errors.{Bytes}
use metrics_alerting_service.Dict.{get}
use metrics_alerting_service.Prelude.Removed.{first}
use metrics_alerting_service.Middleware.Signature.{Buffer, Hmac, compute}
use metrics_alerting_service.Middleware.Signature.Hashers.{
  HmacState, Running, Hashers, compute_with, put_hasher, load_or_store, takes, makes, ends, Reach,
  start, next_step,
}
use metrics_alerting_service.Middleware.Signature.Hashers.Pooled.{HmacLaws, compute_with-eq-compute}

abbrev buffer : Buffer Bytes
buffer = record { empty = []; append = λ a b. a ++ b; is_empty = λ b. false }

abbrev hmac : Hmac Bytes
hmac = record { hmac_sha256 = λ key body. body; hex = λ b. "a1" }

-- a hasher is what was written to it
abbrev lib : HmacState Bytes Bytes
lib = record { new_hmac = λ key. []; write = λ b h. h ++ b; sum = λ h. h; reset = λ h. [] }

abbrev laws : HmacLaws lib hmac
laws = record {
  IsFresh = λ key h. h ≡ [];
  new_lem = λ key. refl;
  sum_lem = λ key h b fresh. ap (λ (x : Bytes). x ++ b) fresh;
  reset_lem = λ key h b fresh. refl;
}

abbrev run1 : Running Bytes Bytes
run1 = record { key = "k"; body = 1 ∷ []; hasher = [] }

abbrev run2 : Running Bytes Bytes
run2 = record { key = "k"; body = 2 ∷ []; hasher = [] }

abbrev empty_pools : Hashers Bytes Bytes
empty_pools = record { pools = []; running = [] }

abbrev one_runs : Hashers Bytes Bytes
one_runs = record { pools = (load_or_store lib "k" empty_pools.pools).1; running = run1 ∷ [] }

abbrev stored : Hashers Bytes Bytes
stored = record { pools = ("k", [] ∷ []) ∷ []; running = [] }

abbrev other_runs : Hashers Bytes Bytes
other_runs = record { pools = ("k", []) ∷ []; running = run2 ∷ [] }

reached_stored : Reach lib hmac stored
unfolding load_or_store put_hasher compute_with get metrics_alerting_service.Dict.put
reached_stored = next_step (next_step start (makes "k" (1 ∷ []))) (ends run1 [] (first []))

reached : Reach lib hmac other_runs
unfolding load_or_store put_hasher compute_with get metrics_alerting_service.Dict.put
reached = next_step reached_stored (takes "k" (2 ∷ []) [] [] (first []))

compute_with-eq-compute_example :
    (compute_with lib hmac (2 ∷ []) []).1 ≡ compute buffer hmac (2 ∷ []) "k"
compute_with-eq-compute_example =
    compute_with-eq-compute lib hmac laws buffer other_runs reached run2 (Memᴰ.head refl)
