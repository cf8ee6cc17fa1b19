-- ===== src/Middleware/Signature/Hashers/Pooled.antt =====
-- The pools of hashers cannot be seen from outside.
use mathlib.Core.List.{Memᴰ}
use metrics_alerting_service.Prelude.{
  String, ◌≡◌, refl, sym, ap, subst, Bool, true, false, Option, none, some, List, [], ◌∷◌, ◌==◌,
  eq_iff, if◌then◌else◌,
}
use metrics_alerting_service.Dict.{Dict, get, put, get-put}
use metrics_alerting_service.Prelude.Removed.{Memᴰ-Removed, Memᴰ-Removed_self, every-cons}
use metrics_alerting_service.Middleware.Signature.{Buffer, Hmac, compute}
use metrics_alerting_service.Middleware.Signature.Hashers.{
  HmacState, Running, Hashers, pool_of, load_or_store, put_back, put_hasher, compute_with, Step,
  takes, makes, ends, forgets, Reach, start, next_step,
}

-- What is relied on in crypto/hmac: a new hasher for a key, and one that was written to once and then
-- reset, gives the HMAC of what is written to it.
pub record HmacLaws {H B : Type 0} (lib : HmacState H B) (hmac : Hmac B) : Type 1 where
  pub IsFresh : String → H → Type 0
  pub new_lem : (key : String) → IsFresh key (lib.new_hmac key)
  pub sum_lem :
      (key : String) (h : H) (b : B)
      → IsFresh key h
      → lib.sum (lib.write b h) ≡ hmac.hmac_sha256 key b
  pub reset_lem :
      (key : String) (h : H) (b : B) → IsFresh key h → IsFresh key (lib.reset (lib.write b h))

module _ {H B : Type 0} (lib : HmacState H B) (hmac : Hmac B) (laws : HmacLaws lib hmac) where
  AreFresh : String → Option (List H) → Type 0
  AreFresh key none = Unit
  AreFresh key (some hs) = (h : H) → Memᴰ h hs → laws.IsFresh key h

  abbrev AllFresh : Dict (List H) → Type 0
  AllFresh pools = (key : String) → AreFresh key (get key pools)

  put-AllFresh :
      (key : String) (hs : List H) (pools : Dict (List H))
      → AllFresh pools
      → AreFresh key (some hs)
      → AllFresh (put key hs pools)
  unfolding AreFresh
  put-AllFresh key hs pools all fresh j =
      subst (AreFresh j) (sym (get-put key j hs pools)) (split (key == j) (λ e. (eq_iff key j).0 e))
    where
      split : (b : Bool) → (b ≡ true → key ≡ j) → AreFresh j (if b then some hs else get j pools)
      split true e = subst (λ k. AreFresh k (some hs)) (e refl) fresh
      split false e = all j

  pool_of-AreFresh :
      (key : String) (o : Option (List H)) → AreFresh key o → AreFresh key (some (pool_of lib o))
  unfolding AreFresh pool_of
  pool_of-AreFresh key none f = λ h m. elim m [ ]
  pool_of-AreFresh key (some hs) f = f

  record Inv (w : Hashers H B) : Type 0 where
    pub stored : AllFresh w.pools
    pub held : (r : Running H B) → Memᴰ r w.running → laws.IsFresh r.key r.hasher

  put_hasher-AllFresh :
      (key : String) (h : H) (pools : Dict (List H))
      → AllFresh pools
      → laws.IsFresh key (lib.reset h)
      → AllFresh (put_hasher lib key h pools)
  unfolding put_hasher AreFresh
  put_hasher-AllFresh key h pools all f = back (get key pools) (all key)
    where
      back : (o : Option (List H)) → AreFresh key o → AllFresh (put_back lib key h o pools)
      back none u = all
      back (some hs) old =
          put-AllFresh key (lib.reset h ∷ hs) pools all
            (every-cons (laws.IsFresh key) (lib.reset h) hs f old)

  Step-Inv : {w v : Hashers H B} → Step lib hmac w v → Inv w → Inv v
  unfolding load_or_store compute_with AreFresh
  Step-Inv {w} (takes key body h rest r) inv =
      let found = pool_of-AreFresh key (get key w.pools) (inv.stored key) in
      record {
        stored =
            put-AllFresh key rest _
              (put-AllFresh key (pool_of lib (get key w.pools)) w.pools inv.stored found)
              (λ g m. found g (Memᴰ-Removed r m));
        held =
            every-cons (λ (x : Running H B). laws.IsFresh x.key x.hasher) _ w.running
              (found h (Memᴰ-Removed_self r)) inv.held;
      }
  Step-Inv {w} (makes key body) inv = record {
    stored =
        put-AllFresh key (pool_of lib (get key w.pools)) w.pools inv.stored
          (pool_of-AreFresh key (get key w.pools) (inv.stored key));
    held =
        every-cons (λ (x : Running H B). laws.IsFresh x.key x.hasher) _ w.running (laws.new_lem key)
          inv.held;
  }
  Step-Inv {w} (ends q rest r) inv = record {
    stored =
        put_hasher-AllFresh q.key (lib.write q.body q.hasher) w.pools inv.stored
          (laws.reset_lem q.key q.hasher q.body (inv.held q (Memᴰ-Removed_self r)));
    held = λ p m. inv.held p (Memᴰ-Removed r m);
  }
  Step-Inv {w} (forgets key h hs rest e r) inv = record {
    stored =
        put-AllFresh key rest w.pools inv.stored
          (λ g m. (subst (AreFresh key) e (inv.stored key)) g (Memᴰ-Removed r m));
    held = inv.held;
  }

  start-Inv : Inv (record { pools = []; running = [] })
  unfolding AreFresh get
  start-Inv = record { stored = λ key. tt; held = λ r m. elim m [ ] }

  Reach-Inv : {w : Hashers H B} → Reach lib hmac w → Inv w
  Reach-Inv start = start-Inv
  Reach-Inv (next_step r s) = Step-Inv s (Reach-Inv r)

  -- However the goroutines that compute signatures take turns, and whichever stored hashers they get,
  -- the text that each of them returns is the HMAC of its body under its key.
  pub compute_with-eq-compute :
      (buf : Buffer B) (w : Hashers H B)
      → Reach lib hmac w
      → (r : Running H B) → Memᴰ r w.running
      → (compute_with lib hmac r.body r.hasher).1 ≡ compute buf hmac r.body r.key
  unfolding compute_with compute
  compute_with-eq-compute buf w reached r m =
      ap hmac.hex (laws.sum_lem r.key r.hasher r.body ((Reach-Inv reached).held r m))
