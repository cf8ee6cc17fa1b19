-- ===== src/Middleware/Signature/Hashers.antt =====
-- internal/hash/hash.go with its pools of hashers: `Compute` as several goroutines run it at once. A
-- hasher of crypto/hmac is a parameter, and so is which hasher sync.Pool gives back, if any.
pub mod Pooled
mod Tests
use metrics_alerting_service.Prelude.{String, ◌≡◌, Option, none, some, List, [], ◌∷◌}
use metrics_alerting_service.Dict.{Dict, get, put}
use metrics_alerting_service.Prelude.Removed.{Removed}
use metrics_alerting_service.Middleware.Signature.{Hmac}

-- `hash.Hash` of an hmac
pub record HmacState (H B : Type 0) : Type 0 where
  pub new_hmac : String → H
  pub write : B → H → H
  pub sum : H → B
  pub reset : H → H

-- A computation that has its hasher: `Compute` between `getHasher` and `putHasher`.
pub record Running (H B : Type 0) : Type 0 where
  pub key : String
  pub body : B
  pub hasher : H

-- `hasherPool`: the hashers that are stored for each key, and the computations under way
pub record Hashers (H B : Type 0) : Type 0 where
  pub pools : Dict (List H)
  pub running : List (Running H B)

module _ {H B : Type 0} (lib : HmacState H B) where
  -- the pool of a key, with an empty one stored if it has none
  pool_of : Option (List H) → List H
  pool_of none = []
  pool_of (some hs) = hs

  unfoldable pub load_or_store : String → Dict (List H) → List H × Dict (List H)
  unfolding pool_of
  load_or_store key pools = (pool_of (get key pools), put key (pool_of (get key pools)) pools)

  put_back : String → H → Option (List H) → Dict (List H) → Dict (List H)
  put_back key h none pools = pools
  put_back key h (some hs) pools = put key (lib.reset h ∷ hs) pools

  -- `putHasher`
  unfoldable pub put_hasher : String → H → Dict (List H) → Dict (List H)
  unfolding put_back
  put_hasher key h pools = put_back key h (get key pools) pools

  -- `Compute` on its hasher: the hasher after the write, and the text that is returned
  unfoldable pub compute_with : Hmac B → B → H → H × String
  compute_with hmac body h = (lib.write body h, hmac.hex (lib.sum (lib.write body h)))

  -- A goroutine begins with a stored hasher or a new one; another ends; sync.Pool forgets a hasher.
  pub data Step (hmac : Hmac B) (w : Hashers H B) : Hashers H B → Type 0 where
    takes :
        (key : String) (body : B) (h : H) (rest : List H)
        → Removed h (load_or_store key w.pools).0 rest
        → Step hmac w (record {
          pools = put key rest (load_or_store key w.pools).1;
          running = record { key = key; body = body; hasher = h } ∷ w.running;
        })
    makes :
        (key : String) (body : B)
        → Step hmac w (record {
          pools = (load_or_store key w.pools).1;
          running = record { key = key; body = body; hasher = lib.new_hmac key } ∷ w.running;
        })
    ends :
        (r : Running H B) (rest : List (Running H B))
        → Removed r w.running rest
        → Step hmac w (record {
          pools = put_hasher r.key (compute_with hmac r.body r.hasher).0 w.pools;
          running = rest;
        })
    forgets :
        (key : String) (h : H) (hs rest : List H)
        → get key w.pools ≡ some hs
        → Removed h hs rest
        → Step hmac w (record w { pools = put key rest w.pools })

  pub data Reach (hmac : Hmac B) : Hashers H B → Type 0 where
    start : Reach hmac (record { pools = []; running = [] })
    next_step : {w v : Hashers H B} → Reach hmac w → Step hmac w v → Reach hmac v
