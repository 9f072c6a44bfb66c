-- ===== src/Examples/RateRuns.antt =====
-- The theorems on the rate limiter, in small in-memory stores.
use stone_server.Prelude.{◌≡◌, refl, some, [], ◌∷◌, arith}
use stone_server.Kv
use stone_server.Kv.{Key, key_eq}
use stone_server.Kv.Memory.{MemStore, new_mem_store, value_at}
use stone_server.RateLimit.Window.{counts, incr_rate_limit-numbered}
use stone_server.Examples.Tally.{tally_kv, tally_laws}

abbrev key : Key
key = record { format = "ratelimit:%s:%s:%s"; name = "p:POST:/api/v1/gacha/pull" }

abbrev expiring : MemStore
expiring = record { kv = (key, record { val = "III"; expires_at = some 100 }) ∷ []; lists = [] }

incr_rate_limit-numbered_example :
    counts tally_kv key 60 (100 ∷ 110 ∷ 160 ∷ []) new_mem_store ≡ Kv.ok 1 ∷ Kv.ok 2 ∷ Kv.ok 3 ∷ []
unfolding value_at
incr_rate_limit-numbered_example =
    incr_rate_limit-numbered tally_kv tally_laws key 60 100 (110 ∷ 160 ∷ []) new_mem_store refl refl
      (omega arith, omega arith, (omega arith, omega arith, tt))
