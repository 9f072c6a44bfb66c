-- ===== src/RateLimit.antt =====
-- internal/middleware/ratelimit.go: the fixed window of requests, over any store that meets the
-- laws of Kv. The commands of one request run at three instants, for a key may expire between
-- them.
pub mod Window
use Prim.Native.String.{◌++◌}
use stone_server.Prelude.{
  ℕ, Bool, true, false, Option, none, some, String, str_eq, List, [], ◌∷◌, ltb, ◌==◌, if◌then◌else◌,
}
use stone_server.Kv
use stone_server.Kv.{Key, KvStore, Reply}

pub record Policy : Type 0 where
  pub limit : ℕ
  pub ip_based : Bool

unfoldable pub policy_for : String → Policy
policy_for policy_key =
    if str_eq policy_key "POST:/api/v1/auth/steam"
    then record { limit = 10; ip_based = true }
    else if str_eq policy_key "POST:/api/v1/gacha/pull"
    then record { limit = 5; ip_based = false }
    else if str_eq policy_key "POST:/api/v1/player/sync"
    then record { limit = 4; ip_based = false }
    else if str_eq policy_key "POST:/api/v1/achievement/unlock"
    then record { limit = 20; ip_based = false }
    else record { limit = 60; ip_based = false }

abbrev pub rate_limit_window : ℕ
rate_limit_window = 60

abbrev pub rate_limit_key : String → String → String → Key
rate_limit_key identifier method full_path = record {
  format = "ratelimit:%s:%s:%s";
  name = identifier ++ ":" ++ method ++ ":" ++ full_path;
}

-- When the commands of a request run.
pub record Instants : Type 0 where
  pub at_set : ℕ
  pub at_incr : ℕ
  pub at_expire : ℕ

module _ (kv : KvStore) where
  -- A counter without a ttl gets one again, or is dropped.
  unfoldable pub rearm : ℕ → Key → ℕ → kv.State → kv.State
  rearm now key window s =
      let (reply, s') = kv.expire now key window s in
      let dropped = (kv.del now (key ∷ []) s').1 in
      elim reply [ Kv.ok _ ↦ s' | Kv.not_found ↦ dropped | Kv.failed ↦ dropped ]

  unfoldable pub incr_again : Instants → Key → ℕ → kv.State → Reply ℕ × kv.State
  unfolding rearm
  incr_again i key window s =
      let (reply, s') = kv.incr_by i.at_incr key 1 s in
      elim reply [
        | Kv.ok count ↦
            if count == 1 then (Kv.ok count, rearm i.at_expire key window s') else (Kv.ok count, s')
        | Kv.not_found ↦ (Kv.failed, s')
        | Kv.failed ↦ (Kv.failed, s')
      ]

  unfoldable pub incr_rate_limit : Instants → Key → ℕ → kv.State → Reply ℕ × kv.State
  unfolding incr_again
  incr_rate_limit i key window s =
      let (reply, s') = kv.set_nx i.at_set key "1" window s in
      elim reply [
        | Kv.ok true ↦ (Kv.ok 1, s')
        | Kv.ok false ↦ incr_again i key window s'
        | Kv.not_found ↦ (Kv.failed, s')
        | Kv.failed ↦ (Kv.failed, s')
      ]

-- int(count) > policy.limit; a store that fails lets the request through.
abbrev pub over_limit : ℕ → Reply ℕ → Bool
over_limit limit (Kv.ok count) = ltb limit count
over_limit limit Kv.not_found = false
over_limit limit Kv.failed = false

-- The player, if there is one and the policy does not count addresses.
unfoldable pub resolve_identifier : Option String → String → Bool → String
resolve_identifier player_id client_ip true = client_ip
resolve_identifier none client_ip false = client_ip
resolve_identifier (some id) client_ip false = if str_eq id "" then client_ip else id

-- Whether the request goes on to its handler.
unfoldable pub rate_limiter :
    (kv : KvStore)
    → Instants
    → Option String
    → String
    → String
    → String
    → kv.State
    → Bool × kv.State
unfolding policy_for incr_rate_limit resolve_identifier
rate_limiter kv i player_id client_ip method full_path s =
    let policy = policy_for (method ++ ":" ++ full_path) in
    let identifier = resolve_identifier player_id client_ip policy.ip_based in
    let (count, s') =
      incr_rate_limit kv i (rate_limit_key identifier method full_path) rate_limit_window s in
    if str_eq full_path ""
    then (true, s)
    else (if over_limit policy.limit count then false else true, s')
