-- ===== src/Session.antt =====
-- internal/auth/session.go: the sessions, refresh tokens and tickets that the key-value store
-- keeps. A call runs at one instant, over whatever store it is given; the errors that the code
-- drops are dropped here.
pub mod Single
pub mod Claims
use stone_server.Prelude.{ℕ, Bool, true, false, String, str_eq, List, [], ◌∷◌, if◌then◌else◌}
use stone_server.Kv
use stone_server.Kv.{Key, KvStore, Reply}

abbrev pub session_ttl : ℕ
session_ttl = 86400

abbrev pub refresh_ttl : ℕ
refresh_ttl = 2592000

abbrev pub ticket_ttl : ℕ
ticket_ttl = 3600

abbrev pub session_key : String → Key
session_key jti = record { format = "session:%s"; name = jti }

abbrev pub current_key : String → Key
current_key player_id = record { format = "session:current:%s"; name = player_id }

abbrev pub lock_key : String → Key
lock_key player_id = record { format = "session:lock:%s"; name = player_id }

abbrev pub refresh_key : String → Key
refresh_key player_id = record { format = "refresh:%s"; name = player_id }

abbrev pub refresh_lookup_key : String → Key
refresh_lookup_key token = record { format = "refresh_lookup:%s"; name = token }

abbrev pub refresh_lock_key : String → Key
refresh_lock_key player_id = record { format = "refresh_lock:%s"; name = player_id }

abbrev pub refresh_cooldown_key : String → Key
refresh_cooldown_key player_id = record { format = "refresh_cooldown:%s"; name = player_id }

abbrev pub ticket_key : String → Key
ticket_key hash = record { format = "ticket:used:%s"; name = hash }

pub data Enforced : Type 0 where
  enforced session_in_flight store_failed : Enforced

-- The text that a reply holds; a failed GET gives the empty text.
abbrev pub text_of : Reply String → String
text_of (Kv.ok v) = v
text_of Kv.not_found = ""
text_of Kv.failed = ""

module _ (kv : KvStore) where
  -- DEL of the session that is current, if one is read.
  unfoldable pub drop_current : ℕ → String → kv.State → kv.State
  drop_current now player_id s =
      let (reply, s') = kv.get now (current_key player_id) s in
      elim reply [
        | Kv.ok old ↦ if str_eq old "" then s' else (kv.del now (session_key old ∷ []) s').1
        | Kv.not_found ↦ s'
        | Kv.failed ↦ s'
      ]

  -- Two SETs, the second only after the first has succeeded.
  unfoldable pub set_both : ℕ → Key → String → Key → String → ℕ → kv.State → Enforced × kv.State
  set_both now k v k' v' ttl s =
      let (reply, s') = kv.set now k v ttl s in
      let (reply', s'') = kv.set now k' v' ttl s' in
      elim reply [
        | Kv.ok _ ↦ elim reply' [
          | Kv.ok _ ↦ (enforced, s'')
          | Kv.not_found ↦ (store_failed, s'')
          | Kv.failed ↦ (store_failed, s'')
        ]
        | Kv.not_found ↦ (store_failed, s')
        | Kv.failed ↦ (store_failed, s')
      ]

  unfoldable pub enforce_single_session : ℕ → String → String → kv.State → Enforced × kv.State
  unfolding drop_current set_both
  enforce_single_session now player_id jti s =
      let (reply, s') = kv.set_nx now (lock_key player_id) "1" 5 s in
      elim reply [
        | Kv.ok true ↦
            let (result, s'') =
              set_both now (session_key jti) "1" (current_key player_id) jti session_ttl
                (drop_current now player_id s') in
            (result, (kv.del now (lock_key player_id ∷ []) s'').1)
        | Kv.ok false ↦ (session_in_flight, s')
        | Kv.not_found ↦ (store_failed, s')
        | Kv.failed ↦ (store_failed, s')
      ]

  unfoldable pub store_refresh_token : ℕ → String → String → kv.State → Enforced × kv.State
  unfolding set_both
  store_refresh_token now player_id token s =
      set_both now (refresh_key player_id) token (refresh_lookup_key token) player_id refresh_ttl s

  unfoldable pub invalidate_refresh_lookup : ℕ → String → kv.State → kv.State
  invalidate_refresh_lookup now token s = (kv.del now (refresh_lookup_key token ∷ []) s).1

  unfoldable pub lookup_refresh_token : ℕ → String → kv.State → Reply String × kv.State
  lookup_refresh_token now token s = kv.get now (refresh_lookup_key token) s

  unfoldable pub get_stored_refresh_token : ℕ → String → kv.State → Reply String × kv.State
  get_stored_refresh_token now player_id s = kv.get now (refresh_key player_id) s

  unfoldable pub acquire_refresh_lock : ℕ → String → kv.State → Reply Bool × kv.State
  acquire_refresh_lock now player_id s = kv.set_nx now (refresh_lock_key player_id) "1" 10 s

  unfoldable pub release_refresh_lock : ℕ → String → kv.State → kv.State
  release_refresh_lock now player_id s = (kv.del now (refresh_lock_key player_id ∷ []) s).1

  unfoldable pub set_refresh_cooldown : ℕ → String → kv.State → Reply (Unit {0}) × kv.State
  set_refresh_cooldown now player_id s = kv.set now (refresh_cooldown_key player_id) "1" 3 s

  unfoldable pub is_refresh_cooling_down : ℕ → String → kv.State → Reply Bool × kv.State
  is_refresh_cooling_down now player_id s =
      let (reply, s') = kv.get now (refresh_cooldown_key player_id) s in
      elim reply [
        | Kv.ok _ ↦ (Kv.ok true, s')
        | Kv.not_found ↦ (Kv.ok false, s')
        | Kv.failed ↦ (Kv.failed, s')
      ]

  unfoldable pub logout_session : ℕ → String → String → kv.State → kv.State
  logout_session now player_id jti s =
      let (reply, s') = kv.get now (current_key player_id) s in
      if str_eq (text_of reply) jti
      then (kv.del now (session_key jti ∷ current_key player_id ∷ refresh_key player_id ∷ []) s').1
      else (kv.del now (session_key jti ∷ []) s').1

  unfoldable pub claim_ticket : ℕ → String → kv.State → Reply Bool × kv.State
  claim_ticket now hash s = kv.set_nx now (ticket_key hash) "1" ticket_ttl s

  unfoldable pub release_ticket : ℕ → String → kv.State → kv.State
  release_ticket now hash s = (kv.del now (ticket_key hash ∷ []) s).1
