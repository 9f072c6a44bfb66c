-- ===== src/Auth/Login.antt =====
-- internal/auth/handler.go, devauth.go and devtoken.go: the handlers of the logins. A reply stands
-- for the status and the code of the response.
pub mod Streak
pub mod Laws
pub mod Ticket
use stone_server.Prelude.{
  ℕ, zero, suc, ◌+◌, ◌-◌, ◌/◌, Bool, true, false, not, ◌||◌, Option, none, some, List, [], ◌∷◌,
  ◌++◌, String, str_eq, ◌==◌, if◌then◌else◌, Result, ok, err,
}
use stone_server.Kv
use stone_server.Kv.{KvStore}
use stone_server.Tables.{
  PlayerState, PlayerRows, Env, Error, db_failed, upsert, insert_state, update_streak, reset_anchor,
  with_state,
}
use stone_server.Cairn
use stone_server.Cairn.{initialize_slots, set_state}
use stone_server.Session.{
  Enforced, enforced, session_in_flight, store_failed, enforce_single_session, store_refresh_token,
  claim_ticket, release_ticket,
}
use stone_server.Auth.Steam.{
  TicketParams, TicketError, invalid_ticket, account_banned, ticket_not_owned, steam_failed,
  validate_ticket_params, Steam, authenticate_ticket,
}
use stone_server.Auth.Account.{
  find_player, upsert_player, new_state, state_or_new, init_player_state, day_of, next_streak,
  streaked, update_login_streak, anchored, reset_accrual_anchor, prepare_player,
}
use stone_server.Auth.{Sign, AuthResponse, new_token, Accounts, with_rows, NewIds}

pub data AuthReply : Type 0 where
  logged_in : AuthResponse → AuthReply
  invalid_request ticket_used ticket_rejected login_in_progress : AuthReply
  unavailable internal_error : AuthReply

abbrev pub is_logged_in : AuthReply → Bool
is_logged_in (logged_in resp) = true
is_logged_in reply = false

-- The reply of `DevToken` to an error.
abbrev pub blurred : AuthReply → AuthReply
blurred login_in_progress = internal_error
blurred reply = reply

module _ (kv : KvStore) (sign : Sign) where
  -- The steps from the token on; `down` is the reply to a store that fails.
  unfoldable pub establish :
      AuthReply → Env → NewIds → String → Accounts → kv.State → AuthReply × (Accounts × kv.State)
  unfolding new_token enforce_single_session store_refresh_token reset_accrual_anchor
  establish down env ids player_id acc s = elim (new_token sign env.now player_id ids.jti) [
    | none ↦ (internal_error, (acc, s))
    | some (token, expires_at) ↦
        let (session, s₁) = enforce_single_session kv env.now player_id ids.jti s in
        let (stored, s₂) = store_refresh_token kv env.now player_id ids.refresh_token s₁ in
        let (db, reset) = reset_accrual_anchor env (acc.rows player_id) in
        elim session [
          | session_in_flight ↦ (login_in_progress, (acc, s₁))
          | store_failed ↦ (down, (acc, s₁))
          | enforced ↦ elim stored [
            | session_in_flight ↦ (down, (acc, s₂))
            | store_failed ↦ (down, (acc, s₂))
            | enforced ↦ elim reset [
              | err e ↦ (internal_error, (acc, s₂))
              | ok _ ↦ (
                logged_in (record {
                  jwt = token;
                  refresh_token = ids.refresh_token;
                  expires_at = expires_at;
                }),
                (with_rows player_id db acc, s₂),
              )
            ]
          ]
        ]
  ]

  module _ (one : ℕ) (c : Cairn.Config) where
    -- The steps that the handlers share.
    unfoldable pub log_in :
        AuthReply
        → Bool
        → Env
        → NewIds
        → String
        → Accounts
        → kv.State
        → AuthReply × (Accounts × kv.State)
    unfolding prepare_player establish
    log_in down streak env ids steam_id acc s =
        let (acc', prepared) = prepare_player one c streak env ids.player_id steam_id acc in
        elim prepared [
          | err e ↦ (internal_error, (acc', s))
          | ok player_id ↦ establish down env ids player_id acc' s
        ]

    -- AuthDev. `none` is a body that does not bind or holds no UUID.
    unfoldable pub auth_dev :
        Env → NewIds → Option String → Accounts → kv.State → AuthReply × (Accounts × kv.State)
    unfolding log_in
    auth_dev env ids none acc s = (invalid_request, (acc, s))
    auth_dev env ids (some uuid) acc s = log_in internal_error true env ids uuid acc s

    -- DevToken has one reply to all errors, and does not count for the streak.
    unfoldable pub dev_token :
        Env → NewIds → String → Accounts → kv.State → AuthReply × (Accounts × kv.State)
    unfolding log_in
    dev_token env ids steam_id acc s =
        let (reply, after) = log_in internal_error false env ids steam_id acc s in
        if str_eq steam_id "" then (invalid_request, (acc, s)) else (blurred reply, after)

    module _ (hash : String → String) (steam : Steam) where
      -- What follows the claim of the ticket.
      unfoldable pub log_in_steam :
          Env → NewIds → String → Accounts → kv.State → AuthReply × (Accounts × kv.State)
      unfolding authenticate_ticket log_in
      log_in_steam env ids ticket acc s = elim (authenticate_ticket steam ticket) [
        | ok steam_id ↦ log_in unavailable true env ids steam_id acc s
        | err steam_failed ↦ (internal_error, (acc, s))
        | err e ↦ (ticket_rejected, (acc, s))
      ]

      -- The ticket is released when the login does not succeed. `none` is a body that does not
      -- bind.
      unfoldable pub auth_steam :
          Env → NewIds → Option String → Accounts → kv.State → AuthReply × (Accounts × kv.State)
      unfolding log_in_steam
      auth_steam env ids none acc s = (invalid_request, (acc, s))
      auth_steam env ids (some ticket) acc s =
          let (claimed, s₁) = claim_ticket kv env.now (hash ticket) s in
          let (reply, (acc', s₂)) = log_in_steam env ids ticket acc s₁ in
          elim claimed [
            | Kv.ok true ↦
                if is_logged_in reply
                then (reply, (acc', s₂))
                else (reply, (acc', release_ticket kv env.now (hash ticket) s₂))
            | Kv.ok false ↦ (ticket_used, (acc, s₁))
            | Kv.not_found ↦ (unavailable, (acc, s₁))
            | Kv.failed ↦ (unavailable, (acc, s₁))
          ]
