-- ===== src/Auth/Refresh.antt =====
-- internal/auth/refresh.go: `AuthRefresh`, which gives a new session and a new refresh token for a
-- refresh token. A reply stands for the status and the code of the response.
pub mod Laws
pub mod Rotation
use stone_server.Prelude.{ℕ, Bool, true, false, Option, none, some, String, str_eq, if◌then◌else◌}
use stone_server.Kv
use stone_server.Kv.{KvStore}
use stone_server.Session.{
  Enforced, enforced, session_in_flight, store_failed, enforce_single_session, store_refresh_token,
  invalidate_refresh_lookup, lookup_refresh_token, get_stored_refresh_token, acquire_refresh_lock,
  release_refresh_lock, set_refresh_cooldown, is_refresh_cooling_down,
}
use stone_server.Auth.{Sign, AuthResponse, new_token, NewIds}

pub data RefreshReply : Type 0 where
  refreshed : AuthResponse → RefreshReply
  invalid_request invalid_refresh_token refresh_in_progress token_revoked : RefreshReply
  login_in_progress unavailable internal_error : RefreshReply

module _ (kv : KvStore) (sign : Sign) where
  -- The rotation, of a token that is the stored one. A cooldown that cannot be set is no error.
  unfoldable pub rotate : ℕ → NewIds → String → String → kv.State → RefreshReply × kv.State
  unfolding new_token enforce_single_session set_refresh_cooldown store_refresh_token
      invalidate_refresh_lookup
  rotate now ids player_id token s = elim (new_token sign now player_id ids.jti) [
    | none ↦ (internal_error, s)
    | some (jwt, expires_at) ↦
        let (session, s₁) = enforce_single_session kv now player_id ids.jti s in
        let (cooled, s₂) = set_refresh_cooldown kv now player_id s₁ in
        let (stored, s₃) = store_refresh_token kv now player_id ids.refresh_token s₂ in
        elim session [
          | session_in_flight ↦ (login_in_progress, s₁)
          | store_failed ↦ (unavailable, s₁)
          | enforced ↦ elim stored [
            | session_in_flight ↦ (unavailable, s₃)
            | store_failed ↦ (unavailable, s₃)
            | enforced ↦ (
              refreshed (record {
                jwt = jwt;
                refresh_token = ids.refresh_token;
                expires_at = expires_at;
              }),
              invalidate_refresh_lookup kv now token s₃,
            )
          ]
        ]
  ]

  -- What the lock of the player guards.
  unfoldable pub refresh_locked : ℕ → NewIds → String → String → kv.State → RefreshReply × kv.State
  unfolding is_refresh_cooling_down get_stored_refresh_token rotate
  refresh_locked now ids player_id token s =
      let (cooling, s₁) = is_refresh_cooling_down kv now player_id s in
      let (stored, s₂) = get_stored_refresh_token kv now player_id s₁ in
      elim cooling [
        | Kv.ok true ↦ (refresh_in_progress, s₁)
        | Kv.ok false ↦ elim stored [
          | Kv.ok token' ↦
              if str_eq token' token then rotate now ids player_id token s₂ else (token_revoked, s₂)
          | Kv.not_found ↦ (invalid_refresh_token, s₂)
          | Kv.failed ↦ (unavailable, s₂)
        ]
        | Kv.not_found ↦ (unavailable, s₁)
        | Kv.failed ↦ (unavailable, s₁)
      ]

  -- What follows the lookup of the token.
  unfoldable pub refresh_player : ℕ → NewIds → String → String → kv.State → RefreshReply × kv.State
  unfolding acquire_refresh_lock refresh_locked release_refresh_lock
  refresh_player now ids player_id token s =
      let (acquired, s₁) = acquire_refresh_lock kv now player_id s in
      let (reply, s₂) = refresh_locked now ids player_id token s₁ in
      elim acquired [
        | Kv.ok true ↦ (reply, release_refresh_lock kv now player_id s₂)
        | Kv.ok false ↦ (refresh_in_progress, s₁)
        | Kv.not_found ↦ (unavailable, s₁)
        | Kv.failed ↦ (unavailable, s₁)
      ]

  -- `none` is a body that does not bind.
  unfoldable pub auth_refresh : ℕ → NewIds → Option String → kv.State → RefreshReply × kv.State
  unfolding lookup_refresh_token refresh_player
  auth_refresh now ids none s = (invalid_request, s)
  auth_refresh now ids (some token) s =
      let (found, s₁) = lookup_refresh_token kv now token s in
      elim found [
        | Kv.ok player_id ↦ refresh_player now ids player_id token s₁
        | Kv.not_found ↦ (invalid_refresh_token, s₁)
        | Kv.failed ↦ (unavailable, s₁)
      ]
