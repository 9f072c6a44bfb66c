-- ===== src/Auth/Logout.antt =====
-- internal/auth/logout.go: `AuthLogout`. The error that it would report is never one:
-- `logoutSession` returns none.
use stone_server.Prelude.{ℕ, ◌≤◌, ◌≡◌, ◌≢◌, ap, ◌∙◌, Option, none, some, String, eq_iff, arith}
use stone_server.Kv.{Key, KvStore, KvLaws, key_eq}
use stone_server.Session.{
  session_key, current_key, refresh_key, refresh_lookup_key, refresh_lock_key, refresh_cooldown_key,
  logout_session, lookup_refresh_token, acquire_refresh_lock, is_refresh_cooling_down,
  get_stored_refresh_token,
}
use stone_server.Session.Single.{value_at-logout_session}
use stone_server.Auth.{Sign, Claims, AuthResponse, NewIds}
use stone_server.Auth.Refresh.{refreshed, refresh_locked, refresh_player, auth_refresh}
use stone_server.Auth.Bearer.{bearer, session_revoked, next, jwt_auth, jwt_auth-session}

pub data LogoutReply : Type 0 where
  no_content : LogoutReply

unfoldable pub auth_logout : (kv : KvStore) → ℕ → Claims → kv.State → LogoutReply × kv.State
unfolding logout_session
auth_logout kv now claims s = (no_content, logout_session kv now claims.player_id claims.jti s)

module _ (kv : KvStore) (laws : KvLaws kv) (sign : Sign) where
  refresh_locked-none :
      (now : ℕ) (ids : NewIds) (player_id token : String) (s : kv.State) {resp : AuthResponse}
      → kv.value_at s now (refresh_key player_id) ≡ none
      → (refresh_locked kv sign now ids player_id token s).0 ≢ refreshed resp
  unfolding refresh_locked is_refresh_cooling_down get_stored_refresh_token
  refresh_locked-none now ids player_id token s gone e =
      let key = refresh_cooldown_key player_id in
      let s₁ = (kv.get now key s).1 in
      let same = laws.value_at-get now now key (refresh_key player_id) s (omega arith) in
      let reply = laws.get-reply now (refresh_key player_id) s₁ in
      ground (arith, same, reply, gone, e)

  refresh_player-none :
      (now : ℕ) (ids : NewIds) (player_id token : String) (s : kv.State) {resp : AuthResponse}
      → kv.value_at s now (refresh_key player_id) ≡ none
      → (refresh_player kv sign now ids player_id token s).0 ≢ refreshed resp
  unfolding refresh_player acquire_refresh_lock key_eq
  refresh_player-none now ids player_id token s {resp} gone e =
      let lock = refresh_lock_key player_id in
      let s₁ = (kv.set_nx now lock "1" 10 s).1 in
      let kept = laws.value_at-set_nx now now lock (refresh_key player_id) "1" 10 s (omega arith) in
      let still : kv.value_at s₁ now (refresh_key player_id) ≡ none = ground (arith, kept, gone) in
      let no = refresh_locked-none now ids player_id token s₁ {resp = resp} still in
      ground (arith, no, e)

  auth_refresh-none :
      (now : ℕ) (ids : NewIds) (player_id token : String) (s : kv.State) {resp : AuthResponse}
      → kv.value_at s now (refresh_lookup_key token) ≡ some player_id
      → kv.value_at s now (refresh_key player_id) ≡ none
      → (auth_refresh kv sign now ids (some token) s).0 ≢ refreshed resp
  unfolding auth_refresh lookup_refresh_token
  auth_refresh-none now ids player_id token s {resp} looked gone e =
      let key = refresh_lookup_key token in
      let s₁ = (kv.get now key s).1 in
      let same = laws.value_at-get now now key (refresh_key player_id) s (omega arith) in
      let no = refresh_player-none now ids player_id token s₁ {resp = resp} (same ∙ gone) in
      ground (arith, laws.get-reply now key s, looked, no, e)

  -- When a player has logged out of the current session, its token is refused as revoked and the
  -- refresh token of the player gives no new session, at any time from then on. The token is not
  -- empty and reads as that of the session, and the refresh token is still looked up as the
  -- player's.
  pub auth_logout-revoked :
      (read_claims : ℕ → String → Option Claims) (now t : ℕ) (ids : NewIds) (claims : Claims)
      (token refresh_token : String) (s : kv.State) (resp : AuthResponse)
      → now ≤ t
      → kv.value_at s now (current_key claims.player_id) ≡ some claims.jti
      → kv.value_at s t (refresh_lookup_key refresh_token) ≡ some claims.player_id
      → token ≢ ""
      → read_claims t token ≡ some claims
      → ((jwt_auth read_claims kv t (bearer token) (auth_logout kv now claims s).1).0
          ≡ session_revoked)
        × ((auth_refresh kv sign t ids (some refresh_token) (auth_logout kv now claims s).1).0
            ≢ refreshed resp)
  unfolding auth_logout key_eq
  auth_logout-revoked read_claims now t ids claims token refresh_token s resp h cur looked named
        reads =
      let after = logout_session kv now claims.player_id claims.jti s in
      let at = λ (j : Key).
        value_at-logout_session kv laws now t claims.player_id claims.jti claims.jti j s h cur in
      let self = eq_iff claims.jti claims.jti in
      let same = eq_iff claims.player_id claims.player_id in
      let dead : kv.value_at after t (session_key claims.jti) ≡ none =
        ground (arith, at (session_key claims.jti), self) in
      let gone : kv.value_at after t (refresh_key claims.player_id) ≡ none =
        ground (arith, at (refresh_key claims.player_id), self, same) in
      let still : kv.value_at after t (refresh_lookup_key refresh_token) ≡ some claims.player_id =
        ground (arith, at (refresh_lookup_key refresh_token), looked) in
      (
        jwt_auth-session read_claims kv laws t token claims after named reads
            ∙ ap (λ v. elim v [ none ↦ session_revoked | some x ↦ next claims ]) dead,
        auth_refresh-none t ids claims.player_id refresh_token after {resp = resp} still gone,
      )
