-- ===== src/Auth/Refresh/Laws.antt =====
-- A refresh token is good for one refresh, over any store that meets the laws.
use stone_server.Prelude.{ℕ, ◌≤◌, ◌≡◌, ap, ◌∙◌, none, some, [], ◌∷◌, String, arith, inl, inr}
use stone_server.Kv.{KvStore, KvLaws, Reply-cases, key_eq_iff}
use stone_server.Session.{
  refresh_lookup_key, refresh_lock_key, enforce_single_session, store_refresh_token,
  set_refresh_cooldown, is_refresh_cooling_down, get_stored_refresh_token,
  invalidate_refresh_lookup, lookup_refresh_token, release_refresh_lock, acquire_refresh_lock,
}
use stone_server.Auth.{Sign, AuthResponse, NewIds}
use stone_server.Auth.Refresh.{
  refreshed, invalid_refresh_token, rotate, refresh_locked, refresh_player, auth_refresh,
}

module _ (kv : KvStore) (sign : Sign) where
  -- The last step of a refresh that succeeds is the removal of the old lookup.
  rotate-invalidated :
      (now : ℕ) (ids : NewIds) (player_id token : String) (s : kv.State) {resp : AuthResponse}
      → (rotate kv sign now ids player_id token s).0 ≡ refreshed resp
      → (s' : kv.State) × ((rotate kv sign now ids player_id token s).1
          ≡ invalidate_refresh_lookup kv now token s')
  unfolding rotate
  rotate-invalidated now ids player_id token s e =
      let s₁ = (enforce_single_session kv now player_id ids.jti s).1 in
      let s₂ = (set_refresh_cooldown kv now player_id s₁).1 in
      ((store_refresh_token kv now player_id ids.refresh_token s₂).1, ground (arith, e))

  refresh_locked-invalidated :
      (now : ℕ) (ids : NewIds) (player_id token : String) (s : kv.State) {resp : AuthResponse}
      → (refresh_locked kv sign now ids player_id token s).0 ≡ refreshed resp
      → (s' : kv.State) × ((refresh_locked kv sign now ids player_id token s).1
          ≡ invalidate_refresh_lookup kv now token s')
  unfolding refresh_locked
  refresh_locked-invalidated now ids player_id token s {resp} e =
      let s₁ = (is_refresh_cooling_down kv now player_id s).1 in
      let s₂ = (get_stored_refresh_token kv now player_id s₁).1 in
      let done : (rotate kv sign now ids player_id token s₂).0 ≡ refreshed resp =
        ground (arith, e) in
      let (s', last) = rotate-invalidated now ids player_id token s₂ done in
      (s', ground (arith, e, last))

  refresh_player-invalidated :
      (now : ℕ) (ids : NewIds) (player_id token : String) (s : kv.State) {resp : AuthResponse}
      → (refresh_player kv sign now ids player_id token s).0 ≡ refreshed resp
      → (s' : kv.State) × ((refresh_player kv sign now ids player_id token s).1
          ≡ release_refresh_lock kv now player_id (invalidate_refresh_lookup kv now token s'))
  unfolding refresh_player
  refresh_player-invalidated now ids player_id token s {resp} e =
      let s₁ = (acquire_refresh_lock kv now player_id s).1 in
      let done : (refresh_locked kv sign now ids player_id token s₁).0 ≡ refreshed resp =
        ground (arith, e) in
      let (s', last) = refresh_locked-invalidated now ids player_id token s₁ done in
      (s', ground (arith, e, last))

  auth_refresh-found :
      (now : ℕ) (ids : NewIds) (token : String) (s : kv.State) {resp : AuthResponse}
      → (auth_refresh kv sign now ids (some token) s).0 ≡ refreshed resp
      → (player_id : String) × (s' : kv.State) × ((auth_refresh kv sign now ids (some token) s).1
          ≡ release_refresh_lock kv now player_id (invalidate_refresh_lookup kv now token s'))
  unfolding auth_refresh
  auth_refresh-found now ids token s {resp} e =
      let s₁ = (lookup_refresh_token kv now token s).1 in
      elim (Reply-cases (lookup_refresh_token kv now token s).0) [
        | inl (player_id, q) ↦
            let done : (refresh_player kv sign now ids player_id token s₁).0 ≡ refreshed resp =
              ground (arith, q, e) in
            let (s', last) = refresh_player-invalidated now ids player_id token s₁ done in
            (player_id, s', ground (arith, q, e, last))
        | inr (inl q) ↦ absurd (ground (arith, q, e))
        | inr (inr q) ↦ absurd (ground (arith, q, e))
      ]

  value_at-invalidated :
      (laws : KvLaws kv) (now t : ℕ) (player_id token : String) (s : kv.State)
      → now ≤ t
      → kv.value_at
          (release_refresh_lock kv now player_id (invalidate_refresh_lookup kv now token s))
          t
          (refresh_lookup_key token)
        ≡ none
  unfolding release_refresh_lock invalidate_refresh_lookup
  value_at-invalidated laws now t player_id token s h =
      let key = refresh_lookup_key token in
      let s' = (kv.del now (key ∷ []) s).1 in
      ground (
        arith,
        laws.value_at-del now t (refresh_lock_key player_id ∷ []) key s' h,
        laws.value_at-del now t (key ∷ []) key s h,
        key_eq_iff key key,
      )

  auth_refresh-unknown :
      (laws : KvLaws kv) (now : ℕ) (ids : NewIds) (token : String) (s : kv.State)
      → kv.value_at s now (refresh_lookup_key token) ≡ none
      → (auth_refresh kv sign now ids (some token) s).0 ≡ invalid_refresh_token
  unfolding auth_refresh lookup_refresh_token
  auth_refresh-unknown laws now ids token s e =
      ground (arith, e, laws.get-reply now (refresh_lookup_key token) s)

  -- A refresh token is good for one refresh: when it has been used with success, whoever sends it
  -- again, at whatever time, is refused as sending an invalid token.
  pub auth_refresh-replayed :
      (laws : KvLaws kv) (now t : ℕ) (ids ids' : NewIds) (token : String) (s : kv.State)
      {resp : AuthResponse}
      → (auth_refresh kv sign now ids (some token) s).0 ≡ refreshed resp
      → now ≤ t
      → (auth_refresh kv sign t ids' (some token) (auth_refresh kv sign now ids (some token) s).1).0
        ≡ invalid_refresh_token
  auth_refresh-replayed laws now t ids ids' token s {resp} e h =
      let after = (auth_refresh kv sign now ids (some token) s).1 in
      let (player_id, s', last) = auth_refresh-found now ids token s {resp = resp} e in
      let gone = value_at-invalidated laws now t player_id token s' h in
      auth_refresh-unknown laws t ids' token after
        (ap (λ r. kv.value_at r t (refresh_lookup_key token)) last ∙ gone)
