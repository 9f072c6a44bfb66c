-- ===== src/Auth/Refresh/Rotation.antt =====
-- The token that a refresh gives can be refreshed again, over any store that meets the laws.
use stone_server.Prelude.{
  ℕ, ◌+◌, ◌≤◌, ◌<◌, ◌≡◌, ◌≢◌, ◌∙◌, true, none, some, [], ◌∷◌, String, eq_iff, if◌then◌else◌, arith,
}
use stone_server.Kv
use stone_server.Kv.{Key, KvStore, KvLaws, key_eq, key_eq_iff, found, written, is_some}
use stone_server.Session.{
  refresh_ttl, lock_key, refresh_key, refresh_lookup_key, refresh_lock_key, refresh_cooldown_key,
  enforce_single_session, store_refresh_token, set_refresh_cooldown, is_refresh_cooling_down,
  get_stored_refresh_token, invalidate_refresh_lookup, lookup_refresh_token, release_refresh_lock,
  acquire_refresh_lock,
}
use stone_server.Session.Single.{value_at-set_both, value_at-enforce}
use stone_server.Auth.{Sign, AuthResponse, NewIds, new_token, jwt_expiry}
use stone_server.Auth.Refresh.{refreshed, rotate, refresh_locked, refresh_player, auth_refresh}

-- The token is the player's, no refresh and no login of the player is in flight, and the last
-- refresh is no longer cooling down.
pub record Refreshable (kv : KvStore) (now : ℕ) (player_id token : String) (s : kv.State)
    : Type 0 where
  pub looked_up : kv.value_at s now (refresh_lookup_key token) ≡ some player_id
  pub is_stored : kv.value_at s now (refresh_key player_id) ≡ some token
  pub not_refreshing : kv.value_at s now (refresh_lock_key player_id) ≡ none
  pub not_cooling : kv.value_at s now (refresh_cooldown_key player_id) ≡ none
  pub not_locked : kv.value_at s now (lock_key player_id) ≡ none

abbrev pub response : NewIds → ℕ → String → AuthResponse
response ids now jwt = record {
  jwt = jwt;
  refresh_token = ids.refresh_token;
  expires_at = now + jwt_expiry;
}

module _ (kv : KvStore) (laws : KvLaws kv) (sign : Sign) where
  -- What a reader finds after the rotation under a key that is not of a session.
  value_at-rotate :
      (now t : ℕ) (ids : NewIds) (player_id token jwt : String) (j : Key) (s : kv.State)
      → now ≤ t
      → sign player_id ids.jti ≡ some jwt
      → kv.value_at s now (lock_key player_id) ≡ none
      → ((rotate kv sign now ids player_id token s).0 ≡ refreshed (response ids now jwt))
        × (kv.value_at (rotate kv sign now ids player_id token s).1 t j ≡ (
            if key_eq (refresh_lookup_key token) j
            then none
            else if key_eq (refresh_lookup_key ids.refresh_token) j
            then written now refresh_ttl t player_id
            else if key_eq (refresh_key player_id) j
            then written now refresh_ttl t ids.refresh_token
            else if key_eq (refresh_cooldown_key player_id) j
            then written now 3 t "1"
            else kv.value_at (enforce_single_session kv now player_id ids.jti s).1 t j))
  unfolding rotate new_token set_refresh_cooldown store_refresh_token invalidate_refresh_lookup
  value_at-rotate now t ids player_id token jwt j s h signed free =
      let (session, at) = value_at-enforce kv laws now t player_id ids.jti j s h free in
      let s₁ = (enforce_single_session kv now player_id ids.jti s).1 in
      let s₂ = (set_refresh_cooldown kv now player_id s₁).1 in
      let s₃ = (store_refresh_token kv now player_id ids.refresh_token s₂).1 in
      let cooled = laws.value_at-set now t (refresh_cooldown_key player_id) j "1" 3 s₁ h in
      let (stored, at') =
        value_at-set_both kv laws now t (refresh_key player_id)
          (refresh_lookup_key ids.refresh_token) j ids.refresh_token player_id refresh_ttl s₂ h in
      let dropped = laws.value_at-del now t (refresh_lookup_key token ∷ []) j s₃ h in
      (
        ground (arith, signed, session, stored),
        ground (arith, signed, session, stored, cooled, at', dropped),
      )

  -- What a reader finds before the rotation: the lock of the refresh is the one change.
  value_at-acquired :
      (now t : ℕ) (player_id token : String) (j : Key) (s : kv.State)
      → now ≤ t
      → kv.value_at s now (refresh_lock_key player_id) ≡ none
      → kv.value_at
          (acquire_refresh_lock kv now player_id (lookup_refresh_token kv now token s).1).1
          t
          j
        ≡ (if key_eq (refresh_lock_key player_id) j
            then written now 10 t "1"
            else kv.value_at s t j)
  unfolding acquire_refresh_lock lookup_refresh_token
  value_at-acquired now t player_id token j s h free =
      let s₁ = (kv.get now (refresh_lookup_key token) s).1 in
      let lock = refresh_lock_key player_id in
      let was = laws.value_at-get now now (refresh_lookup_key token) lock s (omega arith) in
      let same = laws.value_at-get now t (refresh_lookup_key token) j s h in
      ground (arith, laws.value_at-set_nx now t lock j "1" 10 s₁ h, was, same, free)

  refresh_locked-rotate :
      (now : ℕ) (ids : NewIds) (player_id token : String) (s : kv.State)
      → kv.value_at s now (refresh_key player_id) ≡ some token
      → kv.value_at s now (refresh_cooldown_key player_id) ≡ none
      → refresh_locked kv sign now ids player_id token s
        ≡ rotate kv sign now ids player_id token
            (get_stored_refresh_token kv now player_id
              (is_refresh_cooling_down kv now player_id s).1).1
  unfolding refresh_locked is_refresh_cooling_down get_stored_refresh_token
  refresh_locked-rotate now ids player_id token s stored cool =
      let key = refresh_cooldown_key player_id in
      let s₁ = (kv.get now key s).1 in
      let same = laws.value_at-get now now key (refresh_key player_id) s (omega arith) in
      ground (
        arith,
        laws.get-reply now key s,
        laws.get-reply now (refresh_key player_id) s₁,
        same,
        stored,
        cool,
        eq_iff token token,
      )

  -- The replies to the lookup and to the lock.
  lookup_and_lock :
      (now : ℕ) (player_id token : String) (s : kv.State)
      → Refreshable kv now player_id token s
      → ((lookup_refresh_token kv now token s).0 ≡ Kv.ok player_id)
        × ((acquire_refresh_lock kv now player_id (lookup_refresh_token kv now token s).1).0
            ≡ Kv.ok true)
  unfolding lookup_refresh_token acquire_refresh_lock
  lookup_and_lock now player_id token s r =
      let key = refresh_lookup_key token in
      let lock = refresh_lock_key player_id in
      let s₁ = (kv.get now key s).1 in
      let was = laws.value_at-get now now key lock s (omega arith) in
      (
        ground (arith, laws.get-reply now key s, r.looked_up),
        ground (arith, laws.set_nx-reply now lock "1" 10 s₁, was, r.not_refreshing),
      )

  value_at-read :
      (now : ℕ) (player_id : String) (j : Key) (s : kv.State)
      → kv.value_at
          (get_stored_refresh_token kv now player_id
            (is_refresh_cooling_down kv now player_id s).1).1
          now
          j
        ≡ kv.value_at s now j
  unfolding is_refresh_cooling_down get_stored_refresh_token
  value_at-read now player_id j s =
      let s₁ = (kv.get now (refresh_cooldown_key player_id) s).1 in
      let one = laws.value_at-get now now (refresh_cooldown_key player_id) j s (omega arith) in
      let two = laws.value_at-get now now (refresh_key player_id) j s₁ (omega arith) in
      ground (arith, one, two)

  -- A refresh of a token that can be refreshed comes to the rotation, with the login lock free.
  auth_refresh-rotate :
      (now : ℕ) (ids : NewIds) (player_id token : String) (s : kv.State)
      → Refreshable kv now player_id token s
      → (s' : kv.State) × (auth_refresh kv sign now ids (some token) s ≡ (
        (rotate kv sign now ids player_id token s').0,
        release_refresh_lock kv now player_id (rotate kv sign now ids player_id token s').1,
      ))
        × (kv.value_at s' now (lock_key player_id) ≡ none)
  unfolding auth_refresh refresh_player key_eq
  auth_refresh-rotate now ids player_id token s r =
      let s₁ = (lookup_refresh_token kv now token s).1 in
      let s₂ = (acquire_refresh_lock kv now player_id s₁).1 in
      let (looked, locked) = lookup_and_lock now player_id token s r in
      let at =
        λ (j : Key). value_at-acquired now now player_id token j s (omega arith) r.not_refreshing in
      let stored : kv.value_at s₂ now (refresh_key player_id) ≡ some token =
        ground (arith, at (refresh_key player_id), r.is_stored) in
      let cool : kv.value_at s₂ now (refresh_cooldown_key player_id) ≡ none =
        ground (arith, at (refresh_cooldown_key player_id), r.not_cooling) in
      let free : kv.value_at s₂ now (lock_key player_id) ≡ none =
        ground (arith, at (lock_key player_id), r.not_locked) in
      let rotated = refresh_locked-rotate now ids player_id token s₂ stored cool in
      (
        (get_stored_refresh_token kv now player_id
            (is_refresh_cooling_down kv now player_id s₂).1).1,
        ground (arith, looked, locked, rotated),
        value_at-read now player_id (lock_key player_id) s₂ ∙ free,
      )

  -- A token that can be refreshed is refreshed, and if nothing else happens the new token can be
  -- refreshed in its turn, at any time from the end of the cooldown to the end of the thirty days
  -- of the new token. The token library signs, and the new token is not the old one.
  pub auth_refresh-Refreshable :
      (now t : ℕ) (ids : NewIds) (player_id token jwt : String) (s : kv.State)
      → Refreshable kv now player_id token s
      → sign player_id ids.jti ≡ some jwt
      → token ≢ ids.refresh_token
      → now + 3 < t
      → t ≤ now + refresh_ttl
      → ((auth_refresh kv sign now ids (some token) s).0 ≡ refreshed (response ids now jwt))
        × Refreshable kv t player_id ids.refresh_token
            (auth_refresh kv sign now ids (some token) s).1
  unfolding release_refresh_lock key_eq
  auth_refresh-Refreshable now t ids player_id token jwt s r signed other cooled h =
      let (s', path, free) = auth_refresh-rotate now ids player_id token s r in
      let le : now ≤ t = omega (arith, cooled) in
      let at = λ (j : Key). (value_at-rotate now t ids player_id token jwt j s' le signed free).1 in
      let (reply, _) =
        value_at-rotate now t ids player_id token jwt (lock_key player_id) s' le signed free in
      let s'' = (rotate kv sign now ids player_id token s').1 in
      let freed = λ (j : Key). laws.value_at-del now t (refresh_lock_key player_id ∷ []) j s'' le in
      let self = eq_iff player_id player_id in
      let locked =
        (value_at-enforce kv laws now t player_id ids.jti (lock_key player_id) s' le free).1 in
      (
        ground (arith, path, reply),
        record {
          looked_up = ground (
            arith,
            path,
            at (refresh_lookup_key ids.refresh_token),
            freed (refresh_lookup_key ids.refresh_token),
            eq_iff token ids.refresh_token,
            eq_iff ids.refresh_token ids.refresh_token,
            other,
            h,
          );
          is_stored =
              ground
                (arith, path, at (refresh_key player_id), freed (refresh_key player_id), self, h);
          not_refreshing = ground (arith, path, freed (refresh_lock_key player_id), self);
          not_cooling = ground (
            arith,
            path,
            at (refresh_cooldown_key player_id),
            freed (refresh_cooldown_key player_id),
            self,
            cooled,
          );
          not_locked =
              ground
                (arith, path, at (lock_key player_id), freed (lock_key player_id), self, locked);
        },
      )
