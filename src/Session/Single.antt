-- ===== src/Session/Single.antt =====
-- What logging in and logging out leave in the store, over any store that meets the laws.
use stone_server.Prelude.{
  ℕ, ◌+◌, ◌≤◌, ◌≡◌, ◌≢◌, Bool, false, ◌&&◌, ◌||◌, not, Option, none, some, [], ◌∷◌, String, str_eq,
  eq_iff, if◌then◌else◌, arith, Option-cases, inl, inr,
}
use stone_server.Kv.{Key, KvStore, KvLaws, written, key_eq}
use stone_server.Session.{
  session_ttl, session_key, current_key, lock_key, refresh_key, enforced, session_in_flight,
  drop_current, set_both, enforce_single_session, logout_session,
}

module _ (kv : KvStore) (laws : KvLaws kv) where
  -- Whether the session under this key is the one that is dropped.
  abbrev pub is_dropped : Option String → Key → Bool
  is_dropped none j = false
  is_dropped (some old) j = not (str_eq old "") && key_eq (session_key old) j

  pub value_at-drop_current :
      (now t : ℕ) (player_id : String) (j : Key) (s : kv.State)
      → now ≤ t
      → kv.value_at (drop_current kv now player_id s) t j ≡ (
          if is_dropped (kv.value_at s now (current_key player_id)) j
          then none
          else kv.value_at s t j)
  unfolding drop_current
  value_at-drop_current now t player_id j s h =
      let cur = current_key player_id in
      let s' = (kv.get now cur s).1 in
      elim (Option-cases (kv.value_at s now cur)) [
        | inl q ↦ ground (arith, q, laws.get-reply now cur s, laws.value_at-get now t cur j s h)
        | inr (old, q) ↦ ground (
          arith,
          q,
          laws.get-reply now cur s,
          laws.value_at-get now t cur j s h,
          laws.value_at-del now t (session_key old ∷ []) j s' h,
        )
      ]

  pub value_at-set_both :
      (now t : ℕ) (k k' j : Key) (v v' : String) (ttl : ℕ) (s : kv.State)
      → now ≤ t
      → ((set_both kv now k v k' v' ttl s).0 ≡ enforced)
        × (kv.value_at (set_both kv now k v k' v' ttl s).1 t j ≡ (
            if key_eq k' j
            then written now ttl t v'
            else if key_eq k j
            then written now ttl t v
            else kv.value_at s t j))
  unfolding set_both
  value_at-set_both now t k k' j v v' ttl s h =
      let s' = (kv.set now k v ttl s).1 in
      let first = laws.set-reply now k v ttl s in
      let second = laws.set-reply now k' v' ttl s' in
      let one = laws.value_at-set now t k j v ttl s h in
      let two = laws.value_at-set now t k' j v' ttl s' h in
      (ground (arith, first, second), ground (arith, first, second, one, two))

  -- Under a free lock, what a reader finds under any key after the session is enforced.
  pub value_at-enforce :
      (now t : ℕ) (player_id jti : String) (j : Key) (s : kv.State)
      → now ≤ t
      → kv.value_at s now (lock_key player_id) ≡ none
      → ((enforce_single_session kv now player_id jti s).0 ≡ enforced)
        × (kv.value_at (enforce_single_session kv now player_id jti s).1 t j ≡ (
            if key_eq (lock_key player_id) j
            then none
            else if key_eq (current_key player_id) j
            then written now session_ttl t jti
            else if key_eq (session_key jti) j
            then written now session_ttl t "1"
            else if is_dropped (kv.value_at s now (current_key player_id)) j
            then none
            else kv.value_at s t j))
  unfolding enforce_single_session key_eq
  value_at-enforce now t player_id jti j s h free =
      let lock = lock_key player_id in
      let cur = current_key player_id in
      let s₁ = (kv.set_nx now lock "1" 5 s).1 in
      let s₂ = drop_current kv now player_id s₁ in
      let s₃ = (set_both kv now (session_key jti) "1" cur jti session_ttl s₂).1 in
      let locked = laws.set_nx-reply now lock "1" 5 s in
      let (ok_set, set) =
        value_at-set_both now t (session_key jti) cur j "1" jti session_ttl s₂ h in
      let dropped = value_at-drop_current now t player_id j s₁ h in
      let was = laws.value_at-set_nx now now lock cur "1" 5 s (omega arith) in
      let kept = laws.value_at-set_nx now t lock j "1" 5 s h in
      let freed = laws.value_at-del now t (lock ∷ []) j s₃ h in
      (
        ground (arith, free, locked, ok_set),
        ground (arith, free, locked, ok_set, set, dropped, was, kept, freed),
      )

  -- Logging in while no login of the player is in flight ends the session that was current: for a
  -- day the new session is the current one and is there, the old one is gone, unless it is the
  -- same, and the lock is free again.
  pub enforce_single_session_lem :
      (now t : ℕ) (player_id jti old : String) (s : kv.State)
      → now ≤ t
      → t ≤ now + session_ttl
      → kv.value_at s now (lock_key player_id) ≡ none
      → kv.value_at s now (current_key player_id) ≡ some old
      → old ≢ ""
      → old ≢ jti
      → ((enforce_single_session kv now player_id jti s).0 ≡ enforced)
        × (kv.value_at (enforce_single_session kv now player_id jti s).1 t (session_key jti)
            ≡ some "1")
        × (kv.value_at (enforce_single_session kv now player_id jti s).1 t (current_key player_id)
            ≡ some jti)
        × (kv.value_at (enforce_single_session kv now player_id jti s).1 t (session_key old) ≡ none)
        × (kv.value_at (enforce_single_session kv now player_id jti s).1 t (lock_key player_id)
            ≡ none)
  unfolding key_eq
  enforce_single_session_lem now t player_id jti old s h k free was named other =
      let at = λ (j : Key). (value_at-enforce now t player_id jti j s h free).1 in
      (
        (value_at-enforce now t player_id jti (session_key jti) s h free).0,
        ground (arith, at (session_key jti), eq_iff jti jti),
        ground (arith, at (current_key player_id), eq_iff player_id player_id),
        ground (
          arith,
          at (session_key old),
          was,
          named,
          other,
          eq_iff jti old,
          eq_iff old "",
          eq_iff old old,
        ),
        ground (arith, at (lock_key player_id), eq_iff player_id player_id),
      )

  -- A login while another one of the player holds the lock is refused and changes nothing that a
  -- reader finds.
  pub enforce_single_session-in_flight :
      (now t : ℕ) (player_id jti holder : String) (j : Key) (s : kv.State)
      → now ≤ t
      → kv.value_at s now (lock_key player_id) ≡ some holder
      → ((enforce_single_session kv now player_id jti s).0 ≡ session_in_flight)
        × (kv.value_at (enforce_single_session kv now player_id jti s).1 t j ≡ kv.value_at s t j)
  unfolding enforce_single_session
  enforce_single_session-in_flight now t player_id jti holder j s h held =
      let locked = laws.set_nx-reply now (lock_key player_id) "1" 5 s in
      let kept = laws.value_at-set_nx now t (lock_key player_id) j "1" 5 s h in
      (ground (arith, held, locked), ground (arith, held, locked, kept))

  -- Logging out of the current session removes it, the pointer to it and the refresh token;
  -- logging out of another one removes that one alone.
  pub value_at-logout_session :
      (now t : ℕ) (player_id jti cur : String) (j : Key) (s : kv.State)
      → now ≤ t
      → kv.value_at s now (current_key player_id) ≡ some cur
      → kv.value_at (logout_session kv now player_id jti s) t j ≡ (
          if key_eq (session_key jti) j
          then none
          else if str_eq cur jti
              && (key_eq (current_key player_id) j || key_eq (refresh_key player_id) j)
          then none
          else kv.value_at s t j)
  unfolding logout_session
  value_at-logout_session now t player_id jti cur j s h was =
      let key = current_key player_id in
      let s' = (kv.get now key s).1 in
      ground (
        arith,
        was,
        laws.get-reply now key s,
        laws.value_at-get now t key j s h,
        laws.value_at-del now t (session_key jti ∷ key ∷ refresh_key player_id ∷ []) j s' h,
        laws.value_at-del now t (session_key jti ∷ []) j s' h,
      )
