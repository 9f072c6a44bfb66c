-- ===== src/Auth/Bearer.antt =====
-- internal/middleware/jwt.go: the check of the token that a request carries, and of its session.
-- `read_claims` knows the public key: `none` is a token that does not parse, whose signature is
-- not right, or that has expired.
use Prim.Native.String.{◌++◌}
use text.Mathlib.TextLemmas.{cons-append, nil-append}
use stone_server.Prelude.{
  ℕ, ◌+◌, ◌≤◌, ◌≡◌, ◌≢◌, refl, not, ◌||◌, Option, none, some, String, str_eq, eq_iff, if◌then◌else◌,
  split_once, split_once-append, has_char, arith, ap, ◌∙◌,
}
use stone_server.Kv
use stone_server.Kv.{KvStore, KvLaws, key_eq, found}
use stone_server.Session.{session_key, current_key, lock_key, session_ttl, enforce_single_session}
use stone_server.Session.Single.{enforce_single_session_lem}
use stone_server.Auth.{Claims}

-- SplitN(h, " ", 2); 32 is the space. No header is the empty one.
unfoldable pub bearer_token : String → Option String
unfolding split_once
bearer_token header = elim (split_once 32 header) [
  | none ↦ none
  | some (scheme, token) ↦
      if not (str_eq scheme "Bearer") || str_eq token "" then none else some token
]

pub data Guarded : Type 0 where
  next : Claims → Guarded
  missing_header invalid_token session_revoked store_unavailable : Guarded

module _ (read_claims : ℕ → String → Option Claims) where
  -- JWTSignatureAuth
  unfoldable pub jwt_signature_auth : ℕ → String → Guarded
  unfolding bearer_token
  jwt_signature_auth now header = elim (bearer_token header) [
    | none ↦ missing_header
    | some token ↦ elim (read_claims now token) [ none ↦ invalid_token | some claims ↦ next claims ]
  ]

  module _ (kv : KvStore) where
    -- JWTAuth
    unfoldable pub jwt_auth : ℕ → String → kv.State → Guarded × kv.State
    unfolding bearer_token
    jwt_auth now header s = elim (bearer_token header) [
      | none ↦ (missing_header, s)
      | some token ↦ elim (read_claims now token) [
        | none ↦ (invalid_token, s)
        | some claims ↦
            let (reply, s') = kv.get now (session_key claims.jti) s in
            elim reply [
              | Kv.ok v ↦ (next claims, s')
              | Kv.not_found ↦ (session_revoked, s')
              | Kv.failed ↦ (store_unavailable, s')
            ]
      ]
    ]

-- The header that names a token.
abbrev pub bearer : String → String
bearer token = "Bearer" ++ (" " ++ token)

space-first : (token : String) → split_once 32 (" " ++ token) ≡ some ("", token)
unfolding split_once
space-first token = rw (cons-append " " "" token) (rw (nil-append token) refl)

-- The header that a client builds is read back.
bearer_token-bearer : (token : String) → token ≢ "" → bearer_token (bearer token) ≡ some token
unfolding bearer_token has_char
bearer_token-bearer token h =
    let cut = split_once-append 32 "Bearer" (" " ++ token) token refl (space-first token) in
    ground (arith, cut, eq_iff token "", h)

module _ (read_claims : ℕ → String → Option Claims) (kv : KvStore) (laws : KvLaws kv) where
  pub jwt_auth-session :
      (now : ℕ) (token : String) (claims : Claims) (s : kv.State)
      → token ≢ ""
      → read_claims now token ≡ some claims
      → (jwt_auth read_claims kv now (bearer token) s).0
        ≡ elim (kv.value_at s now (session_key claims.jti)) [
          | none ↦ session_revoked
          | some v ↦ next claims
        ]
  unfolding jwt_auth
  jwt_auth-session now token claims s h e =
      ground (arith, bearer_token-bearer token h, e, laws.get-reply now (session_key claims.jti) s)

  -- After a login of a player with another session, made while no login of the player is in
  -- flight, the token of the old session is refused as revoked, and for a day that of the new one
  -- is let through, with the player and the session that it names. The two tokens are not empty
  -- and read as those of the two sessions.
  pub jwt_auth-enforce_single_session :
      (now t : ℕ) (player_id jti old token token' : String) (s : kv.State)
      → now ≤ t
      → t ≤ now + session_ttl
      → kv.value_at s now (lock_key player_id) ≡ none
      → kv.value_at s now (current_key player_id) ≡ some old
      → old ≢ ""
      → old ≢ jti
      → token ≢ ""
      → token' ≢ ""
      → read_claims t token ≡ some (record { player_id = player_id; jti = old })
      → read_claims t token' ≡ some (record { player_id = player_id; jti = jti })
      → ((jwt_auth read_claims kv t
            (bearer token)
            (enforce_single_session kv now player_id jti s).1).0
          ≡ session_revoked)
        × ((jwt_auth read_claims kv t
              (bearer token')
              (enforce_single_session kv now player_id jti s).1).0
            ≡ next (record { player_id = player_id; jti = jti }))
  jwt_auth-enforce_single_session now t player_id jti old token token' s h k free cur n o e e' r
        r' =
      let after = (enforce_single_session kv now player_id jti s).1 in
      let (_, live, _, dead, _) =
        enforce_single_session_lem kv laws now t player_id jti old s h k free cur n o in
      (
        jwt_auth-session t token _ after e r
            ∙ ap
                (λ v. elim v [
                  | none ↦ session_revoked
                  | some x ↦ next (record { player_id = player_id; jti = old })
                ])
                dead,
        jwt_auth-session t token' _ after e' r'
            ∙ ap
                (λ v. elim v [
                  | none ↦ session_revoked
                  | some x ↦ next (record { player_id = player_id; jti = jti })
                ])
                live,
      )
