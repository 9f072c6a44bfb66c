-- ===== src/Auth/Login/Ticket.antt =====
-- What a login leaves of the ticket that it claims, over any store that meets the laws.
use stone_server.Prelude.{
  ℕ, ◌+◌, ◌≤◌, ◌≡◌, Bool, true, none, some, [], ◌∷◌, String, arith, Option-cases, Result-cases,
  Bool-cases, inl, inr,
}
use stone_server.Kv.{KvStore, KvLaws, key_eq, key_eq_iff, is_some}
use stone_server.Tables.{Env}
use stone_server.Cairn
use stone_server.Session.{
  enforce_single_session, store_refresh_token, claim_ticket, release_ticket, ticket_key, ticket_ttl,
  lock_key, current_key, refresh_key, refresh_lookup_key, refresh_ttl,
}
use stone_server.Session.Single.{
  value_at-set_both, value_at-enforce, enforce_single_session-in_flight,
}
use stone_server.Auth.{Sign, Accounts, NewIds}
use stone_server.Auth.Steam.{Steam, authenticate_ticket}
use stone_server.Auth.Account.{prepare_player}
use stone_server.Auth.Login.{
  AuthReply, establish, log_in, log_in_steam, auth_steam, is_logged_in, unavailable,
}

module _ (kv : KvStore) (laws : KvLaws kv) where
  ticket-enforce :
      (now t : ℕ) (player_id jti hash : String) (s : kv.State)
      → now ≤ t
      → kv.value_at (enforce_single_session kv now player_id jti s).1 t (ticket_key hash)
        ≡ kv.value_at s t (ticket_key hash)
  unfolding key_eq
  ticket-enforce now t player_id jti hash s h =
      let j = ticket_key hash in
      elim (Option-cases (kv.value_at s now (lock_key player_id))) [
        | inr (holder, e) ↦
            (enforce_single_session-in_flight kv laws now t player_id jti holder j s h e).1
        | inl e ↦
            let (_, at) = value_at-enforce kv laws now t player_id jti j s h e in
            elim (Option-cases (kv.value_at s now (current_key player_id))) [
              | inl q ↦ ground (arith, at, q)
              | inr (old, q) ↦ ground (arith, at, q)
            ]
      ]

  ticket-store_refresh_token :
      (now t : ℕ) (player_id token hash : String) (s : kv.State)
      → now ≤ t
      → kv.value_at (store_refresh_token kv now player_id token s).1 t (ticket_key hash)
        ≡ kv.value_at s t (ticket_key hash)
  unfolding store_refresh_token key_eq
  ticket-store_refresh_token now t player_id token hash s h =
      let (_, at) =
        value_at-set_both kv laws now t (refresh_key player_id) (refresh_lookup_key token)
          (ticket_key hash) token player_id refresh_ttl s h in
      ground (arith, at)

  module _ (sign : Sign) where
    ticket-establish :
        (down : AuthReply) (env : Env) (ids : NewIds) (player_id hash : String) (acc : Accounts)
        (s : kv.State) (t : ℕ)
        → env.now ≤ t
        → kv.value_at (establish kv sign down env ids player_id acc s).1.1 t (ticket_key hash)
          ≡ kv.value_at s t (ticket_key hash)
    unfolding establish
    ticket-establish down env ids player_id hash acc s t h =
        let s₁ = (enforce_single_session kv env.now player_id ids.jti s).1 in
        ground (
          arith,
          ticket-enforce env.now t player_id ids.jti hash s h,
          ticket-store_refresh_token env.now t player_id ids.refresh_token hash s₁ h,
        )

    module _ (one : ℕ) (c : Cairn.Config) where
      ticket-log_in :
          (down : AuthReply) (streak : Bool) (env : Env) (ids : NewIds) (steam_id hash : String)
          (acc : Accounts) (s : kv.State) (t : ℕ)
          → env.now ≤ t
          → kv.value_at
              (log_in kv sign one c down streak env ids steam_id acc s).1.1
              t
              (ticket_key hash)
            ≡ kv.value_at s t (ticket_key hash)
      unfolding log_in
      ticket-log_in down streak env ids steam_id hash acc s t h =
          let (acc', prepared) = prepare_player one c streak env ids.player_id steam_id acc in
          elim (Result-cases prepared) [
            | inr (x, e) ↦ ground (arith, e)
            | inl (player_id, e) ↦
                ground (arith, e, ticket-establish down env ids player_id hash acc' s t h)
          ]

      ticket-log_in_steam :
          (sha : String → String) (steam : Steam) (env : Env) (ids : NewIds) (ticket hash : String)
          (acc : Accounts) (s : kv.State) (t : ℕ)
          → env.now ≤ t
          → kv.value_at
              (log_in_steam kv sign one c sha steam env ids ticket acc s).1.1
              t
              (ticket_key hash)
            ≡ kv.value_at s t (ticket_key hash)
      unfolding log_in_steam
      ticket-log_in_steam sha steam env ids ticket hash acc s t h =
          elim (Result-cases (authenticate_ticket steam ticket)) [
            | inl (steam_id, e) ↦
                ground (arith, e, ticket-log_in unavailable true env ids steam_id hash acc s t h)
            | inr (x, e) ↦ ground (arith, e)
          ]

      -- A ticket that was not in use is in use for its hour after the login just when the login
      -- has succeeded: a login that fails gives it back.
      pub auth_steam-ticket :
          (sha : String → String) (steam : Steam) (env : Env) (ids : NewIds) (ticket : String)
          (acc : Accounts) (s : kv.State) (t : ℕ)
          → env.now ≤ t
          → t ≤ env.now + ticket_ttl
          → kv.value_at s env.now (ticket_key (sha ticket)) ≡ none
          → is_some (
              kv.value_at
                (auth_steam kv sign one c sha steam env ids (some ticket) acc s).1.1
                t
                (ticket_key (sha ticket)))
            ≡ is_logged_in (auth_steam kv sign one c sha steam env ids (some ticket) acc s).0
      unfolding auth_steam claim_ticket release_ticket
      auth_steam-ticket sha steam env ids ticket acc s t h k free =
          let key = ticket_key (sha ticket) in
          let s₁ = (claim_ticket kv env.now (sha ticket) s).1 in
          let s₂ = (log_in_steam kv sign one c sha steam env ids ticket acc s₁).1.1 in
          let claimed = laws.set_nx-reply env.now key "1" ticket_ttl s in
          let held = laws.value_at-set_nx env.now t key key "1" ticket_ttl s h in
          let kept = ticket-log_in_steam sha steam env ids ticket (sha ticket) acc s₁ t h in
          let freed = laws.value_at-del env.now t (key ∷ []) key s₂ h in
          let done = (log_in_steam kv sign one c sha steam env ids ticket acc s₁).0 in
          elim (Bool-cases (is_logged_in done)) [
            | inl e ↦ ground (arith, e, claimed, held, kept, free, key_eq_iff key key, h, k)
            | inr e ↦ ground (arith, e, claimed, freed, free, key_eq_iff key key)
          ]
