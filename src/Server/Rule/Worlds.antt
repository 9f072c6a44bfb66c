-- ===== src/Server/Rule/Worlds.antt =====
-- The rule, for requests, steps and worlds that are reached.
use stone_server.Prelude.{◌≡◌, ◌⊎◌, refl, none, some, String, arith, Bool-cases, inl, inr}
use stone_server.Kv.{KvStore}
use stone_server.Tables.{PlayerRows, Env}
use stone_server.Auth.{Accounts, Claims, with_rows}
use stone_server.Auth.Bearer.{
  Guarded, next, missing_header, invalid_token, session_revoked, store_unavailable,
  jwt_signature_auth, jwt_auth,
}
use stone_server.RateLimit.{rate_limiter}
use stone_server.Server.Rule.{Kept}
use stone_server.Server.Rule.Logins.{
  Everyone, act-Kept, with_rows-Everyone, auth_steam-Everyone, auth_dev-Everyone,
  dev_token-Everyone,
}
use stone_server.Server.{
  act, serve_secured, serve_public, serve_logout, steam_handler, dev_handler, refresh_handler,
  health_handler, time_handler, serve, restarted, is_player, World, request, restart, tick, Reach,
  here, after,
}
use stone_server.Routes.{
  Settings, Outside, Action, route_of, Arrival, Request, Response, post_auth_steam, post_auth_dev,
  post_auth_refresh, delete_auth_logout, get_dev_token, get_diag_economy, get_health,
  post_time_sync, secured,
}

abbrev Refusal : Guarded → Type 0
Refusal g =
    (g ≡ missing_header) ⊎ ((g ≡ invalid_token) ⊎ ((g ≡ session_revoked) ⊎ (g ≡ store_unavailable)))

-- The claims that a guard lets through, or its refusal.
Guarded-cases : (g : Guarded) → ((c : Claims) × (g ≡ next c)) ⊎ Refusal g
Guarded-cases (next c) = inl (c, refl)
Guarded-cases missing_header = inr (inl refl)
Guarded-cases invalid_token = inr (inr (inl refl))
Guarded-cases session_revoked = inr (inr (inr (inl refl)))
Guarded-cases store_unavailable = inr (inr (inr (inr refl)))

module _ (kv : KvStore) (cfg : Settings) (out : Outside) where
  -- A request that the guard or the rate limiter refuses changes no rows.
  pub serve_secured-rows :
      (a : Arrival) (header : String) (action : Action) (acc : Accounts) (s : kv.State)
      → ((serve_secured kv cfg out a header action (acc, s)).1.0 ≡ acc)
        ⊎ ((c : Claims) × (s' : kv.State) × ((jwt_auth out.read_claims kv a.env.now header s).0
              ≡ next c)
            × ((serve_secured kv cfg out a header action (acc, s)).1.0
                ≡ with_rows c.player_id
                    (act kv cfg out a.env acc.players c.player_id action
                      (acc.rows c.player_id)
                      s').1.0
                    acc))
  unfolding serve_secured
  serve_secured-rows a header action acc s =
      let (guard, s₁) = jwt_auth out.read_claims kv a.env.now header s in
      let (method, path) = route_of action in
      elim (Guarded-cases guard) [
        | inr refused ↦ inl (ground (arith, refused))
        | inl (c, e) ↦
            let (passed, s₂) =
              rate_limiter kv a.instants (some c.player_id) a.client_ip method path s₁ in
            elim (Bool-cases passed) [
              | inr e' ↦ inl (ground (arith, e, e'))
              | inl e' ↦ inr (c, s₂, e, ground (arith, e, e'))
            ]
      ]

  module _ (I : String → PlayerRows → Type 0) (kept : Kept cfg I) where
    serve_secured-Everyone :
        (a : Arrival) (header : String) (action : Action) (acc : Accounts) (s : kv.State)
        → Everyone kv cfg out I kept acc
        → Everyone kv cfg out I kept (serve_secured kv cfg out a header action (acc, s)).1.0
    serve_secured-Everyone a header action acc s h =
        elim (serve_secured-rows a header action acc s) [
          | inl same ↦ rw same h
          | inr (c, s', guard, same) ↦
              let q = c.player_id in
              rw same (
                with_rows-Everyone kv cfg out I kept q _ acc h
                  (act-Kept kv cfg out I kept a.env acc.players q action (acc.rows q) s' (h q)))
        ]

    serve_public-Everyone :
        (a : Arrival) (method path : String) (handler : World kv → Response × World kv)
        (w : World kv)
        → ((s : kv.State) → Everyone kv cfg out I kept (handler (w.0, s)).1.0)
        → Everyone kv cfg out I kept w.0
        → Everyone kv cfg out I kept (serve_public kv cfg out a method path handler w).1.0
    unfolding serve_public
    serve_public-Everyone a method path handler (acc, s) k h =
        let (passed, s₁) = rate_limiter kv a.instants none a.client_ip method path s in
        elim (Bool-cases passed) [
          | inl e ↦ rw (e, serve_public) (k s₁)
          | inr e ↦ rw (e, serve_public) h
        ]

    serve_logout-rows :
        (env : Env) (header : String) (acc : Accounts) (s : kv.State)
        → (serve_logout kv cfg out env header (acc, s)).1.0 ≡ acc
    unfolding serve_logout
    serve_logout-rows env header acc s =
        ground (arith, Guarded-cases (jwt_signature_auth out.read_claims env.now header))

    abbrev Answered : Arrival → Accounts → kv.State → Type 0
    Answered a acc s = Everyone kv cfg out I kept (serve kv cfg out a (acc, s)).1.0

    answered :
        (a : Arrival) (r : Request) (acc : Accounts) (s : kv.State)
        → Everyone kv cfg out I kept acc
        → Answered (record a { request = r }) acc s
    unfolding serve
    answered a (post_auth_steam ids ticket) acc s h =
        serve_public-Everyone (record a { request = post_auth_steam ids ticket }) "POST"
          "/api/v1/auth/steam" (steam_handler kv cfg out a.env ids ticket) (acc, s)
          (λ s'. auth_steam-Everyone kv cfg out I kept a.env ids ticket acc s' h) h
    answered a (post_auth_dev ids uuid) acc s h = elim (Bool-cases cfg.development) [
      | inr e ↦ rw (e, serve) h
      | inl e ↦
          rw (e, serve)
            (serve_public-Everyone (record a { request = post_auth_dev ids uuid }) "POST"
              "/api/v1/auth/dev" (dev_handler kv cfg out a.env ids uuid) (acc, s)
              (λ s'. auth_dev-Everyone kv cfg out I kept a.env ids uuid acc s' h) h)
    ]
    answered a (post_auth_refresh ids token) acc s h =
        serve_public-Everyone (record a { request = post_auth_refresh ids token }) "POST"
          "/api/v1/auth/refresh" (refresh_handler kv cfg out a.env ids token) (acc, s) (λ s'. h) h
    answered a (delete_auth_logout header) acc s h =
        rw (serve_logout-rows a.env header acc s, serve) h
    answered a (get_dev_token ids steam_id) acc s h = elim (Bool-cases cfg.development) [
      | inr e ↦ rw (e, serve) h
      | inl e ↦ rw (e, serve) (dev_token-Everyone kv cfg out I kept a.env ids steam_id acc s h)
    ]
    answered a (get_diag_economy id) acc s h = elim (Bool-cases cfg.development) [
      | inr e ↦ rw (e, serve) h
      | inl e ↦ rw (e, serve) h
    ]
    answered a (get_health db_up cache_up order) acc s h =
        serve_public-Everyone (record a { request = get_health db_up cache_up order }) "GET"
          "/api/v1/health" (health_handler kv cfg out db_up cache_up order) (acc, s) (λ s'. h) h
    answered a (post_time_sync server client) acc s h =
        serve_public-Everyone (record a { request = post_time_sync server client }) "POST"
          "/api/v1/time/sync" (time_handler kv cfg out server client) (acc, s) (λ s'. h) h
    answered a (secured header action) acc s h =
        serve_secured-Everyone (record a { request = secured header action }) header action acc s h

    restarted-Everyone :
        (env : Env) (s : kv.State) (w : World kv)
        → Everyone kv cfg out I kept w.0
        → Everyone kv cfg out I kept (restarted kv cfg out env s w).0
    restarted-Everyone env s w h q = elim (Bool-cases (is_player q w.0.players)) [
      | inl e ↦ rw e (kept.by_reopen q env (w.0.rows q) (h q))
      | inr e ↦ rw e (h q)
    ]

    -- What the transactions and the statements keep holds of every player in every world that is
    -- reached from one in which it does.
    pub Reach-Everyone :
        {w v : World kv}
        → Everyone kv cfg out I kept w.0
        → Reach kv cfg out w v
        → Everyone kv cfg out I kept v.0
    Reach-Everyone h here = h
    Reach-Everyone h (after r (request a)) = answered a a.request _ _ (Reach-Everyone h r)
    Reach-Everyone h (after r (tick envs fuel t e)) = Reach-Everyone h r
    Reach-Everyone h (after {u} r (restart env s)) = restarted-Everyone env s u (Reach-Everyone h r)
