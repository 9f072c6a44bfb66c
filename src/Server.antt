-- ===== src/Server.antt =====
-- cmd/server/main.go: the routes of the server and the middleware before them, as steps of a world
-- of the accounts and a store. The tables of the achievements are not in it: the routes that use
-- them take them as they are then. The store is any key-value store.
pub mod Slots
pub mod Rule
pub mod Frame
pub mod Sound
pub mod Goods
pub mod Cooldown
pub mod Boot
use stone_server.Prelude.{
  ℕ, ℤ, ◌≡◌, Bool, true, false, Option, none, some, List, [], ◌∷◌, ◌||◌, String, str_eq,
  if◌then◌else◌, ok, err,
}
use stone_server.Kv.{KvStore}
use stone_server.Tables.{PlayerState, PlayerRows, Env}
use stone_server.Cairn
use stone_server.Cairn.{set_state}
use stone_server.Cairn.Backfill.{backfill_cairn_slots}
use stone_server.Gacha.Handlers.{pull, get_status}
use stone_server.Gacha.Logs.{get_logs}
use stone_server.Vow.Pray.Handler.{pray}
use stone_server.Player.{get_state, sync}
use stone_server.Achievement
use stone_server.Achievement.{Database, default_max_retries}
use stone_server.Achievement.Unlock.{unlock, list_achievements}
use stone_server.Achievement.Worker.{process_batch}
use stone_server.Diag.Report.{economy_handler}
use stone_server.Health.{Check, health}
use stone_server.TimeGuard.{sync_time}
use stone_server.Auth.{Accounts, NewIds, with_rows}
use stone_server.Auth.Login.{AuthReply, auth_steam, auth_dev, dev_token}
use stone_server.Auth.Refresh.{auth_refresh}
use stone_server.Auth.Logout.{auth_logout}
use stone_server.Auth.Bearer.{Guarded, next, jwt_signature_auth, jwt_auth}
use stone_server.RateLimit.{rate_limiter}
use stone_server.Routes.{
  Settings, Outside, AchievementTables, Action, Request, Arrival, Response, route_of,
  delete_auth_logout, from_auth, from_economy, from_health, from_list, from_logout, from_logs,
  from_pray, from_pull, from_refresh, from_state, from_status, from_sync, from_time, from_unlock,
  get_achievement_list, get_dev_token, get_diag_economy, get_gacha_logs, get_gacha_status,
  get_health, get_player_state, no_route, post_achievement_unlock, post_auth_dev, post_auth_refresh,
  post_auth_steam, post_gacha_pull, post_player_sync, post_time_sync, post_vow_pray, refused_by,
  secured, too_many_requests,
}

-- UPDATE player_states SET last_sync_at = now WHERE last_sync_at IS NULL
unfoldable pub anchor_sync : ℕ → PlayerState → PlayerState
anchor_sync now st = elim st.last_sync_at [
  | none ↦ record st { last_sync_at = some now }
  | some t ↦ st
]

-- What the start of a server does to the rows of a player.
unfoldable pub reopened : Cairn.Config → Env → PlayerRows → PlayerRows
unfolding anchor_sync backfill_cairn_slots
reopened c env db = record (set_state (anchor_sync env.now) db) {
  slots = (backfill_cairn_slots c env db.slots).0;
}

-- FROM players: an id that is not in the table has no rows, as the foreign keys say.
unfoldable pub is_player : String → List (String × String) → Bool
is_player q [] = false
is_player q ((id, steam_id) ∷ players) = str_eq id q || is_player q players

-- The environment of an achievement route, at the time of the request.
abbrev at_time : Env → Achievement.Env → Achievement.Env
at_time env e = record e { now = env.now }

abbrev pub database : List (String × String) → (String → PlayerRows) → AchievementTables → Database
database players rows t = record {
  steam_ids = players;
  player_rows = rows;
  achievements = t.achievements;
  retries = t.retries;
}

module _ (kv : KvStore) where
  abbrev pub World : Type 0
  World = Accounts × kv.State

  module _ (cfg : Settings) (out : Outside) where
    -- The handler of a secured route, for the player that the token names.
    unfoldable pub act :
        Env
        → List (String × String)
        → String
        → Action
        → PlayerRows
        → kv.State
        → Response × (PlayerRows × kv.State)
    unfolding get_state sync get_status get_logs pull pray unlock list_achievements
    act env players q get_player_state db s =
        let (db', reply) = get_state cfg.cairn (out.seed q) env db in (from_state reply, (db', s))
    act env players q post_player_sync db s =
        let (db', reply) = sync cfg.cairn (out.seed q) env db in (from_sync reply, (db', s))
    act env players q get_gacha_status db s =
        let (reply, s') = get_status kv out.text q env db s in (from_status reply, (db, s'))
    act env players q (post_gacha_pull random body) db s =
        let (reply, db', s') =
          pull kv out.text q cfg.gacha cfg.cairn cfg.pool (out.seed q) random env body db s in
        (from_pull reply, (db', s'))
    act env players q (post_vow_pray bits random body) db s =
        let (db', reply) = pray cfg.vow cfg.pool bits random env body db in
        (from_pray reply, (db', s))
    act env players q (get_gacha_logs page limit) db s =
        (from_logs (get_logs env page limit db), (db, s))
    act env players q (post_achievement_unlock e t id) db s =
        let (reply, (_, s')) = unlock kv (at_time env e) q id (database players (λ _. db) t) s in
        (from_unlock reply, (db, s'))
    act env players q (get_achievement_list e t) db s =
        let reply = list_achievements (at_time env e) q (database players (λ _. db) t) in
        (from_list reply, (db, s))

    -- JWTAuth, then RateLimiter, then the handler.
    unfoldable pub serve_secured : Arrival → String → Action → World → Response × World
    unfolding jwt_auth rate_limiter act
    serve_secured a header action (acc, s) =
        let (guard, s₁) = jwt_auth out.read_claims kv a.env.now header s in
        let (method, path) = route_of action in
        elim guard [
          | next claims ↦
              let q = claims.player_id in
              let (passed, s₂) = rate_limiter kv a.instants (some q) a.client_ip method path s₁ in
              let (response, (db, s₃)) = act a.env acc.players q action (acc.rows q) s₂ in
              if passed
              then (response, (with_rows q db acc, s₃))
              else (too_many_requests, (acc, s₂))
          | Guarded.missing_header ↦ (refused_by Guarded.missing_header, (acc, s₁))
          | Guarded.invalid_token ↦ (refused_by Guarded.invalid_token, (acc, s₁))
          | Guarded.session_revoked ↦ (refused_by Guarded.session_revoked, (acc, s₁))
          | Guarded.store_unavailable ↦ (refused_by Guarded.store_unavailable, (acc, s₁))
        ]

    -- The public group: the rate limiter, which knows no player, and the handler.
    unfoldable pub serve_public :
        Arrival → String → String → (World → Response × World) → World → Response × World
    unfolding rate_limiter
    serve_public a method path handler (acc, s) =
        let (passed, s₁) = rate_limiter kv a.instants none a.client_ip method path s in
        if passed then handler (acc, s₁) else (too_many_requests, (acc, s₁))

    unfoldable pub serve_logout : Env → String → World → Response × World
    unfolding jwt_signature_auth auth_logout
    serve_logout env header (acc, s) = elim (jwt_signature_auth out.read_claims env.now header) [
      | next claims ↦
          let (reply, s') = auth_logout kv env.now claims s in (from_logout reply, (acc, s'))
      | guard ↦ (refused_by guard, (acc, s))
    ]

    abbrev pub in_development : (World → Response × World) → World → Response × World
    in_development handler w = if cfg.development then handler w else (no_route, w)

    abbrev pub answer : AuthReply × World → Response × World
    answer (reply, w) = (from_auth reply, w)

    abbrev pub steam_handler : Env → NewIds → Option String → World → Response × World
    steam_handler env ids ticket (acc, s) =
        answer (auth_steam kv out.sign cfg.one cfg.cairn out.hash out.steam env ids ticket acc s)

    abbrev pub dev_handler : Env → NewIds → Option String → World → Response × World
    dev_handler env ids uuid (acc, s) =
        answer (auth_dev kv out.sign cfg.one cfg.cairn env ids uuid acc s)

    abbrev pub refresh_handler : Env → NewIds → Option String → World → Response × World
    refresh_handler env ids token (acc, s) =
        let (reply, s') = auth_refresh kv out.sign env.now ids token s in
        (from_refresh reply, (acc, s'))

    abbrev pub dev_token_handler : Env → NewIds → String → World → Response × World
    dev_token_handler env ids steam_id (acc, s) =
        answer (dev_token kv out.sign cfg.one cfg.cairn env ids steam_id acc s)

    abbrev pub health_handler : Bool → Bool → List Check → World → Response × World
    health_handler db_up cache_up order w = (from_health (health db_up cache_up order), w)

    abbrev pub time_handler : ℕ → Option ℕ → World → Response × World
    time_handler server client w = (from_time (sync_time out.to_duration server client), w)

    abbrev economy_route : Env → String → World → Response × World
    economy_route env id w =
        (from_economy (economy_handler out.gacha_id out.vow_id env id (w.0.rows id)), w)

    unfoldable pub serve : Arrival → World → Response × World
    unfolding serve_secured serve_public serve_logout auth_steam auth_dev auth_refresh dev_token
        health sync_time economy_handler
    serve a w = elim a.request [
      | post_auth_steam ids ticket ↦
          serve_public a "POST" "/api/v1/auth/steam" (steam_handler a.env ids ticket) w
      | post_auth_dev ids uuid ↦
          in_development (serve_public a "POST" "/api/v1/auth/dev" (dev_handler a.env ids uuid)) w
      | post_auth_refresh ids token ↦
          serve_public a "POST" "/api/v1/auth/refresh" (refresh_handler a.env ids token) w
      | delete_auth_logout header ↦ serve_logout a.env header w
      | get_dev_token ids steam_id ↦ in_development (dev_token_handler a.env ids steam_id) w
      | get_diag_economy id ↦ in_development (economy_route a.env id) w
      | get_health db_up cache_up order ↦
          serve_public a "GET" "/api/v1/health" (health_handler db_up cache_up order) w
      | post_time_sync server client ↦
          serve_public a "POST" "/api/v1/time/sync" (time_handler server client) w
      | secured header action ↦ serve_secured a header action w
    ]

    abbrev pub restarted : Env → kv.State → World → World
    restarted env s w =
        let rows = λ (q : String).
          if is_player q w.0.players then reopened cfg.cairn env (w.0.rows q) else w.0.rows q in
        (record w.0 { rows = rows }, s)

    -- A request, a tick of the worker, or a restart, after which the store is whatever it is then.
    pub data Step (w : World) : World → Type 0 where
      request : (a : Arrival) → Step w (serve a w).1
      -- A tick of the worker, whose batch comes to an end.
      tick :
          (envs : ℕ → Achievement.Env)
          → (fuel : ℕ) → (t : AchievementTables) → {d : Database} → {s : kv.State}
          → process_batch kv default_max_retries envs fuel (database w.0.players w.0.rows t) w.1
            ≡ some (d, s)
          → Step w (w.0, s)
      restart : (env : Env) (s : kv.State) → Step w (restarted env s w)

    pub data Reach (w : World) : World → Type 0 where
      here : Reach w w
      after : {u v : World} → Reach w u → Step u v → Reach w v
