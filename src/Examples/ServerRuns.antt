-- ===== src/Examples/ServerRuns.antt =====
-- A server in production from an empty database: a player logs in, pulls, prays and asks for an
-- achievement, the server is started again, and the worker runs.
use stone_server.Prelude.{ℕ, pos, refl, arith, false, Option, none, some, [], ◌∷◌, String}
use stone_server.Kv.Memory.{MemStore, new_mem_store, lookup}
use stone_server.Tables.{PlayerRows, rare}
use stone_server.Gacha.Grant.{find_item}
use stone_server.Gacha.Handlers.{TimeText}
use stone_server.Vow.Rates.{VowTier}
use stone_server.Auth.{NewIds}
use stone_server.Auth.Bearer.{bearer}
use stone_server.Server.{
  World, database, Reach, here, after, request, tick, restart, restarted, serve,
}
use stone_server.Routes.{
  Settings, Outside, Arrival, Request, post_auth_steam, secured, post_gacha_pull, post_vow_pray,
  post_achievement_unlock, AchievementTables,
}
use stone_server.Achievement
use stone_server.Achievement.{retry_queue}
use stone_server.Achievement.Worker.Batch.{process_batch-run_items}
use stone_server.Kv.{key_eq}
use stone_server.Kv.Memory.Lists.{mem_list_laws}
use stone_server.Server.Sound.{WellFormed, Reach-WellFormed}
use stone_server.Server.Goods.{Accounted, Reach-Accounted}
use stone_server.Examples.Sample.{cairn, env_at, pool, game, random}
use stone_server.Examples.Tally.{tally, parse_tally, tally_kv}

abbrev tier : VowTier
tier = record {
  min_n_power = 0;
  max_n_power = 20;
  min_success_rate = 20000000;
  max_success_rate = 60000000;
}

abbrev pub settings : Settings
settings = record {
  development = false;
  one = 1;
  cairn = cairn;
  gacha = game;
  vow = record { required_item_count = 1; tiers = (rare, tier) ∷ []; allow_debug = false };
  pool = pool;
}

abbrev ids : NewIds
ids = record { player_id = "p"; jti = "j1"; refresh_token = "r1" }

abbrev text : TimeText
text = record { parse_time = λ s. none; format_time = λ t. "t" }

-- Every ticket is that of one user, and a token is the id of its session.
abbrev pub outside : Outside
outside = record {
  sign = λ player_id jti. some jti;
  read_claims = λ now jti. some (record { player_id = "p"; jti = jti });
  hash = λ ticket. ticket;
  steam = λ ticket. some (
      some (record {
        outcome = "OK";
        steam_id = "76";
        owner_steam_id = "76";
        vac_banned = false;
        publisher_banned = false;
      }));
  text = text;
  seed = λ q n. n;
  to_duration = pos;
  gacha_id = λ r. "";
  vow_id = λ r. "";
}

abbrev no_rows : PlayerRows
no_rows = record { state = none; inventories = []; slots = []; gacha_logs = []; vow_logs = [] }

abbrev start : World tally_kv
start = (record { players = []; rows = λ q. no_rows }, new_mem_store)

abbrev arrival : ℕ → Request → Arrival
arrival t r = record {
  env = env_at t;
  instants = record { at_set = t; at_incr = t; at_expire = t };
  client_ip = "::1";
  request = r;
}

abbrev logged_in : World tally_kv
logged_in =
    (serve tally_kv settings outside (arrival 100 (post_auth_steam ids (some "ticket"))) start).1

abbrev pull_request : Request
pull_request = secured (bearer "j1") (post_gacha_pull random (some (pos 0)))

abbrev pulled : World tally_kv
pulled = (serve tally_kv settings outside (arrival 300 pull_request) logged_in).1

abbrev pray_request : Request
pray_request = secured (bearer "j1") (
    post_vow_pray (some 0) random (
      some (record {
        materials = record { item_id = "mossy"; count = pos 1 } ∷ [];
        n_power = pos 5;
        debug_options = none;
      })))

abbrev prayed : World tally_kv
prayed = (serve tally_kv settings outside (arrival 400 pray_request) pulled).1

-- Steam refuses the achievement, and takes it when the worker sends it again.
abbrev pub steam_at : ℕ → Option String → Achievement.Env
steam_at t reply = record {
  now = t;
  fault = λ _. false;
  set_achievement = λ _ _. reply;
  error_text = "down";
}

abbrev pub no_tables : AchievementTables
no_tables = record { achievements = []; retries = [] }

abbrev unlock_request : Request
unlock_request =
    secured (bearer "j1")
      (post_achievement_unlock (steam_at 0 (some "busy")) no_tables (some "ACH_FIRST_PULL"))

abbrev unlocked : World tally_kv
unlocked = (serve tally_kv settings outside (arrival 420 unlock_request) prayed).1

-- The store that the server has once it has reloaded the queue.
abbrev reloaded : MemStore
reloaded = record { kv = []; lists = (retry_queue, "p:ACH_FIRST_PULL" ∷ []) ∷ [] }

abbrev reopened : World tally_kv
reopened = restarted tally_kv settings outside (env_at 500) reloaded unlocked

reached : (s : MemStore) × Reach tally_kv settings outside start (reopened.0, s)
unfolding lookup key_eq
reached =
    let envs = λ (n : ℕ). steam_at 550 none in
    let (s, batch, _) =
      process_batch-run_items tally_kv (mem_list_laws parse_tally tally) 10 envs 2
        (database reopened.0.players reopened.0.rows no_tables) reloaded (omega arith) in
    (
      s,
      after
          (after
            (after (after (after (after here (request _)) (request _)) (request _)) (request _))
            (restart (env_at 500) reloaded))
          (tick envs 2 no_tables batch),
    )

no_rows-WellFormed : (q : String) → WellFormed cairn (start.0.rows q)
no_rows-WellFormed q = record { fits = (tt, tt); stock = tt; held = tt; pulls = tt; vows = tt }

Reach-WellFormed_example : WellFormed cairn (reopened.0.rows "p")
Reach-WellFormed_example =
    Reach-WellFormed tally_kv settings outside no_rows-WellFormed reached.1 "p"

Reach-Accounted_example : Accounted "mossy" (reopened.0.rows "p")
unfolding find_item
Reach-Accounted_example =
    Reach-Accounted tally_kv settings outside refl no_rows-WellFormed (λ q id. refl) reached.1 "p"
      "mossy"
