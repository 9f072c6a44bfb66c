-- ===== src/Lib.antt =====
-- stone_server: the game server of a stone-collecting game, in Go.
--
-- A player gathers enlightenment points, which accrue with time, and the layers of a wish cairn,
-- which grow with time. A complete slot of the cairn and some points buy a pull: a random skin of
-- the pool (gacha). Skins and points are offered for a vow, which crafts a skin of the next rarity
-- or falls back to the rarity that was offered. A pull and a vow run their statements in
-- one transaction on the player's rows; the cooldown of the pulls is also kept in a key-value store.
-- A player logs in with a ticket of Steam, which begins a session and re-anchors the clocks; the
-- sessions and the refresh tokens are in the store. Achievements are sent to Steam, and a worker
-- sends again what Steam has not taken.
--
-- The parts of the program, and the files that model them:
-- - pkg/sqlitedb/sqlitedb.go, the schema: Tables. `PlayerRows` are the rows of one player, since
--   every statement selects by `player_id`. `Env` is the instant at which a request runs, and
--   which of its statements fail; `charge_points` is the accrual and the charge that pulls and
--   vows share.
-- - internal/cairn/cairn.go: Cairn. `apply_growth` is `ApplyGrowth`, cut into `plan_growth` (what
--   is read) and `commit_growth` (what is written), so that two requests can interleave; Steps has
--   the abstract growth that it implements.
-- - internal/gacha/rng.go, pool.go, grant.go, gacha.go: Gacha, with Rng, Pool, Grant, Pull (the
--   transaction `execPull`), Handlers and Logs.
-- - internal/vow/vow.go: Vow, with Rates (`computeRarities`, `calcSuccessRate`), Pray (`execPray`)
--   and Pray/Handler (`Pray`).
-- - pkg/kvstore/kvstore.go, memory.go: Kv, an interface with its laws, and Kv/Memory.
-- - internal/auth/session.go: Session, over any store that meets the laws of Kv.
-- - internal/auth/handler.go, devauth.go, devtoken.go, steam.go, refresh.go and
--   internal/middleware/jwt.go: Auth, with Steam (`validateTicketParams`), Account (the steps on the
--   tables), Login (`AuthSteam`, `AuthDev`, `DevToken`), Refresh (`AuthRefresh`), Logout
--   (`AuthLogout`) and Bearer (`JWTAuth`).
-- - internal/player/player.go: Player (`Sync`, `GetState`), over the rows and the cairn.
-- - internal/achievement/conditions.go, handler.go, worker.go: Achievement, with Conditions, Unlock
--   (`Unlock`, `List`) and Worker (`processBatch`, `ReloadPendingRetries`), over a store whose
--   lists meet the laws of Kv. `run_items` is the abstract batch.
-- - internal/middleware/ratelimit.go: RateLimit, over any such store.
-- - internal/diag/economy.go: Diag, the audit of the ledger, and Diag/Report; Diag/Honest has
--   the ledgers that the charges and syncs of a player write.
-- - internal/timeguard/timeguard.go: TimeGuard.
-- - pkg/store/time.go: ScanTime. internal/achievement/steam.go: Achievement/Steam.
-- - pkg/config/config.go: EnvConfig. pkg/sqlitedb/sqlitedb.go, `backfillCairnSlots`: Cairn/Backfill.
-- - pkg/gameconfig/gameconfig.go: GameConfig, the validation of the tiers (GameConfig/Tiers) and
--   of the values (GameConfig/Accepted), and `Load` (GameConfig/Load).
-- - pkg/sqlitedb/sqlitedb.go, `New`: Sqlite, over any driver that does what SQLite documents.
-- - internal/middleware/recovery.go and logging.go: Middleware. internal/health/handler.go: Health.
-- - cmd/server/main.go: Routes (the requests), and Server, with `serve` (the routes and their
--   middleware), `Step` and `Reach` (the worlds that requests, ticks of the worker and restarts
--   lead to), and Server/Boot (what `main` refuses). Server/Rule is the rule for invariants of all
--   players' rows; Server/Sound, Goods and Cooldown apply it.
-- Examples has concrete players and requests at which the theorems are applied.
--
-- How state is modelled: a handler takes the player's rows and returns them changed, with a result
-- or an error of Tables; a transaction that ends in an error leaves the rows that it began with.
-- A statement that fails, at whatever point, is the Boolean `fault` of the environment.
--
-- Bounds: a request runs at one instant. Times are whole seconds since the epoch, which the stored
-- texts have, and durations do not overflow. Points, costs and rates are counted exactly in a
-- small unit; the rounding of REAL and float64 is not modelled. The counts of materials are int64,
-- and their sums wrap. The counters of the key-value store are unbounded. The loops are structural
-- recursion: a growth of n steps recurs on n. The two loops that pop the queue of the achievements
-- until it is empty run on fuel, and fuel for one round more than there are items is enough.
--
-- Parameters: the hash that seeds a growth step, the random numbers, the string functions of Go,
-- the texts of times and numbers; SHA-256, the signing and the parsing of tokens, the answers of
-- Steam, new UUIDs. Keys of the store are kept as the format and its argument.
--
-- Not modelled: HTTP itself, the sinks of the logs, the drivers of the databases and of Redis with
-- their adapters, the migrations of PostgreSQL, the parsing of keys and of XML, the goroutines that
-- call the sweeper and the worker, and the shutdown. A request is one step of the server; of the
-- interleavings within requests, only those of the growth, of the claims of the store and of the
-- unlocks are modelled, in their own files.
pub mod Prelude
pub mod Tables
pub mod Sqlite
pub mod Cairn
pub mod Kv
pub mod Gacha
pub mod Session
pub mod Auth
pub mod Player
pub mod Achievement
pub mod RateLimit
pub mod Vow
pub mod GameConfig
pub mod EnvConfig
pub mod Diag
pub mod TimeGuard
pub mod ScanTime
pub mod Health
pub mod Middleware
pub mod Routes
pub mod Server
pub mod Examples
