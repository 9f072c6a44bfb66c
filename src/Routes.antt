-- ===== src/Routes.antt =====
-- cmd/server/main.go: the requests of the server and their routes. A response stands for the status
-- and the body. What is not the repository's own code is in `Outside`.
use stone_server.Prelude.{ℕ, ℤ, Bool, Option, List, String, Result}
use stone_server.Tables.{Env, Error, GachaLog, VowLog}
use stone_server.Cairn
use stone_server.Gacha.Pool.{SkinPool, Seed}
use stone_server.Gacha.Pull.{GameConfig}
use stone_server.Gacha.Handlers.{TimeText, PullReply, StatusReply}
use stone_server.Gacha.Logs.{LogsResponse}
use stone_server.Vow.Pray.{PrayRequest}
use stone_server.Vow.Pray.Handler.{VowConfig, PrayReply}
use stone_server.Player.{StateReply, SyncReply}
use stone_server.Achievement
use stone_server.Achievement.{Unlocked, RetryRow}
use stone_server.Achievement.Unlock.{UnlockReply, ListReply}
use stone_server.Diag.Report.{EconomyReply}
use stone_server.Health.{Health, Check}
use stone_server.TimeGuard
use stone_server.Auth.{Sign, Claims, NewIds}
use stone_server.Auth.Steam.{Steam}
use stone_server.Auth.Login.{AuthReply}
use stone_server.Auth.Refresh.{RefreshReply}
use stone_server.Auth.Logout.{LogoutReply}
use stone_server.Auth.Bearer.{Guarded}
use stone_server.RateLimit.{Instants}

-- What `main` hands to the handlers. `one` is the number of units of a point.
pub record Settings : Type 0 where
  pub development : Bool
  pub one : ℕ
  pub cairn : Cairn.Config
  pub gacha : GameConfig
  pub vow : VowConfig
  pub pool : SkinPool

-- The token library, the hash, Steam, the texts of times, the seeds of a player's growth, the
-- conversion of a float64 to a duration, and the primary keys of the logs.
pub record Outside : Type 0 where
  pub sign : Sign
  pub read_claims : ℕ → String → Option Claims
  pub hash : String → String
  pub steam : Steam
  pub text : TimeText
  pub seed : String → ℕ → ℕ
  pub to_duration : ℕ → ℤ
  pub gacha_id : GachaLog → String
  pub vow_id : VowLog → String

-- The tables of the achievements: the routes of the achievements and the worker take them as they
-- are then.
pub record AchievementTables : Type 0 where
  pub achievements : List Unlocked
  pub retries : List RetryRow

-- The secured routes, with what crypto/rand gives to them and the body of the request.
pub data Action : Type 0 where
  get_player_state post_player_sync get_gacha_status : Action
  get_gacha_logs : ℤ → ℤ → Action
  post_gacha_pull : Option Seed → Option ℤ → Action
  post_vow_pray : Option ℕ → Option Seed → Option PrayRequest → Action
  post_achievement_unlock : Achievement.Env → AchievementTables → Option String → Action
  get_achievement_list : Achievement.Env → AchievementTables → Action

-- A request, with its Authorization header or its body and the ids that it makes up.
pub data Request : Type 0 where
  post_auth_steam post_auth_dev : NewIds → Option String → Request
  post_auth_refresh : NewIds → Option String → Request
  delete_auth_logout : String → Request
  get_dev_token : NewIds → String → Request
  get_diag_economy : String → Request
  get_health : Bool → Bool → List Check → Request
  post_time_sync : ℕ → Option ℕ → Request
  secured : String → Action → Request

pub record Arrival : Type 0 where
  pub env : Env
  pub instants : Instants
  pub client_ip : String
  pub request : Request

pub data Response : Type 0 where
  no_route too_many_requests : Response
  refused_by : Guarded → Response
  from_auth : AuthReply → Response
  from_refresh : RefreshReply → Response
  from_logout : LogoutReply → Response
  from_state : StateReply → Response
  from_sync : SyncReply → Response
  from_pull : PullReply → Response
  from_status : StatusReply → Response
  from_pray : PrayReply → Response
  from_logs : Result Error LogsResponse → Response
  from_unlock : UnlockReply → Response
  from_list : ListReply → Response
  from_economy : EconomyReply → Response
  from_health : Health → Response
  from_time : TimeGuard.SyncReply → Response

-- The method and the path, by which the rate limiter counts.
abbrev pub route_of : Action → String × String
route_of get_player_state = ("GET", "/api/v1/player/state")
route_of post_player_sync = ("POST", "/api/v1/player/sync")
route_of get_gacha_status = ("GET", "/api/v1/gacha/status")
route_of (get_gacha_logs page limit) = ("GET", "/api/v1/gacha/logs")
route_of (post_gacha_pull random body) = ("POST", "/api/v1/gacha/pull")
route_of (post_vow_pray bits random body) = ("POST", "/api/v1/vow/pray")
route_of (post_achievement_unlock e t id) = ("POST", "/api/v1/achievement/unlock")
route_of (get_achievement_list e t) = ("GET", "/api/v1/achievement/list")
