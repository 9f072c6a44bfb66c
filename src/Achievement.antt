-- ===== src/Achievement.antt =====
-- internal/achievement: the conditions, the handlers, and the worker that sends to Steam what
-- could not be sent at once. The tables of this package are those of all players.
--
-- `set_achievement` is the client of Steam: what it replies to a Steam id and an achievement is
-- the text of an error, or `none`; `error_text` is that of the error of a statement. The random primary key of a retry row is left out.
pub mod Conditions
pub mod Unlock
pub mod Steam
pub mod Worker
use Prim.Native.String.{◌++◌}
use stone_server.Prelude.{ℕ, Bool, Option, List, String}
use stone_server.Tables.{PlayerRows}
use stone_server.Kv.{Key}

-- player_achievements, with the primary key (player_id, achievement_id)
pub record Unlocked : Type 0 where
  pub player_id : String
  pub achievement_id : String
  pub unlocked_at : ℕ
  pub steam_synced : Bool

-- achievement_retry_queue
pub record RetryRow : Type 0 where
  pub player_id : String
  pub achievement_id : String
  pub retry_count : ℕ
  pub last_error : String
  pub next_retry_at : ℕ
  pub resolved_at : Option ℕ

-- `steam_ids` are the columns `id` and `steam_id` of `players`.
pub record Database : Type 0 where
  pub steam_ids : List (String × String)
  pub player_rows : String → PlayerRows
  pub achievements : List Unlocked
  pub retries : List RetryRow

-- The statements of the package.
pub data Statement : Type 0 where
  select_existing check_condition select_steam_id insert_unlocked refetch_unlocked : Statement
  mark_synced insert_retry list_unlocked count_failure mark_resolved : Statement
  select_pending : Statement

pub record Env : Type 0 where
  pub now : ℕ
  pub fault : Statement → Bool
  pub set_achievement : String → String → Option String
  pub error_text : String

abbrev pub retry_queue : Key
retry_queue = record { format = "ach:retry"; name = "" }

abbrev pub queue_item : String → String → String
queue_item player_id achievement_id = player_id ++ ":" ++ achievement_id

abbrev pub default_max_retries : ℕ
default_max_retries = 10
