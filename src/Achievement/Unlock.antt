-- ===== src/Achievement/Unlock.antt =====
-- internal/achievement/handler.go: the handlers `Unlock` and `List`. A reply stands for the status
-- and the body of the response. `Unlock` is cut before the INSERT, so that two requests can
-- interleave.
pub mod Rows
pub mod Laws
pub mod Later
use stone_server.Prelude.{
  ℕ, Bool, true, false, ◌&&◌, Option, none, some, List, [], ◌∷◌, ◌++◌, map, String, str_eq,
  if◌then◌else◌, Result, ok, err,
}
use stone_server.Kv.{KvStore}
use stone_server.Achievement.{
  Unlocked, RetryRow, Database, Env, retry_queue, queue_item, select_existing, check_condition,
  select_steam_id, insert_unlocked, refetch_unlocked, mark_synced, insert_retry, list_unlocked,
}
use stone_server.Achievement.Conditions.{
  Achievement, achievement_id, all_achievements, Checked, condition_met, condition_not_met,
  check_failed, check,
}

pub record UnlockResponse : Type 0 where
  pub already_unlocked : Bool
  pub unlocked_at : ℕ
  pub steam_synced : Bool

pub data UnlockReply : Type 0 where
  unlocked : UnlockResponse → UnlockReply
  missing_id not_met internal_error : UnlockReply

abbrev pub is_row : String → String → Unlocked → Bool
is_row player_id id r = str_eq r.player_id player_id && str_eq r.achievement_id id

-- WHERE player_id = ? AND achievement_id = ?
unfoldable pub find_unlocked : String → String → List Unlocked → Option Unlocked
find_unlocked player_id id [] = none
find_unlocked player_id id (r ∷ rows) =
    if is_row player_id id r then some r else find_unlocked player_id id rows

unfoldable pub find_steam_id : String → List (String × String) → Option String
find_steam_id player_id [] = none
find_steam_id player_id ((id, steam_id) ∷ players) =
    if str_eq id player_id then some steam_id else find_steam_id player_id players

-- UPDATE player_achievements SET steam_synced = 1 WHERE player_id = ? AND achievement_id = ?
unfoldable pub set_synced : String → String → List Unlocked → List Unlocked
set_synced player_id id [] = []
set_synced player_id id (r ∷ rows) =
    (if is_row player_id id r then record r { steam_synced = true } else r)
    ∷ set_synced player_id id rows

abbrev pub already : Unlocked → UnlockReply
already r =
    unlocked (record {
      already_unlocked = true;
      unlocked_at = r.unlocked_at;
      steam_synced = r.steam_synced;
    })

-- Steps 1 to 3: a reply, or the Steam id of a player who may unlock.
unfoldable pub check_unlock : Env → String → String → Database → Result UnlockReply String
unfolding find_unlocked find_steam_id check
check_unlock env player_id id db =
    if env.fault select_existing
    then err internal_error
    else elim (find_unlocked player_id id db.achievements) [
      | some r ↦ err (already r)
      | none ↦ elim (check (env.fault check_condition) (db.player_rows player_id) id) [
        | condition_not_met ↦ err not_met
        | check_failed ↦ err internal_error
        | condition_met ↦
            if env.fault select_steam_id
            then err internal_error
            else elim (find_steam_id player_id db.steam_ids) [
              | none ↦ err internal_error
              | some steam_id ↦ ok steam_id
            ]
      ]
    ]

-- The row of the INSERT.
abbrev pub new_unlocked : ℕ → String → String → Unlocked
new_unlocked now player_id id = record {
  player_id = player_id;
  achievement_id = id;
  unlocked_at = now;
  steam_synced = false;
}

abbrev pub new_retry : ℕ → String → String → String → RetryRow
new_retry now player_id id reason = record {
  player_id = player_id;
  achievement_id = id;
  retry_count = 0;
  last_error = reason;
  next_retry_at = now;
  resolved_at = none;
}

module _ (kv : KvStore) where
  -- The errors of the push and of the INSERT are dropped.
  unfoldable pub enqueue_retry :
      Env → String → String → String → Database → kv.State → Database × kv.State
  enqueue_retry env player_id id reason db s =
      let s' = (kv.lpush retry_queue (queue_item player_id id) s).1 in
      let row = new_retry env.now player_id id reason in
      if env.fault insert_retry
      then (db, s')
      else (record db { retries = db.retries ++ row ∷ [] }, s')

  -- Step 5, after the row has been inserted.
  unfoldable pub sync_steam :
      Env → String → String → String → Database → kv.State → Bool × (Database × kv.State)
  unfolding enqueue_retry set_synced
  sync_steam env player_id id steam_id db s = elim (env.set_achievement steam_id id) [
    | some reason ↦ (false, enqueue_retry env player_id id reason db s)
    | none ↦
        if env.fault mark_synced
        then (false, enqueue_retry env player_id id env.error_text db s)
        else (true, (record db { achievements = set_synced player_id id db.achievements }, s))
  ]

  -- Steps 4 and 5. The INSERT does nothing on a row that is there: it is fetched again.
  unfoldable pub insert_unlock :
      Env → String → String → String → Database → kv.State → UnlockReply × (Database × kv.State)
  unfolding sync_steam find_unlocked
  insert_unlock env player_id id steam_id db s =
      if env.fault insert_unlocked
      then (internal_error, (db, s))
      else elim (find_unlocked player_id id db.achievements) [
        | some r ↦
            if env.fault refetch_unlocked then (internal_error, (db, s)) else (already r, (db, s))
        | none ↦
            let row = new_unlocked env.now player_id id in
            let db' = record db { achievements = db.achievements ++ row ∷ [] } in
            let (synced, after) = sync_steam env player_id id steam_id db' s in
            (
              unlocked (record {
                already_unlocked = false;
                unlocked_at = env.now;
                steam_synced = synced;
              }),
              after,
            )
      ]

  -- `none` is a body without an achievement_id.
  unfoldable pub unlock :
      Env → String → Option String → Database → kv.State → UnlockReply × (Database × kv.State)
  unfolding check_unlock insert_unlock
  unlock env player_id none db s = (missing_id, (db, s))
  unlock env player_id (some id) db s = elim (check_unlock env player_id id db) [
    | err reply ↦ (reply, (db, s))
    | ok steam_id ↦ insert_unlock env player_id id steam_id db s
  ]

pub record AchievementItem : Type 0 where
  pub achievement_id : String
  pub unlocked : Bool
  pub unlocked_at : Option ℕ
  pub steam_synced : Bool

pub data ListReply : Type 0 where
  listed : List AchievementItem → ListReply
  list_failed : ListReply

-- The entry of one achievement: the map that is filled from the rows, read at its id. A player has
-- an achievement once.
abbrev pub list_item : String → List Unlocked → Achievement → AchievementItem
list_item player_id rows a = elim (find_unlocked player_id (achievement_id a) rows) [
  | none ↦ record {
    achievement_id = achievement_id a;
    unlocked = false;
    unlocked_at = none;
    steam_synced = false;
  }
  | some r ↦ record {
    achievement_id = achievement_id a;
    unlocked = true;
    unlocked_at = some r.unlocked_at;
    steam_synced = r.steam_synced;
  }
]

unfoldable pub list_achievements : Env → String → Database → ListReply
list_achievements env player_id db =
    if env.fault list_unlocked
    then list_failed
    else listed (map (list_item player_id db.achievements) all_achievements)
