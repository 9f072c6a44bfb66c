-- ===== src/Achievement/Worker.antt =====
-- internal/achievement/worker.go: the queue of the items to be sent again, `processOne`,
-- `processBatch` and `ReloadPendingRetries`. No other request touches the queue while a batch
-- runs. The loops over RPop run on fuel: the theorems say how much is enough.
pub mod Queue
pub mod Batch
pub mod Retries
use stone_server.Prelude.{
  ℕ, zero, suc, ◌+◌, Bool, true, false, ◌&&◌, Option, none, some, List, [], ◌∷◌, map, length,
  String, str_eq, ltb, leb, if◌then◌else◌, split_once,
}
use stone_server.Kv
use stone_server.Kv.{KvStore}
use stone_server.Achievement.{
  RetryRow, Database, Env, retry_queue, queue_item, select_steam_id, mark_synced, count_failure,
  mark_resolved, select_pending,
}
use stone_server.Achievement.Unlock.{find_steam_id, set_synced}

abbrev pub tick_interval : ℕ
tick_interval = 60

-- resolved_at IS NULL AND retry_count < max
unfoldable pub is_pending : ℕ → RetryRow → Bool
is_pending max r = elim r.resolved_at [ none ↦ ltb r.retry_count max | some t ↦ false ]

abbrev pub is_retry_of : String → String → RetryRow → Bool
is_retry_of player_id id r = str_eq r.player_id player_id && str_eq r.achievement_id id

abbrev pub failed_row : ℕ → String → RetryRow → RetryRow
failed_row now reason r = record r {
  retry_count = r.retry_count + 1;
  last_error = reason;
  next_retry_at = now + tick_interval;
}

-- The UPDATE that counts a failure: the rows, and the count of the first row that is returned.
unfoldable pub fail_rows :
    ℕ → String → ℕ → String → String → List RetryRow → List RetryRow × Option ℕ
unfolding is_pending
fail_rows now reason max player_id id [] = ([], none)
fail_rows now reason max player_id id (r ∷ rows) =
    let (rows', count) = fail_rows now reason max player_id id rows in
    if is_retry_of player_id id r && is_pending max r
    then (failed_row now reason r ∷ rows', some (r.retry_count + 1))
    else (r ∷ rows', count)

-- UPDATE achievement_retry_queue SET resolved_at = now WHERE ... AND resolved_at IS NULL
unfoldable pub resolve_rows : ℕ → String → String → List RetryRow → List RetryRow
resolve_rows now player_id id [] = []
resolve_rows now player_id id (r ∷ rows) =
    (if is_retry_of player_id id r
      then elim r.resolved_at [ none ↦ record r { resolved_at = some now } | some t ↦ r ]
      else r)
    ∷ resolve_rows now player_id id rows

-- What follows a failed call of Steam. The item is queued again unless its row has reached the
-- maximum, or there is no row to count on.
unfoldable pub record_failure : ℕ → Env → String → String → String → Database → Bool × Database
unfolding fail_rows
record_failure max env reason player_id id db =
    let (rows, count) = fail_rows env.now reason max player_id id db.retries in
    if env.fault count_failure then (true, db) else elim count [
      | none ↦ (false, db)
      | some n ↦ (if leb max n then false else true, record db { retries = rows })
    ]

-- What follows a call of Steam that succeeds; the errors of the UPDATEs are logged only.
unfoldable pub record_success : Env → String → String → Database → Database
unfolding set_synced resolve_rows
record_success env player_id id db = record db {
  achievements =
      if env.fault mark_synced then db.achievements else set_synced player_id id db.achievements;
  retries =
      if env.fault mark_resolved then db.retries else resolve_rows env.now player_id id db.retries;
}

-- Whether the item is queued again. 58 is the colon.
unfoldable pub process_one : ℕ → Env → String → Database → Bool × Database
unfolding split_once find_steam_id record_failure record_success
process_one max env item db = elim (split_once 58 item) [
  | none ↦ (false, db)
  | some (player_id, id) ↦
      if env.fault select_steam_id
      then (true, db)
      else elim (find_steam_id player_id db.steam_ids) [
        | none ↦ (false, db)
        | some steam_id ↦ elim (env.set_achievement steam_id id) [
          | some reason ↦ record_failure max env reason player_id id db
          | none ↦ (false, record_success env player_id id db)
        ]
      ]
]

-- ORDER BY next_retry_at
unfoldable pub insert_by_due : RetryRow → List RetryRow → List RetryRow
insert_by_due r [] = r ∷ []
insert_by_due r (x ∷ xs) =
    let rest = insert_by_due r xs in
    if leb r.next_retry_at x.next_retry_at then r ∷ x ∷ xs else x ∷ rest

unfoldable pub pending_rows : ℕ → List RetryRow → List RetryRow
unfolding is_pending insert_by_due
pending_rows max [] = []
pending_rows max (r ∷ rows) =
    let rest = pending_rows max rows in if is_pending max r then insert_by_due r rest else rest

abbrev pub pending_items : ℕ → Database → List String
pending_items max db =
    map (λ r. queue_item r.player_id r.achievement_id) (pending_rows max db.retries)

pub data Reloaded : Type 0 where
  reloaded : ℕ → Reloaded
  reload_failed : Reloaded

module _ (kv : KvStore) where
  -- The loop of `processBatch`; `envs n` is the environment of the n-th item. The items to be
  -- queued again, in the order in which they were popped; `none` if the fuel runs out.
  unfoldable pub process_items :
      ℕ → (ℕ → Env) → ℕ → ℕ → Database → kv.State → Option (List String × (Database × kv.State))
  unfolding process_one
  process_items max envs zero n db s = none
  process_items max envs (suc fuel) n db s =
      let (reply, s') = kv.rpop retry_queue s in
      elim reply [
        | Kv.ok item ↦
            let (again, db') = process_one max (envs n) item db in
            elim (process_items max envs fuel (suc n) db' s') [
              | none ↦ none
              | some (items, after) ↦ some (if again then item ∷ items else items, after)
            ]
        | Kv.not_found ↦ some ([], (db, s'))
        | Kv.failed ↦ some ([], (db, s'))
      ]

  -- RPush of the items from the last to the first.
  unfoldable pub requeue : List String → kv.State → kv.State
  requeue [] s = s
  requeue (item ∷ items) s = (kv.rpush retry_queue item (requeue items s)).1

  unfoldable pub process_batch :
      ℕ → (ℕ → Env) → ℕ → Database → kv.State → Option (Database × kv.State)
  unfolding process_items requeue
  process_batch max envs fuel db s = elim (process_items max envs fuel 0 db s) [
    | none ↦ none
    | some (items, (db', s')) ↦ some (db', requeue items s')
  ]

  -- RPop until the queue is empty. The Boolean is whether it has been emptied.
  unfoldable pub drain : ℕ → kv.State → Option (Bool × kv.State)
  drain zero s = none
  drain (suc fuel) s =
      let (reply, s') = kv.rpop retry_queue s in
      elim reply [
        | Kv.ok item ↦ drain fuel s'
        | Kv.not_found ↦ some (true, s')
        | Kv.failed ↦ some (false, s')
      ]

  unfoldable pub push_all : List String → kv.State → Bool × kv.State
  push_all [] s = (true, s)
  push_all (item ∷ items) s =
      let (reply, s') = kv.lpush retry_queue item s in
      elim reply [
        | Kv.ok _ ↦ push_all items s'
        | Kv.not_found ↦ (false, s')
        | Kv.failed ↦ (false, s')
      ]

  unfoldable pub reload_pending_retries :
      ℕ → Env → ℕ → Database → kv.State → Option (Reloaded × kv.State)
  unfolding pending_rows drain push_all
  reload_pending_retries max env fuel db s =
      let items = pending_items max db in
      if env.fault select_pending then some (reload_failed, s) else elim (drain fuel s) [
        | none ↦ none
        | some (false, s') ↦ some (reload_failed, s')
        | some (true, s') ↦
            let (pushed, s'') = push_all items s' in
            some (if pushed then reloaded (length items) else reload_failed, s'')
      ]
