-- ===== src/Achievement/Unlock/Laws.antt =====
-- What unlocking an achievement leaves, over any key-value store.
use stone_server.Prelude.{◌≡◌, Bool, false, none, some, [], ◌∷◌, ◌++◌, String, if◌then◌else◌}
use stone_server.Kv.{KvStore}
use stone_server.Achievement.{
  Database, Env, retry_queue, queue_item, insert_unlocked, refetch_unlocked,
}
use stone_server.Achievement.Conditions.{Achievement}
use stone_server.Achievement.Unlock.Rows.{again, insert_unlock-Recorded, insert_again}
use stone_server.Achievement.Unlock.{UnlockResponse, unlocked, new_retry, insert_unlock, unlock}

module _ (kv : KvStore) where
  -- Of two requests that have both passed the checks, the second to insert changes nothing: it is
  -- answered with the time and the state of the sync of the first, which has been answered with an
  -- unlocked achievement. The INSERT and the SELECT after it do not fail.
  pub insert_unlock-insert_unlock :
      (env env' : Env) (p id steam_id steam_id' : String) (db : Database) (s s' : kv.State)
      {resp : UnlockResponse}
      → (insert_unlock kv env p id steam_id db s).0 ≡ unlocked resp
      → env'.fault insert_unlocked ≡ false
      → env'.fault refetch_unlocked ≡ false
      → insert_unlock kv env' p id steam_id' (insert_unlock kv env p id steam_id db s).1.0 s'
        ≡ (again resp, ((insert_unlock kv env p id steam_id db s).1.0, s'))
  insert_unlock-insert_unlock env env' p id steam_id steam_id' db s s' {resp} e f g =
      let row = insert_unlock-Recorded kv env p id steam_id db s e in
      insert_again kv env' p id steam_id' (insert_unlock kv env p id steam_id db s).1.0 s' resp row
        f g

  -- What a request leaves of an achievement that Steam has taken, or has refused.
  abbrev pub Unlocks : Env → String → String → String → Database → kv.State → Type 0
  Unlocks env p id steam_id db s =
      (b : Bool) × (reason : String) × (env.set_achievement steam_id id
        ≡ (if b then none else some reason))
      × ((unlock kv env p (some id) db s).0
          ≡ unlocked (record { already_unlocked = false; unlocked_at = env.now; steam_synced = b }))
      × (kv.items (unlock kv env p (some id) db s).1.1 retry_queue
          ≡ (if b then kv.items s retry_queue else queue_item p id ∷ kv.items s retry_queue))
      × ((unlock kv env p (some id) db s).1.0.retries
          ≡ (if b then db.retries else db.retries ++ new_retry env.now p id reason ∷ []))
