-- ===== src/Achievement/Unlock/Rows.antt =====
-- What a reply of `Unlock` says of the row that is there afterwards.
use stone_server.Prelude.{
  ◌≡◌, ◌≢◌, refl, true, false, Option, none, some, List, [], ◌∷◌, ◌++◌, String, eq_iff,
  if◌then◌else◌, err, arith, Result-cases, Option-cases, inl, inr,
}
use stone_server.Kv.{KvStore}
use stone_server.Achievement.{
  Unlocked, Database, Env, select_existing, insert_unlocked, refetch_unlocked,
}
use stone_server.Achievement.Unlock.{
  UnlockResponse, UnlockReply, unlocked, is_row, find_unlocked, set_synced, new_unlocked,
  enqueue_retry, sync_steam, insert_unlock, check_unlock, unlock,
}

pub find_unlocked-append :
    (p id : String) (rows : List Unlocked) (r : Unlocked)
    → find_unlocked p id (rows ++ r ∷ []) ≡ elim (find_unlocked p id rows) [
      | some x ↦ some x
      | none ↦ if is_row p id r then some r else none
    ]
unfolding find_unlocked
find_unlocked-append p id [] r = ground arith
find_unlocked-append p id (x ∷ rows) r = ground (arith, find_unlocked-append p id rows r)

-- The row as it is after the UPDATE.
abbrev pub synced_row : Unlocked → Unlocked
synced_row r = record r { steam_synced = true }

find_unlocked-set_synced :
    (p id : String) (rows : List Unlocked)
    → find_unlocked p id (set_synced p id rows)
      ≡ elim (find_unlocked p id rows) [ none ↦ none | some r ↦ some (synced_row r) ]
unfolding find_unlocked set_synced
find_unlocked-set_synced p id [] = refl
find_unlocked-set_synced p id (r ∷ rows) = ground (arith, find_unlocked-set_synced p id rows)

-- A stored row says what a response says.
pub record Recorded (resp : UnlockResponse) (found : Option Unlocked) : Type 0 where
  pub row : Unlocked
  pub is_there : found ≡ some row
  pub same_time : row.unlocked_at ≡ resp.unlocked_at
  pub same_synced : row.steam_synced ≡ resp.steam_synced

-- The response to a request that finds the achievement unlocked.
abbrev pub again : UnlockResponse → UnlockReply
again resp = unlocked (record resp { already_unlocked = true })

module _ (kv : KvStore) where
  sync_steam-row :
      (env : Env) (p id steam_id : String) (db : Database) (s : kv.State) (r : Unlocked)
      → find_unlocked p id db.achievements ≡ some r
      → r.steam_synced ≡ false
      → find_unlocked p id (sync_steam kv env p id steam_id db s).1.0.achievements
        ≡ some (record r { steam_synced = (sync_steam kv env p id steam_id db s).0 })
  unfolding sync_steam enqueue_retry
  sync_steam-row env p id steam_id db s r e f =
      ground (arith, e, f, find_unlocked-set_synced p id db.achievements)

  pub insert_unlock-Recorded :
      (env : Env) (p id steam_id : String) (db : Database) (s : kv.State) {resp : UnlockResponse}
      → (insert_unlock kv env p id steam_id db s).0 ≡ unlocked resp
      → Recorded resp
          (find_unlocked p id (insert_unlock kv env p id steam_id db s).1.0.achievements)
  unfolding insert_unlock
  insert_unlock-Recorded env p id steam_id db s {resp} e =
      elim (Option-cases (find_unlocked p id db.achievements)) [
        | inr (r, q) ↦ record {
          row = r;
          is_there = ground (arith, q, e);
          same_time = ground (arith, q, e);
          same_synced = ground (arith, q, e);
        }
        | inl q ↦
            let row = new_unlocked env.now p id in
            let db' = record db { achievements = db.achievements ++ row ∷ [] } in
            let added : find_unlocked p id db'.achievements ≡ some row =
              ground (
                arith,
                q,
                find_unlocked-append p id db.achievements row,
                eq_iff p p,
                eq_iff id id,
              ) in
            let kept = sync_steam-row env p id steam_id db' s row added refl in
            record {
              row = record row { steam_synced = (sync_steam kv env p id steam_id db' s).0 };
              is_there = ground (arith, q, e, kept);
              same_time = ground (arith, q, e);
              same_synced = ground (arith, q, e);
            }
      ]

  check_unlock-row :
      (env : Env) (p id : String) (db : Database) (r : Unlocked) {resp : UnlockResponse}
      → find_unlocked p id db.achievements ≡ some r
      → check_unlock env p id db ≡ err (unlocked resp)
      → (r.unlocked_at ≡ resp.unlocked_at) × (r.steam_synced ≡ resp.steam_synced)
  unfolding check_unlock
  check_unlock-row env p id db r q e = (ground (arith, q, e), ground (arith, q, e))

  pub check_unlock-err :
      (env : Env) (p id : String) (db : Database) {resp : UnlockResponse}
      → find_unlocked p id db.achievements ≡ none
      → check_unlock env p id db ≢ err (unlocked resp)
  unfolding check_unlock
  check_unlock-err env p id db q e = ground (arith, q, e)

  check_unlock-already :
      (env : Env) (p id : String) (db : Database) {resp : UnlockResponse}
      → check_unlock env p id db ≡ err (unlocked resp)
      → Recorded resp (find_unlocked p id db.achievements)
  check_unlock-already env p id db {resp} e =
      elim (Option-cases (find_unlocked p id db.achievements)) [
        | inr (r, q) ↦
            let (time, synced) = check_unlock-row env p id db r q e in
            record { row = r; is_there = q; same_time = time; same_synced = synced }
        | inl q ↦ absurd (check_unlock-err env p id db q e)
      ]

  pub check_unlock-Recorded :
      (env : Env) (p id : String) (db : Database) (resp : UnlockResponse)
      → Recorded resp (find_unlocked p id db.achievements)
      → env.fault select_existing ≡ false
      → check_unlock env p id db ≡ err (again resp)
  unfolding check_unlock
  check_unlock-Recorded env p id db resp r f =
      ground (arith, f, r.is_there, r.same_time, r.same_synced)

  pub unlock-Recorded :
      (env : Env) (p id : String) (db : Database) (s : kv.State) {resp : UnlockResponse}
      → (unlock kv env p (some id) db s).0 ≡ unlocked resp
      → Recorded resp (find_unlocked p id (unlock kv env p (some id) db s).1.0.achievements)
  unfolding unlock
  unlock-Recorded env p id db s {resp} e = elim (Result-cases (check_unlock env p id db)) [
    | inl (steam_id, q) ↦
        let done : (insert_unlock kv env p id steam_id db s).0 ≡ unlocked resp =
          ground (arith, q, e) in
        ground (arith, q, insert_unlock-Recorded env p id steam_id db s done)
    | inr (reply, q) ↦
        let known : check_unlock env p id db ≡ err (unlocked resp) = ground (arith, q, e) in
        ground (arith, q, check_unlock-already env p id db known)
  ]

  pub insert_again :
      (env : Env) (p id steam_id : String) (db : Database) (s : kv.State) (resp : UnlockResponse)
      → Recorded resp (find_unlocked p id db.achievements)
      → env.fault insert_unlocked ≡ false
      → env.fault refetch_unlocked ≡ false
      → insert_unlock kv env p id steam_id db s ≡ (again resp, (db, s))
  unfolding insert_unlock
  insert_again env p id steam_id db s resp r f g =
      ground (arith, f, g, r.is_there, r.same_time, r.same_synced)
