-- ===== src/Achievement/Unlock/Later.antt =====
-- What the tables say of an unlocked achievement at any later time.
use stone_server.Prelude.{
  ◌≡◌, ◌⊎◌, inl, inr, refl, ◌∙◌, Bool, true, false, none, some, List, [], ◌∷◌, ◌++◌, String, Option,
  ℕ, if◌then◌else◌, arith, split_once, Bool-cases, Option-cases, Result-cases,
}
use stone_server.Tables.{PlayerRows}
use stone_server.Kv.{KvStore}
use stone_server.Achievement.{
  Unlocked, Database, Env, select_existing, mark_synced, insert_unlocked, select_steam_id,
}
use stone_server.Achievement.Unlock.{
  find_steam_id, UnlockResponse, unlocked, is_row, find_unlocked, set_synced, new_unlocked,
  enqueue_retry, sync_steam, insert_unlock, check_unlock, unlock,
}
use stone_server.Achievement.Unlock.Rows.{
  again, find_unlocked-append, synced_row, Recorded, unlock-Recorded, check_unlock-Recorded,
}
use stone_server.Achievement.Worker.{process_one, record_failure, record_success, fail_rows}

-- What the server does to the tables: unlocks of any player, items that the worker handles, and
-- whatever the other requests do to the players and their rows.
pub data Later (kv : KvStore) (db : Database) : Database → Type 0 where
  here : Later kv db db
  by_unlock :
      {d : Database}
      → Later kv db d
      → (env : Env) → (player_id : String) → (id : Option String) → (s : kv.State)
      → Later kv db (unlock kv env player_id id d s).1.0
  by_item :
      {d : Database}
      → Later kv db d
      → (max : ℕ) → (env : Env) → (item : String) → Later kv db (process_one max env item d).1
  by_players :
      {d : Database}
      → Later kv db d
      → (ids : List (String × String)) → (rows : String → PlayerRows)
      → Later kv db (record d { steam_ids = ids; player_rows = rows })

find_unlocked-marked :
    (p id p' id' : String) (rows : List Unlocked) (x : Unlocked)
    → find_unlocked p id rows ≡ some x
    → (find_unlocked p id (set_synced p' id' rows) ≡ some x)
      ⊎ (find_unlocked p id (set_synced p' id' rows) ≡ some (synced_row x))
unfolding find_unlocked set_synced
find_unlocked-marked p id p' id' [] x e = absurd (cc e)
find_unlocked-marked p id p' id' (r ∷ rows) x e = elim (Bool-cases (is_row p id r)) [
  | inl h ↦ elim (Bool-cases (is_row p' id' r)) [
    | inl h' ↦ inr (ground (arith, h, h', e))
    | inr h' ↦ inl (ground (arith, h, h', e))
  ]
  | inr h ↦
      let later = find_unlocked-marked p id p' id' rows x (ground (arith, h, e)) in
      elim later [
        | inl k ↦ inl (ground (arith, h, k, Bool-cases (is_row p' id' r)))
        | inr k ↦ inr (ground (arith, h, k, Bool-cases (is_row p' id' r)))
      ]
]

record_failure-kept :
    (max : ℕ) (env : Env) (reason p id : String) (db : Database)
    → (record_failure max env reason p id db).1.achievements ≡ db.achievements
unfolding record_failure
record_failure-kept max env reason p id db =
    ground (arith, Option-cases (fail_rows env.now reason max p id db.retries).1)

record_success-marked :
    (env : Env) (p id : String) (db : Database)
    → (record_success env p id db).achievements
      ≡ (if env.fault mark_synced then db.achievements else set_synced p id db.achievements)
unfolding record_success
record_success-marked env p id db = refl

-- A response whose achievement is synced, or not.
abbrev pub with_synced : UnlockResponse → Bool → UnlockResponse
with_synced resp b = record resp { steam_synced = b }

module _ (kv : KvStore) (p id : String) (resp : UnlockResponse) where
  -- The row says what the response says, but may be synced by now.
  abbrev Noted : List Unlocked → Type 0
  Noted rows =
      (b : Bool) × ((b ≡ resp.steam_synced) ⊎ (b ≡ true))
      × Recorded (with_synced resp b) (find_unlocked p id rows)

  Noted-marked :
      (p' id' : String) (rows : List Unlocked) → Noted rows → Noted (set_synced p' id' rows)
  Noted-marked p' id' rows (b, since, r) =
      elim (find_unlocked-marked p id p' id' rows r.row r.is_there) [
        | inl e ↦ (
          b,
          since,
          record {
            row = r.row;
            is_there = e;
            same_time = r.same_time;
            same_synced = r.same_synced;
          },
        )
        | inr e ↦ (
          true,
          inr refl,
          record {
            row = synced_row r.row;
            is_there = e;
            same_time = r.same_time;
            same_synced = refl;
          },
        )
      ]

  Noted-added : (rows : List Unlocked) (x : Unlocked) → Noted rows → Noted (rows ++ x ∷ [])
  Noted-added rows x (b, since, r) = (
    b,
    since,
    record {
      row = r.row;
      is_there = find_unlocked-append p id rows x ∙ rw r.is_there refl;
      same_time = r.same_time;
      same_synced = r.same_synced;
    },
  )

  sync_steam-Noted :
      (env : Env) (p' id' steam_id : String) (db : Database) (s : kv.State)
      → Noted db.achievements
      → Noted (sync_steam kv env p' id' steam_id db s).1.0.achievements
  unfolding sync_steam enqueue_retry
  sync_steam-Noted env p' id' steam_id db s n =
      let after = (sync_steam kv env p' id' steam_id db s).1.0.achievements in
      elim (Option-cases (env.set_achievement steam_id id')) [
        | inr (reason, e) ↦ let same : after ≡ db.achievements = ground (arith, e) in rw same n
        | inl e ↦ elim (Bool-cases (env.fault mark_synced)) [
          | inl f ↦ let same : after ≡ db.achievements = ground (arith, e, f) in rw same n
          | inr f ↦
              let same : after ≡ set_synced p' id' db.achievements = ground (arith, e, f) in
              rw same (Noted-marked p' id' db.achievements n)
        ]
      ]

  insert_unlock-Noted :
      (env : Env) (p' id' steam_id : String) (db : Database) (s : kv.State)
      → Noted db.achievements
      → Noted (insert_unlock kv env p' id' steam_id db s).1.0.achievements
  unfolding insert_unlock
  insert_unlock-Noted env p' id' steam_id db s n =
      let after = (insert_unlock kv env p' id' steam_id db s).1.0.achievements in
      let row = new_unlocked env.now p' id' in
      let db' = record db { achievements = db.achievements ++ row ∷ [] } in
      elim (Bool-cases (env.fault insert_unlocked)) [
        | inl f ↦ let same : after ≡ db.achievements = ground (arith, f) in rw same n
        | inr f ↦ elim (Option-cases (find_unlocked p' id' db.achievements)) [
          | inr (r, e) ↦ let same : after ≡ db.achievements = ground (arith, e, f) in rw same n
          | inl e ↦
              let same : after ≡ (sync_steam kv env p' id' steam_id db' s).1.0.achievements =
                ground (arith, e, f) in
              rw same
                (sync_steam-Noted env p' id' steam_id db' s (Noted-added db.achievements row n))
        ]
      ]

  unlock-Noted :
      (env : Env) (p' : String) (body : Option String) (db : Database) (s : kv.State)
      → Noted db.achievements
      → Noted (unlock kv env p' body db s).1.0.achievements
  unfolding unlock
  unlock-Noted env p' none db s n = n
  unlock-Noted env p' (some id') db s n = elim (Result-cases (check_unlock env p' id' db)) [
    | inr (reply, e) ↦ rw (e, unlock) n
    | inl (steam_id, e) ↦ rw (e, unlock) (insert_unlock-Noted env p' id' steam_id db s n)
  ]

  process_one-Noted :
      (max : ℕ) (env : Env) (item : String) (db : Database)
      → Noted db.achievements
      → Noted (process_one max env item db).1.achievements
  unfolding process_one
  process_one-Noted max env item db n =
      let after = (process_one max env item db).1.achievements in
      elim (Option-cases (split_once 58 item)) [
        | inl e ↦ let same : after ≡ db.achievements = ground (arith, e) in rw same n
        | inr ((p', id'), e) ↦ elim (Bool-cases (env.fault select_steam_id)) [
          | inl f ↦ let same : after ≡ db.achievements = ground (arith, e, f) in rw same n
          | inr f ↦ elim (Option-cases (find_steam_id p' db.steam_ids)) [
            | inl q ↦ let same : after ≡ db.achievements = ground (arith, e, f, q) in rw same n
            | inr (steam_id, q) ↦ elim (Option-cases (env.set_achievement steam_id id')) [
              | inr (reason, k) ↦
                  let same : after ≡ db.achievements =
                    ground (arith, e, f, q, k, record_failure-kept max env reason p' id' db) in
                  rw same n
              | inl k ↦ elim (Bool-cases (env.fault mark_synced)) [
                | inl m ↦
                    let same : after ≡ db.achievements =
                      ground (arith, e, f, q, k, record_success-marked env p' id' db, m) in
                    rw same n
                | inr m ↦
                    let same : after ≡ set_synced p' id' db.achievements =
                      ground (arith, e, f, q, k, record_success-marked env p' id' db, m) in
                    rw same (Noted-marked p' id' db.achievements n)
              ]
            ]
          ]
        ]
      ]

  Later-Noted : {db d : Database} → Noted db.achievements → Later kv db d → Noted d.achievements
  Later-Noted n here = n
  Later-Noted n (by_unlock {d} l env q body s) = unlock-Noted env q body d s (Later-Noted n l)
  Later-Noted n (by_item {d} l max env item) = process_one-Noted max env item d (Later-Noted n l)
  Later-Noted n (by_players l ids rows) = Later-Noted n l

-- When a request has been answered with an unlocked achievement, any later one is answered with
-- the same time and changes nothing, whatever unlocks, items of the worker and other requests lie
-- between. It reports the state of the sync of the first answer, or that it is synced by now. The
-- SELECT of the later one does not fail.
pub unlock-Later :
    (kv : KvStore) (env env' : Env) (p id : String) (db : Database) (s s' : kv.State) {d : Database}
    {resp : UnlockResponse}
    → (unlock kv env p (some id) db s).0 ≡ unlocked resp
    → Later kv (unlock kv env p (some id) db s).1.0 d
    → env'.fault select_existing ≡ false
    → (b : Bool) × ((b ≡ resp.steam_synced) ⊎ (b ≡ true))
      × (unlock kv env' p (some id) d s' ≡ (again (with_synced resp b), (d, s')))
unfolding unlock
unlock-Later kv env env' p id db s s' {d} {resp} e later f =
    let first = unlock-Recorded kv env p id db s e in
    let (b, since, r) = Later-Noted kv p id resp (resp.steam_synced, inl refl, first) later in
    (b, since, ground (arith, check_unlock-Recorded kv env' p id d (with_synced resp b) r f))
