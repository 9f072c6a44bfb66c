-- ===== src/Achievement/Worker/Retries.antt =====
-- How often an item is sent: the count of its row never passes the maximum, and an item that Steam
-- keeps refusing is sent until the count is the maximum, and no more.
use Prim.Native.String.{◌++◌}
use text.Mathlib.TextLemmas.{cons-append, nil-append}
use stone_server.Prelude.{
  ℕ, zero, suc, ◌+◌, ◌≤◌, ◌<◌, ◌≡◌, refl, Bool, true, false, ◌&&◌, Option, none, some, List, [],
  ◌∷◌, All, String, ltb, if◌then◌else◌, arith, Bool-cases, Option-cases, inl, inr, has_char,
  split_once, split_once-append,
}
use stone_server.Kv.{KvStore, Reply-cases}
use stone_server.Achievement.{
  retry_queue, RetryRow, Database, Env, queue_item, select_steam_id, count_failure,
}
use stone_server.Achievement.Unlock.{find_steam_id}
use stone_server.Achievement.Worker.{
  is_pending, is_retry_of, fail_rows, resolve_rows, record_failure, record_success, process_one,
  process_items, process_batch,
}

abbrev pub IsBounded : ℕ → List RetryRow → Type 0
IsBounded max = All λ r. r.retry_count ≤ max

fail_rows-IsBounded :
    (now : ℕ) (reason : String) (max : ℕ) (player_id id : String) (rows : List RetryRow)
    → IsBounded max rows
    → IsBounded max (fail_rows now reason max player_id id rows).0
unfolding fail_rows is_pending
fail_rows-IsBounded now reason max player_id id [] h = tt
fail_rows-IsBounded now reason max player_id id (r ∷ rows) h =
    ground (arith, h.0, fail_rows-IsBounded now reason max player_id id rows h.1)

resolve_rows-IsBounded :
    (now max : ℕ) (player_id id : String) (rows : List RetryRow)
    → IsBounded max rows
    → IsBounded max (resolve_rows now player_id id rows)
unfolding resolve_rows
resolve_rows-IsBounded now max player_id id [] h = tt
resolve_rows-IsBounded now max player_id id (r ∷ rows) h =
    ground (arith, h.0, resolve_rows-IsBounded now max player_id id rows h.1)

process_one-IsBounded :
    (max : ℕ) (env : Env) (item : String) (db : Database)
    → IsBounded max db.retries
    → IsBounded max (process_one max env item db).1.retries
unfolding process_one record_failure record_success
process_one-IsBounded max env item db h = elim (Option-cases (split_once 58 item)) [
  | inl e ↦ ground (arith, e, h)
  | inr ((player_id, id), e) ↦ elim (Option-cases (find_steam_id player_id db.steam_ids)) [
    | inl e' ↦ ground (arith, e, e', h)
    | inr (steam_id, e') ↦ elim (Option-cases (env.set_achievement steam_id id)) [
      | inl e'' ↦
          ground
            (arith, e, e', e'', h, resolve_rows-IsBounded env.now max player_id id db.retries h)
      | inr (reason, e'') ↦
          ground
            (arith, e, e', e'', h, fail_rows-IsBounded env.now reason max player_id id db.retries h)
    ]
  ]
]

-- The count of the first row on which a failure of the item would be counted.
unfoldable pub pending_count : ℕ → String → String → List RetryRow → Option ℕ
unfolding is_pending
pending_count max player_id id [] = none
pending_count max player_id id (r ∷ rows) =
    if is_retry_of player_id id r && is_pending max r
    then some r.retry_count
    else pending_count max player_id id rows

fail_rows-pending_count :
    (now : ℕ) (reason : String) (max : ℕ) (player_id id : String) (rows : List RetryRow) (n : ℕ)
    → pending_count max player_id id rows ≡ some n
    → (fail_rows now reason max player_id id rows).1 ≡ some (n + 1)
unfolding fail_rows pending_count is_pending
fail_rows-pending_count now reason max player_id id [] n h = absurd (cc h)
fail_rows-pending_count now reason max player_id id (r ∷ rows) n h =
    ground (arith, h, fail_rows-pending_count now reason max player_id id rows n)

pending_count-fail_rows :
    (now : ℕ) (reason : String) (max : ℕ) (player_id id : String) (rows : List RetryRow) (n : ℕ)
    → pending_count max player_id id rows ≡ some n
    → n + 1 < max
    → pending_count max player_id id (fail_rows now reason max player_id id rows).0 ≡ some (n + 1)
unfolding fail_rows pending_count is_pending
pending_count-fail_rows now reason max player_id id [] n h lt = absurd (cc h)
pending_count-fail_rows now reason max player_id id (r ∷ rows) n h lt =
    ground (arith, h, lt, pending_count-fail_rows now reason max player_id id rows n)

pending_count-lt :
    (max : ℕ) (player_id id : String) (rows : List RetryRow) (n : ℕ)
    → pending_count max player_id id rows ≡ some n
    → n < max
unfolding pending_count is_pending
pending_count-lt max player_id id [] n h = absurd (cc h)
pending_count-lt max player_id id (r ∷ rows) n h =
    ground (arith, h, pending_count-lt max player_id id rows n)

-- One tick after another, as long as the item is queued: whether it is queued after k ticks.
abbrev pub run_ticks : ℕ → (ℕ → Env) → ℕ → String → Database → Bool × Database
run_ticks max envs zero item db = (true, db)
run_ticks max envs (suc k) item db =
    let (again, db') = process_one max (envs k) item db in
    let rest = run_ticks max envs k item db' in if again then rest else (false, db')

-- Steam refuses the item, and no statement of the worker fails on it.
pub record Refused (envs : ℕ → Env) (steam_id id : String) : Type 0 where
  pub reason : ℕ → String
  pub refuses : (k : ℕ) → (envs k).set_achievement steam_id id ≡ some (reason k)
  pub finds : (k : ℕ) → (envs k).fault select_steam_id ≡ false
  pub counts : (k : ℕ) → (envs k).fault count_failure ≡ false

split-queue_item :
    (player_id id : String)
    → has_char 58 player_id ≡ false
    → split_once 58 (queue_item player_id id) ≡ some (player_id, id)
unfolding split_once
split-queue_item player_id id h =
    split_once-append 58 player_id (":" ++ id) id h
      (rw (cons-append ":" Prim.Native.String.[] id) (rw (nil-append id) refl))

process_one-Refused :
    (max : ℕ) (envs : ℕ → Env) (k : ℕ) (player_id id steam_id : String) (n : ℕ) (db : Database)
    → has_char 58 player_id ≡ false
    → find_steam_id player_id db.steam_ids ≡ some steam_id
    → (r : Refused envs steam_id id) → pending_count max player_id id db.retries ≡ some n
    → ((process_one max (envs k) (queue_item player_id id) db).0 ≡ ltb (n + 1) max)
      × ((process_one max (envs k) (queue_item player_id id) db).1 ≡ record db {
        retries = (fail_rows (envs k).now (r.reason k) max player_id id db.retries).0;
      })
unfolding process_one record_failure
process_one-Refused max envs k player_id id steam_id n db sep found r count =
    let cut = split-queue_item player_id id sep in
    let counted =
      fail_rows-pending_count (envs k).now (r.reason k) max player_id id db.retries n count in
    (
      ground (arith, cut, found, r.refuses k, r.finds k, r.counts k, counted),
      ground (arith, cut, found, r.refuses k, r.finds k, r.counts k, counted),
    )

-- An item that Steam keeps refusing, while no statement of the worker fails, is sent again at each
-- tick until its row counts the maximum, and then no more: it is queued after k ticks just when the
-- count of the row and k are below the maximum together. The player is known, and its id has no
-- colon.
pub run_ticks_lem :
    (max : ℕ) (envs : ℕ → Env) (k : ℕ) (player_id id steam_id : String) (n : ℕ) (db : Database)
    → has_char 58 player_id ≡ false
    → find_steam_id player_id db.steam_ids ≡ some steam_id
    → Refused envs steam_id id
    → pending_count max player_id id db.retries ≡ some n
    → (run_ticks max envs k (queue_item player_id id) db).0 ≡ ltb (n + k) max
run_ticks_lem max envs zero player_id id steam_id n db sep found r count =
    ground (arith, pending_count-lt max player_id id db.retries n count)
run_ticks_lem max envs (suc k) player_id id steam_id n db sep found r count =
    let (again, after) =
      process_one-Refused max envs k player_id id steam_id n db sep found r count in
    let rows = (fail_rows (envs k).now (r.reason k) max player_id id db.retries).0 in
    let kept =
      pending_count-fail_rows (envs k).now (r.reason k) max player_id id db.retries n count in
    let db' = record db { retries = rows } in
    let ih = run_ticks_lem max envs k player_id id steam_id (n + 1) db' sep found r in
    elim (Bool-cases (ltb (n + 1) max)) [
      | inl e ↦ ground (arith, again, after, e, ih (kept (ground (arith, e))))
      | inr e ↦ ground (arith, again, after, e)
    ]

process_items-IsBounded :
    (kv : KvStore) (max : ℕ) (envs : ℕ → Env) (fuel n : ℕ) (db : Database) (s : kv.State)
    {items : List String} {db' : Database} {s' : kv.State}
    → IsBounded max db.retries
    → process_items kv max envs fuel n db s ≡ some (items, (db', s'))
    → IsBounded max db'.retries
unfolding process_items
process_items-IsBounded kv max envs zero n db s h e = absurd (cc e)
process_items-IsBounded kv max envs (suc fuel) n db s h e =
    elim (Reply-cases (kv.rpop retry_queue s).0) [
      | inl (item, r) ↦
          let (again, db₁) = process_one max (envs n) item db in
          let s₁ = (kv.rpop retry_queue s).1 in
          let h₁ = process_one-IsBounded max (envs n) item db h in
          elim (Option-cases (process_items kv max envs fuel (suc n) db₁ s₁)) [
            | inl q ↦ absurd (ground (arith, r, q, e))
            | inr ((rest, after), q) ↦
                ground
                  (arith, r, q, e, process_items-IsBounded kv max envs fuel (suc n) db₁ s₁ h₁ q)
          ]
      | inr (inl r) ↦ ground (arith, r, e, h)
      | inr (inr r) ↦ ground (arith, r, e, h)
    ]

-- A batch over any store, failing statements included, leaves no row with more failures than the
-- maximum, where there was none before.
pub process_batch-IsBounded :
    (kv : KvStore) (max : ℕ) (envs : ℕ → Env) (fuel : ℕ) (db : Database) (s : kv.State)
    {db' : Database} {s' : kv.State}
    → IsBounded max db.retries
    → process_batch kv max envs fuel db s ≡ some (db', s')
    → IsBounded max db'.retries
unfolding process_batch
process_batch-IsBounded kv max envs fuel db s h e =
    elim (Option-cases (process_items kv max envs fuel 0 db s)) [
      | inl q ↦ absurd (ground (arith, e, q))
      | inr ((items, after), q) ↦
          ground (arith, e, q, process_items-IsBounded kv max envs fuel 0 db s h q)
    ]
