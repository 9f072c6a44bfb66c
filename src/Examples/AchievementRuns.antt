-- ===== src/Examples/AchievementRuns.antt =====
-- The theorems on achievements: one player who has made a pull, one whose retries are pending, and
-- a client of Steam that refuses or accepts.
use stone_server.Achievement.Worker.{pending_rows}
use stone_server.Prelude.{
  ℕ, Bool, ◌⊎◌, ◌≡◌, ◌↔◌, ok, refl, false, true, none, some, [], ◌∷◌, String, length, arith, ltb,
  ◌+◌, has_char,
}
use stone_server.Kv.{key_eq, ListLaws}
use stone_server.Kv.Memory.{MemStore, lookup}
use stone_server.Kv.Memory.Lists.{mem_list_laws}
use stone_server.Tables.{PlayerRows, common}
use stone_server.Achievement.{RetryRow, Database, Env, retry_queue, queue_item}
use stone_server.Achievement.Conditions.{Achievement}
use stone_server.Achievement.Unlock.{UnlockResponse, find_unlocked, unlock, find_steam_id}
use stone_server.Achievement.Unlock.Rows.{again}
use stone_server.Achievement.Steam.{
  HttpClient, Answered, steam_client_for_env, set_achievement, unlock-Answered,
}
use stone_server.Achievement.Unlock.Later.{here, by_item, with_synced, unlock-Later}
use stone_server.Achievement.Worker.{process_one}
use stone_server.Achievement.Worker.{process_batch, pending_items, reloaded, reload_pending_retries}
use stone_server.Achievement.Worker.Queue.{pop_order, queued}
use stone_server.Achievement.Worker.Batch.{
  run_items, process_batch-run_items, reload_pending_retries_lem,
}
use stone_server.Achievement.Worker.Retries.{run_ticks, Refused, run_ticks_lem, pending_count}
use stone_server.Examples.Sample.{rows}
use stone_server.Examples.Tally.{tally, parse_tally, tally_kv}

list_laws : ListLaws tally_kv
list_laws = mem_list_laws parse_tally tally

-- Steam refuses everything.
abbrev refusing : ℕ → Env
refusing t = record {
  now = t;
  fault = λ _. false;
  set_achievement = λ _ _. some "busy";
  error_text = "down";
}

abbrev pulled : PlayerRows
pulled = record rows {
  gacha_logs =
      record {
        item_id = "plain";
        rarity = common;
        is_duplicate = false;
        cost_points = 30;
        refund_points = 0;
        balance_before = 50;
        balance_after = 20;
        accrued_pts = 0;
        pulled_at = 100;
      }
      ∷ [];
}

abbrev retry : String → ℕ → ℕ → RetryRow
retry id count due = record {
  player_id = "p";
  achievement_id = id;
  retry_count = count;
  last_error = "busy";
  next_retry_at = due;
  resolved_at = none;
}

abbrev db : Database
db = record {
  steam_ids = ("p", "76") ∷ [];
  player_rows = λ _. pulled;
  achievements = [];
  retries =
      retry "ACH_STREAK_7" 8 90 ∷ retry "ACH_COLLECTOR" 10 95 ∷ retry "ACH_LEGENDARY" 0 80 ∷ [];
}

abbrev stale : MemStore
stale = record { kv = []; lists = (retry_queue, "p:ACH_STREAK_7" ∷ "bad" ∷ []) ∷ [] }

-- The worker has sent the achievement again, and Steam has taken it.
abbrev accepting : Env
accepting = record {
  now = 180;
  fault = λ _. false;
  set_achievement = λ _ _. none;
  error_text = "down";
}

abbrev unlocked_db : Database
unlocked_db = (unlock tally_kv (refusing 120) "p" (some "ACH_FIRST_PULL") db stale).1.0

abbrev worked_db : Database
worked_db = (process_one 10 accepting "p:ACH_FIRST_PULL" unlocked_db).1

abbrev first_unlock : UnlockResponse
first_unlock = record { already_unlocked = false; unlocked_at = 120; steam_synced = false }

unlock-Later_example :
    (b : Bool) × ((b ≡ false) ⊎ (b ≡ true))
    × (unlock tally_kv (refusing 190) "p" (some "ACH_FIRST_PULL") worked_db stale
        ≡ (again (with_synced first_unlock b), (worked_db, stale)))
unfolding unlock
unlock-Later_example =
    unlock-Later tally_kv (refusing 120) (refusing 190) "p" "ACH_FIRST_PULL" db stale stale
      {resp = first_unlock} refl (by_item here 10 accepting "p:ACH_FIRST_PULL") refl

process_batch-run_items_example :
    (s' : MemStore) × (process_batch tally_kv 10 refusing 3 db stale
      ≡ some ((run_items 10 refusing 0 db ("bad" ∷ "p:ACH_STREAK_7" ∷ [])).1, s'))
    × (pop_order (queued tally_kv list_laws s')
        ≡ (run_items 10 refusing 0 db ("bad" ∷ "p:ACH_STREAK_7" ∷ [])).0)
unfolding lookup key_eq
process_batch-run_items_example =
    process_batch-run_items tally_kv list_laws 10 refusing 3 db stale (omega arith)

reload_pending_retries_lem_example :
    (s' : MemStore) × (reload_pending_retries tally_kv 10 (refusing 100) 3 db stale
      ≡ some (reloaded (length (pending_items 10 db)), s'))
    × (pop_order (queued tally_kv list_laws s') ≡ pending_items 10 db)
unfolding lookup key_eq
reload_pending_retries_lem_example =
    reload_pending_retries_lem tally_kv list_laws 10 (refusing 100) 3 db stale refl (omega arith)

-- The order is that of the times at which the items are due, and the exhausted row is left out.
pending_order : pending_items 10 db ≡ "p:ACH_LEGENDARY" ∷ "p:ACH_STREAK_7" ∷ []
unfolding pending_rows
pending_order = refl

refused : Refused refusing "76" "ACH_STREAK_7"
refused = record {
  reason = λ _. "busy";
  refuses = λ k. refl;
  finds = λ k. refl;
  counts = λ k. refl;
}

run_ticks_lem_example :
    (run_ticks 10 refusing 2 (queue_item "p" "ACH_STREAK_7") db).0 ≡ ltb (8 + 2) 10
unfolding has_char find_steam_id pending_count
run_ticks_lem_example =
    run_ticks_lem 10 refusing 2 "p" "ACH_STREAK_7" "76" 8 db refl refl refused refl

-- Steam answers 200.
abbrev http : HttpClient
http = record { build = λ url params. none; send = λ url params. ok 200; status_text = λ n. "" }

unlock-Answered_example :
    (steam_id : String) × (find_steam_id "p" db.steam_ids ≡ some steam_id)
    × ((true ≡ true) ↔ Answered http "production" "key" "480" steam_id "ACH_FIRST_PULL")
unfolding unlock find_unlocked steam_client_for_env set_achievement
unlock-Answered_example =
    unlock-Answered tally_kv http "production" "key" "480" (refusing 120) "p" "ACH_FIRST_PULL" db
      stale {resp = record { already_unlocked = false; unlocked_at = 120; steam_synced = true }}
      refl refl refl
