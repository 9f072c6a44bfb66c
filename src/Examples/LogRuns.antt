-- ===== src/Examples/LogRuns.antt =====
-- The pages of a log of three pulls, and a pull that has all it needs.
use stone_server.Prelude.{
  ℕ, ◌*◌, ◌≤◌, ◌≡◌, refl, some, [], ◌∷◌, ◌++◌, map, length, arith, ok, false,
}
use stone_server.Tables.{PlayerRows, GachaLog, common}
use stone_server.Cairn.Steps.{grow, grow_once, open_slots}
use stone_server.Cairn.{find_layer, incomplete, bump}
use stone_server.Gacha.Logs.{LogsResponse, log_entry, get_logs, take, newest_first, get_logs-pages}
use stone_server.Gacha.Pull.{PullResponse, exec_pull}
use stone_server.Gacha.Pull.Succeeds.{exec_pull_total}
use stone_server.Gacha.Pool.{Seed}
use stone_server.Gacha.Pool.Draw.{parse_skin_pool-IsDrawable}
use stone_server.Examples.Sample.{
  cairn, seed, env_at, env_at-NoFaults, state, rows, pool, pool-loaded, game, text, header, reads,
  rows-IsGrowing,
}

abbrev pulled_at : ℕ → GachaLog
pulled_at t = record {
  item_id = "plain";
  rarity = common;
  is_duplicate = false;
  cost_points = 30;
  refund_points = 0;
  balance_before = 50;
  balance_after = 20;
  accrued_pts = 0;
  pulled_at = t;
}

abbrev logged : PlayerRows
logged = record rows { gacha_logs = pulled_at 10 ∷ pulled_at 30 ∷ pulled_at 20 ∷ [] }

abbrev second_page : LogsResponse
second_page = record { logs = log_entry (pulled_at 10) ∷ []; total = 3 }

get_logs-pages_example :
    (map log_entry (take (1 * 2) (newest_first logged.gacha_logs)) ++ second_page.logs
      ≡ map log_entry (take (2 * 2) (newest_first logged.gacha_logs)))
    × (1 ≤ 2)
    × (3 ≡ length (newest_first logged.gacha_logs))
unfolding get_logs
get_logs-pages_example =
    get_logs-pages (env_at 100) 2 2 logged {r = second_page} (omega arith) (omega arith)
      (omega arith) (omega arith) refl

abbrev bits : Seed
bits = record { rarity_bits = 8500; part_bits = 3; skin_bits = 7; seed_hash = "h" }

exec_pull_total_example :
    (r : PullResponse) × (after : PlayerRows) × (exec_pull game cairn pool seed
        (some bits)
        (env_at 200)
        1
        rows
      ≡ ok (r, after))
unfolding find_layer grow grow_once open_slots incomplete bump
exec_pull_total_example =
    exec_pull_total game cairn pool seed bits (env_at 200) 1 3 state 100 rows (env_at-NoFaults 200)
      rows-IsGrowing (parse_skin_pool-IsDrawable text header reads pool-loaded).0 refl refl
      (omega arith) (omega arith)
