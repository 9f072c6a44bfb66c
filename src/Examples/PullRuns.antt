-- ===== src/Examples/PullRuns.antt =====
-- The theorems on the pulls and the pool, at the sample player.
use stone_server.Prelude.{
  ℕ, [], ◌∷◌, none, arith, Bool, ◌+◌, ◌≤◌, ◌≡◌, refl, some, ok, err, Result, length, String, ◌%◌,
}
use stone_server.Cairn.{apply_growth, plan_growth, commit_growth, incomplete, bump}
use stone_server.Tables.{charge_points, PlayerRows, Error, Rarity, rare}
use stone_server.Gacha.Rng.{gacha_rarity, determine_rarity}
use stone_server.Gacha.Pool.{
  load_rows, known_part_type, parts_by_rarity, Seed, RollResult, roll, drawn, rarity_of,
  pick_by_rarity,
}
use stone_server.Gacha.Pool.Sound.{IsBalanced}
use stone_server.Gacha.Pool.Draw.{
  IsDrawable, parse_skin_pool-IsDrawable, roll-drawn, pick_by_rarity-drawn,
}
use stone_server.Gacha.Grant.{grant_item, reward_grant}
use stone_server.Gacha.Pull.{
  claim_cooldown, claim_complete_slot, finish_pull, exec_pull, PullResponse,
}
use stone_server.Gacha.Pull.Laws.{Settled, exec_pull-Settled}
use stone_server.Kv.{key_eq}
use stone_server.Kv.Memory.{MemStore, new_mem_store, lookup}
use stone_server.Kv.Memory.Lists.{mem_list_laws}
use stone_server.Achievement.Worker.Batch.{process_batch-run_items}
use stone_server.Auth.{with_rows}
use stone_server.Server.{World, database, Reach, here, after, tick}
use stone_server.Server.Cooldown.{exec_pull-cooldown}
use stone_server.Examples.Tally.{tally, parse_tally, tally_kv}
use stone_server.Examples.ServerRuns.{settings, outside, steam_at, no_tables}
use stone_server.Examples.Sample.{
  cairn, seed, env_at, rows, pool, game, random, text, header, reads, pool-loaded,
}

-- A successful pull on slot 0, at 200, and one on slot 1, at 300.
abbrev first_reply : PullResponse
first_reply = record {
  item_id = "mossy";
  rarity = Rarity.uncommon;
  is_duplicate = Bool.false;
  refund_points = 0;
  next_gacha_at = 260;
  balance_after = 220;
  last_sync_at = 200;
  new_count = 1;
  source_type = "wish_cairn";
  reward = reward_grant "mossy" Rarity.uncommon "stone_skin" "wish_cairn" 1 200;
}

abbrev rows_or : {A : Type 0} → Result Error (A × PlayerRows) → PlayerRows
rows_or (ok (r, db)) = db
rows_or (err e) = rows

unfoldable pulled_rows : PlayerRows
unfolding pool exec_pull claim_cooldown apply_growth plan_growth commit_growth incomplete bump
    claim_complete_slot charge_points finish_pull roll parts_by_rarity gacha_rarity known_part_type
    load_rows
pulled_rows = rows_or (exec_pull game cairn pool seed random (env_at 200) 0 rows)

first_pull :
    exec_pull game cairn pool seed random (env_at 200) 0 rows ≡ ok (first_reply, pulled_rows)
unfolding pulled_rows pool exec_pull claim_cooldown apply_growth plan_growth commit_growth
    incomplete bump claim_complete_slot charge_points finish_pull roll parts_by_rarity gacha_rarity
    known_part_type load_rows determine_rarity grant_item
first_pull = refl

exec_pull-Settled_example : Settled game (env_at 200) rows first_reply pulled_rows
exec_pull-Settled_example =
    exec_pull-Settled game cairn pool seed random (env_at 200) 0 rows first_pull

-- The worker finds its queue empty between the two pulls.
abbrev world : World tally_kv
world = (record { players = ("p", "76") ∷ []; rows = λ q. rows }, new_mem_store)

idle :
    (s : MemStore) × Reach tally_kv settings outside
      (with_rows "p" pulled_rows world.0, new_mem_store)
      (with_rows "p" pulled_rows world.0, s)
unfolding lookup key_eq
idle =
    let envs = λ (n : ℕ). steam_at 250 none in
    let (s, batch, _) =
      process_batch-run_items tally_kv (mem_list_laws parse_tally tally) 10 envs 1
        (database world.0.players (with_rows "p" pulled_rows world.0).rows no_tables) new_mem_store
        (omega arith) in
    (s, after here (tick envs 1 no_tables batch))

exec_pull-cooldown_example : 200 + 60 ≤ 300
unfolding pulled_rows pool exec_pull claim_cooldown apply_growth plan_growth commit_growth
    incomplete bump claim_complete_slot charge_points finish_pull roll parts_by_rarity gacha_rarity
    known_part_type load_rows determine_rarity grant_item
exec_pull-cooldown_example =
    exec_pull-cooldown tally_kv settings outside world.0 new_mem_store "p" seed seed random random
      (env_at 200) (env_at 300) 0 1 first_pull idle.1 refl

pool-IsDrawable : IsDrawable pool
pool-IsDrawable = (parse_skin_pool-IsDrawable text header reads pool-loaded).0

parse_skin_pool-IsDrawable_example :
    IsDrawable pool × IsBalanced pool.stats × (pool.stats.total ≡ length reads)
parse_skin_pool-IsDrawable_example = parse_skin_pool-IsDrawable text header reads pool-loaded

abbrev bits : Seed
bits = record { rarity_bits = 29200; part_bits = 5; skin_bits = 2; seed_hash = "s" }

roll-drawn_example :
    (res : RollResult) × (roll pool (some bits) ≡ drawn res)
    × (res.rarity ≡ determine_rarity (29200 % 10000))
    × (rarity_of pool res.item_id ≡ some res.rarity)
roll-drawn_example = roll-drawn pool bits pool-IsDrawable

pick_by_rarity-drawn_example :
    (s : String) × (pick_by_rarity pool rare (some bits) ≡ some s) × (rarity_of pool s ≡ some rare)
pick_by_rarity-drawn_example = pick_by_rarity-drawn pool rare bits pool-IsDrawable
