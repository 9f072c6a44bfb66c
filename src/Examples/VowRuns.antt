-- ===== src/Examples/VowRuns.antt =====
-- The theorems on vows, at the sample player: four skins are offered for an uncommon one.
use stone_server.Prelude.{
  pos, ◌+◌, ◌≤◌, ◌≡◌, refl, true, false, none, some, List, [], ◌∷◌, Result, ok, err, All, arith,
}
use stone_server.Tables.{PlayerRows, Error, common, uncommon, charge_points}
use stone_server.Gacha.Rng.{gacha_rarity}
use stone_server.Gacha.Pool.{load_rows, known_part_type, parts_by_rarity, rarity_of, pick_by_rarity}
use stone_server.Gacha.Pool.Draw.{IsDrawable, parse_skin_pool-IsDrawable}
use stone_server.Gacha.Grant.{find_item, count_of, grant_item, reward_grant}
use stone_server.Vow.Rates.{Material, compute_rarities, VowTier, calc_success_rate, roll_success}
use stone_server.Vow.Rates.Crafted.{IsTier, IsOffered, compute_rarities-between}
use stone_server.Vow.Pray.{PrayRequest, Offer, Prayed, consume_materials, finish_pray, pray_tx}
use stone_server.Vow.Pray.Stock.{IsStock, consume_materials-count_of}
use stone_server.Vow.Pray.Laws.{Vowed, pray_tx-Vowed, pray_tx-rarity_of, pray_tx-count_of}
use stone_server.Vow.Pray.Handler.{VowConfig, offer_of}
use stone_server.Vow.Pray.Fair.{IsFair, offer_of-IsFair}
use stone_server.Examples.Sample.{
  env_at, rows, stack, pool, random, text, header, reads, pool-loaded,
}

abbrev offered : List Material
offered =
    record { item_id = "plain"; count = pos 3 } ∷ record { item_id = "mossy"; count = pos 1 } ∷ []

abbrev tier : VowTier
tier = record {
  min_n_power = 10;
  max_n_power = 20;
  min_success_rate = 20000000;
  max_success_rate = 60000000;
}

abbrev vow_config : VowConfig
vow_config = record { required_item_count = 4; tiers = (uncommon, tier) ∷ []; allow_debug = false }

abbrev request : PrayRequest
request = record { materials = offered; n_power = pos 15; debug_options = none }

abbrev stocked : PlayerRows
stocked = record rows { inventories = stack "plain" 4 ∷ stack "mossy" 1 ∷ [] }

abbrev offer : Offer
offer = record {
  materials = offered;
  cost = 15;
  base = common;
  target = uncommon;
  rate = record { num = 400000000; den = 10 };
  ignore_items = false;
  debug = none;
}

abbrev outcome : Prayed
outcome = record {
  won = true;
  reward_item = "mossy";
  grant = reward_grant "mossy" uncommon "stone_skin" "vow_reward" 1 200;
  charge = record {
    balance_before = 50;
    balance_after = 235;
    accrued_pts = 200;
    last_sync_at = 200;
  };
}

abbrev rows_or : {A : Type 0} → Result Error (A × PlayerRows) → PlayerRows
rows_or (ok (r, db)) = db
rows_or (err e) = rows

unfoldable vowed_rows : PlayerRows
unfolding pray_tx
vowed_rows = rows_or (pray_tx pool offer (some 2048) random (env_at 200) stocked)

vow : pray_tx pool offer (some 2048) random (env_at 200) stocked ≡ ok (outcome, vowed_rows)
unfolding vowed_rows pool pray_tx charge_points consume_materials finish_pray roll_success
    pick_by_rarity parts_by_rarity gacha_rarity known_part_type grant_item
vow = refl

stocked-IsStock : IsStock stocked.inventories
unfolding find_item
stocked-IsStock = (refl, (refl, tt))

tier-IsTier : IsTier tier
tier-IsTier = record { power_range = omega arith; rate_range = omega arith; within = omega arith }

offered-IsOffered : All (IsOffered pool 1 2) offered
unfolding pool rarity_of load_rows gacha_rarity known_part_type
offered-IsOffered = (
  record {
    rarity = common;
    items = 3;
    has_rarity = refl;
    has_count = refl;
    at_least = omega arith;
    at_most = omega arith;
  },
  (
    record {
      rarity = uncommon;
      items = 1;
      has_rarity = refl;
      has_count = refl;
      at_least = omega arith;
      at_most = omega arith;
    },
    tt,
  ),
)

crafted : compute_rarities pool offered ≡ some (common, uncommon)
unfolding pool compute_rarities rarity_of gacha_rarity known_part_type
crafted = refl

compute_rarities-between_example : (1 ≤ 1) × (1 ≤ 2) × (2 ≡ 1 + 1)
compute_rarities-between_example =
    compute_rarities-between pool 1 2 offered offered-IsOffered (omega arith) crafted

consumed :
    consume_materials (env_at 200) false offered stocked
    ≡ ok (record stocked { inventories = stack "plain" 1 ∷ [] })
unfolding consume_materials
consumed = refl

consume_materials-count_of_example : count_of "plain" (stack "plain" 1 ∷ []) + 3 ≡ 4
unfolding find_item
consume_materials-count_of_example =
    consume_materials-count_of (env_at 200) offered "plain" stocked (refl, (refl, tt))
      stocked-IsStock consumed

pray_tx-Vowed_example : Vowed offer (env_at 200) stocked outcome vowed_rows
pray_tx-Vowed_example = pray_tx-Vowed pool offer (some 2048) random (env_at 200) stocked vow

pool-IsDrawable : IsDrawable pool
pool-IsDrawable = (parse_skin_pool-IsDrawable text header reads pool-loaded).0

pray_tx-rarity_of_example :
    (roll_success none (record { num = 400000000; den = 10 }) (some 2048) ≡ some true)
    × (rarity_of pool "mossy" ≡ some uncommon)
pray_tx-rarity_of_example =
    pray_tx-rarity_of pool offer (some 2048) random (env_at 200) stocked pool-IsDrawable vow

pray_tx-count_of_example : count_of "mossy" vowed_rows.inventories + 1 ≡ 1 + 1
unfolding find_item
pray_tx-count_of_example =
    pray_tx-count_of pool offer (some 2048) random (env_at 200) stocked "mossy" (refl, (refl, tt))
      stocked-IsStock refl vow

offer_of-IsFair_example : IsFair vow_config pool request offer
unfolding offer_of pool compute_rarities rarity_of gacha_rarity known_part_type calc_success_rate
offer_of-IsFair_example =
    offer_of-IsFair vow_config pool request {o = offer} refl
      (record { power_range = omega arith; rate_range = omega arith; within = omega arith }, tt)
      refl
