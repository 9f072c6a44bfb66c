-- ===== src/Examples/Sample.antt =====
-- A player with two slots, in a cairn of three layers, and a pool of one skin for each rarity.
use stone_server.Prelude.{
  refl, ◌≡◌, arith, ℕ, String, false, Option, none, some, List, [], ◌∷◌, Result, ok, err,
}
use stone_server.Tables.{PlayerState, PlayerRows, Slot, Item, Env, NoFaults, common}
use stone_server.Cairn
use stone_server.Cairn.Apply.{IsOrdered}
use stone_server.Cairn.Laws.{IsGrowing}
use stone_server.Gacha.Rng.{gacha_rarity}
use stone_server.Gacha.Pool.{
  known_part_type, check_rarities, parts_by_rarity, parse_skin_pool, Text, Read, row, SkinPool,
  Seed, LoadError, empty_pool, load_rows,
}
use stone_server.Gacha.Pull.{GameConfig}

abbrev pub cairn : Cairn.Config
cairn = record { slot_count = 2; max_layers = 3; spawn_interval_seconds = 10 }

abbrev pub seed : ℕ → ℕ
seed n = n

abbrev pub env_at : ℕ → Env
env_at t = record { now = t; fault = λ _. false }

pub env_at-NoFaults : (t : ℕ) → NoFaults (env_at t)
env_at-NoFaults t = record { none_fails = λ _. refl }

abbrev pub state : PlayerState
state = record {
  enlightenment_pts = 50;
  time_stone_count = 0;
  streak_days = 1;
  last_login_date = none;
  next_gacha_at = none;
  enlightenment_rate = 2;
  last_sync_at = some 100;
  cairn_last_growth_at = some 100;
  updated_at = 100;
}

abbrev pub slot : ℕ → ℕ → Slot
slot i layers = record { slot_index = i; started_at = 100; claimed_at = none; layer_count = layers }

abbrev pub stack : String → ℕ → Item
stack id n = record {
  item_id = id;
  rarity = common;
  count = n;
  item_type = "stone_skin";
  source_type = "wish_cairn";
  acquired_at = 90;
}

abbrev pub rows : PlayerRows
rows = record {
  state = some state;
  inventories = stack "plain" 4 ∷ stack "grey" 2 ∷ [];
  slots = slot 0 3 ∷ slot 1 1 ∷ [];
  gacha_logs = [];
  vow_logs = [];
}

pub rows-IsOrdered : IsOrdered rows.slots
rows-IsOrdered = ((omega arith, tt), (tt, tt))

pub rows-IsGrowing : IsGrowing cairn state 100 rows
rows-IsGrowing = record {
  has_state = refl;
  has_anchor = refl;
  has_slots = omega arith;
  ordered = rows-IsOrdered;
  interval_pos = omega arith;
}

abbrev pub text : Text
text = record { trim_space = λ s. s; to_lower = λ s. s; trim_bom = λ s. s }

abbrev pub header : List String
header = "skinId" ∷ "partType" ∷ "rarity" ∷ []

abbrev pub reads : List Read
reads =
    row ("plain" ∷ "top" ∷ "common" ∷ [])
    ∷ row ("mossy" ∷ "top" ∷ "uncommon" ∷ [])
    ∷ row ("odd" ∷ "hat" ∷ "rare" ∷ [])
    ∷ row ("amber" ∷ "face" ∷ "rare" ∷ [])
    ∷ row ("jade" ∷ "face" ∷ "unique" ∷ [])
    ∷ row ("star" ∷ "effect" ∷ "legendary" ∷ [])
    ∷ []

abbrev loaded_or_empty : Result LoadError SkinPool → SkinPool
loaded_or_empty (ok pool) = pool
loaded_or_empty (err e) = empty_pool

unfoldable pub pool : SkinPool
unfolding load_rows
pool = loaded_or_empty (load_rows text reads empty_pool)

pub pool-loaded : parse_skin_pool text (some header) reads ≡ ok pool
unfolding pool parse_skin_pool load_rows gacha_rarity known_part_type check_rarities parts_by_rarity
pool-loaded = refl

abbrev pub game : GameConfig
game = record { pull_cost = 30; cooldown = 60 }

abbrev pub random : Option Seed
random = some (record { rarity_bits = 8500; part_bits = 3; skin_bits = 7; seed_hash = "h" })
