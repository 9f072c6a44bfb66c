-- ===== src/Vow/Pray.antt =====
-- internal/vow/vow.go: `execPray` and the handler `Pray`.
--
-- `bits` and `seed` are what crypto/rand gives to `rollPercent` and to `PickByRarity`. The JSON
-- text of the materials in the log is kept as the materials.
pub mod Stock
pub mod Kept
pub mod Handler
pub mod Materials
pub mod Fair
pub mod Laws
pub mod Rows
use stone_server.Prelude.{
  ℕ, ℤ, pos, negsuc, suc, ◌+◌, ◌-◌, Bool, true, false, not, ◌&&◌, ◌||◌, Option, none, some, List,
  [], ◌∷◌, ◌++◌, map, String, str_eq, ltb, leb, ◌==◌, if◌then◌else◌, Result, ok, err, ◌>>=◌, ◌>>◌,
  refuse_if,
}
use stone_server.Tables.{
  Rarity, Item, PlayerRows, VowLog, Env, Error, begin, commit, append_log, consume, prune,
  load_inventory, db_failed, rand_failed, insufficient_points, insufficient_materials,
  no_reward_pool, Charge, charge_points, by_age,
}
use stone_server.Gacha.Rng.{rarity_eq}
use stone_server.Gacha.Pool.{SkinPool, Seed, pick_by_rarity}
use stone_server.Gacha.Grant.{RewardGrant, grant_item, item_type_stone_skin, source_vow_reward}
use stone_server.Vow.Rates.{
  Material, int64, total_from, compute_rarities, VowTier, Rate, calc_success_rate, DebugOptions,
  roll_success,
}

pub record PrayRequest : Type 0 where
  pub materials : List Material
  pub n_power : ℤ
  pub debug_options : Option DebugOptions

pub record PrayResponse : Type 0 where
  pub success : Bool
  pub reward : RewardGrant
  pub base_rarity : Rarity
  pub target_rarity : Rarity
  pub success_rate : Rate
  pub balance_after : ℕ
  pub last_sync_at : ℕ
  pub inventory : List Item

-- count - n where count >= n
abbrev pub taken : ℤ → ℕ → Option ℕ
taken (pos n) count = if leb n count then some (count - n) else none
taken (negsuc n) count = some (count + suc n)

-- UPDATE inventories SET count = count - n WHERE item_id = id AND count >= n: the rows, and
-- whether one is affected.
unfoldable pub take_item : String → ℤ → List Item → List Item × Bool
take_item id n [] = ([], false)
take_item id n (it ∷ rows) =
    let (rows', hit) = take_item id n rows in
    if str_eq it.item_id id
    then elim (taken n it.count) [
      | none ↦ (it ∷ rows, false)
      | some left ↦ (record it { count = left } ∷ rows, true)
    ]
    else (it ∷ rows', hit)

unfoldable pub take_materials : Env → List Material → List Item → Result Error (List Item)
unfolding take_item
take_materials env [] rows = ok rows
take_materials env (m ∷ ms) rows =
    let (rows', hit) = take_item m.item_id m.count rows in
    let rest = take_materials env ms rows' in
    if env.fault (consume m.item_id)
    then err db_failed
    else if hit
    then rest
    else err insufficient_materials

-- DELETE FROM inventories WHERE count <= 0
unfoldable pub prune_items : List Item → List Item
prune_items [] = []
prune_items (it ∷ rows) = let rest = prune_items rows in if it.count == 0 then rest else it ∷ rest

unfoldable pub consume_materials : Env → Bool → List Material → PlayerRows → Result Error PlayerRows
unfolding take_materials prune_items
consume_materials env true ms db = ok db
consume_materials env false ms db = do
  rows ← take_materials env ms db.inventories
  refuse_if (env.fault prune) db_failed
  ok (record db { inventories = prune_items rows })

-- A value, or the error where there is none.
abbrev pub or_err : {A : Type 0} → Option A → Error → Result Error A
or_err none e = err e
or_err (some a) e = ok a

-- The debug options, if the server honours them.
abbrev pub honoured : Bool → Option DebugOptions → Option DebugOptions
honoured false d = none
honoured true d = d

-- What `Pray` has decided before the transaction.
pub record Offer : Type 0 where
  pub materials : List Material
  pub cost : ℕ
  pub base : Rarity
  pub target : Rarity
  pub rate : Rate
  pub ignore_items : Bool
  pub debug : Option DebugOptions

abbrev pub reward_rarity : Offer → Bool → Rarity
reward_rarity o success = if success then o.target else o.base

abbrev pub vow_log : Env → Offer → Bool → String → RewardGrant → Charge → VowLog
vow_log env o success item g ch = record {
  base_rarity = o.base;
  target_rarity = o.target;
  cost_points = o.cost;
  success = success;
  reward_item_id = item;
  reward_rarity = reward_rarity o success;
  is_duplicate = g.is_duplicate;
  balance_before = ch.balance_before;
  balance_after = ch.balance_after;
  accrued_pts = ch.accrued_pts;
  success_rate = (o.rate.num, o.rate.den);
  materials = map (λ m. (m.item_id, m.count)) o.materials;
  prayed_at = env.now;
}

-- What the committed transaction hands to the response.
pub record Prayed : Type 0 where
  pub won : Bool
  pub reward_item : String
  pub grant : RewardGrant
  pub charge : Charge

-- Steps 3 to 5: the roll, the reward, the log and the commit.
unfoldable pub finish_pray :
    SkinPool
    → Offer
    → Option ℕ
    → Option Seed
    → Env
    → Charge
    → PlayerRows
    → Result Error (Prayed × PlayerRows)
finish_pray pool o bits seed env ch db = do
  success ← or_err (roll_success o.debug o.rate bits) rand_failed
  item ← or_err (pick_by_rarity pool (reward_rarity o success) seed) no_reward_pool
  (g, db') ← grant_item env item (reward_rarity o success) item_type_stone_skin source_vow_reward db
  refuse_if (env.fault append_log) db_failed
  refuse_if (env.fault commit) db_failed
  ok (
    record { won = success; reward_item = item; grant = g; charge = ch },
    record db' { vow_logs = db'.vow_logs ++ vow_log env o success item g ch ∷ [] },
  )

-- The transaction of `execPray`.
unfoldable pub pray_tx :
    SkinPool
    → Offer
    → Option ℕ
    → Option Seed
    → Env
    → PlayerRows
    → Result Error (Prayed × PlayerRows)
pray_tx pool o bits seed env db = do
  refuse_if (env.fault begin) db_failed
  (ch, db₁) ← charge_points env o.cost db
  db₂ ← consume_materials env o.ignore_items o.materials db₁
  finish_pray pool o bits seed env ch db₂

abbrev pub pray_response : Offer → Prayed → List Item → PrayResponse
pray_response o p inventory = record {
  success = p.won;
  reward = p.grant;
  base_rarity = o.base;
  target_rarity = o.target;
  success_rate = o.rate;
  balance_after = p.charge.balance_after;
  last_sync_at = p.charge.last_sync_at;
  inventory = inventory;
}

-- The rows that are left, and what is returned: the inventory is read again after the commit.
unfoldable pub exec_pray :
    SkinPool
    → Offer
    → Option ℕ
    → Option Seed
    → Env
    → PlayerRows
    → PlayerRows × Result Error PrayResponse
unfolding pray_tx by_age
exec_pray pool o bits seed env db = elim (pray_tx pool o bits seed env db) [
  | err e ↦ (db, err e)
  | ok (p, db') ↦
      if env.fault load_inventory
      then (db', err db_failed)
      else (db', ok (pray_response o p (by_age db'.inventories)))
]
