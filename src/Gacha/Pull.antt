-- ===== src/Gacha/Pull.antt =====
-- internal/gacha/gacha.go: `Status`, `Pull`, `execPull` and the cooldown.
--
-- A request runs at one instant `env.now`, in whole seconds: its comparisons are between that
-- instant and times of second resolution. The random seed, the growth seed and the texts of times
-- are arguments. A panic of `Roll` rolls back as an error does.
pub mod Run
pub mod Laws
pub mod Rows
pub mod Succeeds
use stone_server.Prelude.{
  ℕ, ℤ, pos, negsuc, ◌+◌, ◌-◌, ◌≡◌, Bool, true, false, not, ◌&&◌, ◌||◌, Option, none, some, List,
  [], ◌∷◌, ◌++◌, String, ltb, leb, ◌==◌, if◌then◌else◌, Result, ok, err, ◌>>=◌, ◌>>◌, refuse_if,
}
use stone_server.Tables.{
  Rarity, PlayerState, PlayerRows, Slot, GachaLog, Env, Error, begin, commit, gate, claim_slot,
  read_layer, append_log, read_next, db_failed, rand_failed, panicked, kv_failed, cairn_incomplete,
  cairn_slot_not_found, cooldown_active, insufficient_points, Charge, charge_points, with_state,
}
use stone_server.Kv
use stone_server.Kv.{Key, KvStore}
use stone_server.Cairn
use stone_server.Cairn.{apply_growth, find_layer}
use stone_server.Gacha.Pool.{SkinPool, Seed, RollResult, Drawn, drawn, no_random, roll}
use stone_server.Gacha.Grant.{RewardGrant, grant_item, item_type_stone_skin, source_wish_cairn}

pub record GameConfig : Type 0 where
  pub pull_cost : ℕ
  pub cooldown : ℕ

pub record PullResponse : Type 0 where
  pub item_id : String
  pub rarity : Rarity
  pub is_duplicate : Bool
  pub refund_points : ℕ
  pub next_gacha_at : ℕ
  pub balance_after : ℕ
  pub last_sync_at : ℕ
  pub new_count : ℕ
  pub source_type : String
  pub reward : RewardGrant

-- next_gacha_at IS NULL OR next_gacha_at <= now
abbrev pub cooled_down : ℕ → PlayerState → Bool
cooled_down now st = elim st.next_gacha_at [ none ↦ true | some t ↦ leb t now ]

abbrev pub claimed_cooldown : ℕ → ℕ → PlayerState → PlayerState
claimed_cooldown now cooldown st = record st {
  next_gacha_at = some (now + cooldown);
  updated_at = now;
}

-- Step 0a: the gate that lets one of two concurrent pulls through.
unfoldable pub claim_cooldown : GameConfig → Env → PlayerRows → Result Error PlayerRows
claim_cooldown cfg env db = if env.fault gate then err db_failed else elim db.state [
  | none ↦ err cooldown_active
  | some st ↦
      if cooled_down env.now st
      then ok (with_state (claimed_cooldown env.now cfg.cooldown st) db)
      else err cooldown_active
]

abbrev pub is_claimable : ℕ → ℕ → Slot → Bool
is_claimable i max s = s.slot_index == i && leb max s.layer_count

abbrev pub claimed : ℕ → Slot → Slot
claimed now s = record s { layer_count = 0; started_at = now; claimed_at = some now }

-- The rows that the UPDATE of step 0 leaves, and whether it affects any.
unfoldable pub claim_rows : ℕ → ℕ → ℕ → List Slot → List Slot × Bool
claim_rows now i max [] = ([], false)
claim_rows now i max (s ∷ rows) =
    let (rows', hit) = claim_rows now i max rows in
    if is_claimable i max s then (claimed now s ∷ rows', true) else (s ∷ rows', hit)

unfoldable pub claim_complete_slot : Cairn.Config → Env → ℕ → PlayerRows → Result Error PlayerRows
unfolding claim_rows
claim_complete_slot cairn env i db =
    let (rows, hit) = claim_rows env.now i cairn.max_layers db.slots in
    if env.fault claim_slot
    then err db_failed
    else if hit
    then ok (record db { slots = rows })
    else if env.fault read_layer
    then err db_failed
    else elim (find_layer i db.slots) [
      | none ↦ err cairn_slot_not_found
      | some _ ↦ err cairn_incomplete
    ]

unfoldable pub drawn_result : Drawn RollResult → Result Error RollResult
drawn_result (drawn r) = ok r
drawn_result no_random = err rand_failed
drawn_result Drawn.panicked = err panicked

abbrev pub gacha_log : Env → GameConfig → RollResult → Bool → Charge → GachaLog
gacha_log env cfg res is_duplicate ch = record {
  item_id = res.item_id;
  rarity = res.rarity;
  is_duplicate = is_duplicate;
  cost_points = cfg.pull_cost;
  refund_points = 0;
  balance_before = ch.balance_before;
  balance_after = ch.balance_after;
  accrued_pts = ch.accrued_pts;
  pulled_at = env.now;
}

abbrev pub pull_response : Env → GameConfig → RollResult → RewardGrant → Charge → PullResponse
pull_response env cfg res g ch = record {
  item_id = res.item_id;
  rarity = res.rarity;
  is_duplicate = g.is_duplicate;
  refund_points = 0;
  next_gacha_at = env.now + cfg.cooldown;
  balance_after = ch.balance_after;
  last_sync_at = ch.last_sync_at;
  new_count = g.new_count;
  source_type = source_wish_cairn;
  reward = g;
}

-- Steps 3 to 7: the roll, the grant, the log and the commit.
unfoldable pub finish_pull :
    GameConfig
    → SkinPool
    → Option Seed
    → Env
    → Charge
    → PlayerRows
    → Result Error (PullResponse × PlayerRows)
unfolding drawn_result
finish_pull cfg pool random env ch db = do
  res ← drawn_result (roll pool random)
  (g, db') ← grant_item env res.item_id res.rarity item_type_stone_skin source_wish_cairn db
  refuse_if (env.fault append_log) db_failed
  refuse_if (env.fault commit) db_failed
  ok (
    pull_response env cfg res g ch,
    record db' { gacha_logs = db'.gacha_logs ++ gacha_log env cfg res g.is_duplicate ch ∷ [] },
  )

unfoldable pub exec_pull :
    GameConfig
    → Cairn.Config
    → SkinPool
    → (ℕ → ℕ)
    → Option Seed
    → Env
    → ℕ
    → PlayerRows
    → Result Error (PullResponse × PlayerRows)
exec_pull cfg cairn pool seed random env slot_index db = do
  refuse_if (env.fault begin) db_failed
  db₁ ← claim_cooldown cfg env db
  db₂ ← apply_growth cairn seed env db₁
  db₃ ← claim_complete_slot cairn env slot_index db₂
  (ch, db₄) ← charge_points env cfg.pull_cost db₃
  finish_pull cfg pool random env ch db₄
