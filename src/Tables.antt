-- ===== src/Tables.antt =====
-- pkg/sqlitedb/sqlitedb.go, the schema: the rows that the tables hold for one player. Every
-- statement that the handlers send selects by `player_id`, so a handler sees these rows alone.
--
-- Times are whole seconds since the epoch: the columns hold RFC3339 texts of second resolution,
-- which are ordered as these numbers are. Points are counted in a fixed small unit, exactly; the
-- rounding of REAL is not modelled.
use stone_server.Prelude.{
  ℕ, ℤ, ◌+◌, ◌-◌, ◌*◌, ◌≡◌, String, Bool, false, Option, none, some, List, ltb, if◌then◌else◌, [],
  ◌∷◌, leb, Result, ok, err,
}

-- internal/gacha/rng.go
pub data Rarity : Type 0 where
  common uncommon rare unique legendary : Rarity

pub record PlayerState : Type 0 where
  pub enlightenment_pts : ℕ
  pub time_stone_count : ℕ
  pub streak_days : ℕ
  pub last_login_date : Option ℕ
  pub next_gacha_at : Option ℕ
  pub enlightenment_rate : ℕ
  pub last_sync_at : Option ℕ
  pub cairn_last_growth_at : Option ℕ
  pub updated_at : ℕ

pub record Item : Type 0 where
  pub item_id : String
  pub rarity : Rarity
  pub count : ℕ
  pub item_type : String
  pub source_type : String
  pub acquired_at : ℕ

pub record GachaLog : Type 0 where
  pub item_id : String
  pub rarity : Rarity
  pub is_duplicate : Bool
  pub cost_points : ℕ
  pub refund_points : ℕ
  pub balance_before : ℕ
  pub balance_after : ℕ
  pub accrued_pts : ℕ
  pub pulled_at : ℕ

pub record VowLog : Type 0 where
  pub base_rarity : Rarity
  pub target_rarity : Rarity
  pub cost_points : ℕ
  pub success : Bool
  pub reward_item_id : String
  pub reward_rarity : Rarity
  pub is_duplicate : Bool
  pub balance_before : ℕ
  pub balance_after : ℕ
  pub accrued_pts : ℕ
  pub success_rate : ℕ × ℕ
  pub materials : List (String × ℤ)
  pub prayed_at : ℕ

-- The primary key is (player_id, slot_index).
pub record Slot : Type 0 where
  pub slot_index : ℕ
  pub started_at : ℕ
  pub claimed_at : Option ℕ
  pub layer_count : ℕ

-- `slots` stands in the order of the primary key, which is the order that the queries ask for.
pub record PlayerRows : Type 0 where
  pub state : Option PlayerState
  pub inventories : List Item
  pub slots : List Slot
  pub gacha_logs : List GachaLog
  pub vow_logs : List VowLog

-- The statements that a handler sends, by what they do.
pub data Statement : Type 0 where
  begin commit read_anchor heal_anchor load_slots cas_anchor : Statement
  increment_slot insert_slot : ℕ → Statement
  gate claim_slot read_layer read_balance charge grant append_log : Statement
  consume : String → Statement
  prune load_inventory read_next read_next_again read_state update_state count_logs load_logs :
      Statement
  sync_state load_items load_slots_first load_slots_last : Statement
  upsert insert_state update_streak reset_anchor load_ledger backfill_slots prune_slots : Statement

-- A request runs at one instant, and any statement may fail: sent, scanned or iterated.
pub record Env : Type 0 where
  pub now : ℕ
  pub fault : Statement → Bool

-- No statement of the request fails.
pub record NoFaults (env : Env) : Type 0 where
  pub none_fails : (s : Statement) → env.fault s ≡ false

-- What the functions return as `error`.
pub data Error : Type 0 where
  db_failed no_rows invalid_interval rand_failed panicked kv_failed : Error
  insufficient_points insufficient_materials no_reward_pool no_slots : Error
  cairn_incomplete cairn_slot_not_found cooldown_active : Error

-- MAX(0, COALESCE((now - last_sync_at) * enlightenment_rate, 0))
unfoldable pub accrued : ℕ → PlayerState → ℕ
accrued now st = elim st.last_sync_at [ none ↦ 0 | some t ↦ (now - t) * st.enlightenment_rate ]

abbrev pub with_state : PlayerState → PlayerRows → PlayerRows
with_state st db = record db { state = some st }

-- ORDER BY acquired_at
unfoldable pub insert_by_age : Item → List Item → List Item
insert_by_age it [] = it ∷ []
insert_by_age it (x ∷ xs) =
    let rest = insert_by_age it xs in
    if leb it.acquired_at x.acquired_at then it ∷ x ∷ xs else x ∷ rest

unfoldable pub by_age : List Item → List Item
unfolding insert_by_age
by_age [] = []
by_age (it ∷ rows) = insert_by_age it (by_age rows)

-- The balance around a charge: what the audit logs record.
pub record Charge : Type 0 where
  pub balance_before : ℕ
  pub balance_after : ℕ
  pub accrued_pts : ℕ
  pub last_sync_at : ℕ

abbrev pub charged_state : ℕ → ℕ → PlayerState → PlayerState
charged_state now cost st = record st {
  enlightenment_pts = st.enlightenment_pts + accrued now st - cost;
  last_sync_at = some now;
}

-- The SELECT of the balance and the one UPDATE that accrues and deducts, of `execPull` and of
-- `execPray`; accrued = balance_after - balance_before + cost.
unfoldable pub charge_points : Env → ℕ → PlayerRows → Result Error (Charge × PlayerRows)
unfolding accrued
charge_points env cost db = if env.fault read_balance then err db_failed else elim db.state [
  | none ↦ err no_rows
  | some st ↦
      let after = st.enlightenment_pts + accrued env.now st - cost in
      if env.fault charge
      then err db_failed
      else if ltb (st.enlightenment_pts + accrued env.now st) cost
      then err insufficient_points
      else ok (
        record {
          balance_before = st.enlightenment_pts;
          balance_after = after;
          accrued_pts = after + cost - st.enlightenment_pts;
          last_sync_at = env.now;
        },
        with_state (charged_state env.now cost st) db,
      )
]
