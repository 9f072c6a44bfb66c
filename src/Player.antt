-- ===== src/Player.antt =====
-- internal/player/player.go: the handlers `Sync` and `GetState`. A reply stands for the status and
-- the body of the response. Both run the growth of the cairn; `Sync` drops its error.
pub mod Laws
pub mod State
use stone_server.Prelude.{
  ℕ, ◌+◌, ◌-◌, Option, none, some, List, length, ltb, if◌then◌else◌, Result, ok, err, ◌>>=◌, ◌>>◌,
  refuse_if,
}
use stone_server.Tables.{
  PlayerState, Item, PlayerRows, Env, Error, db_failed, no_rows, accrued, with_state, by_age,
  sync_state, read_state, load_items, load_slots_first, load_slots_last,
}
use stone_server.Cairn
use stone_server.Cairn.{SlotState, initialize_slots, load_slot_states, apply_growth_tx}

pub record SyncResponse : Type 0 where
  pub enlightenment_pts : ℕ
  pub last_sync_at : ℕ

pub data SyncReply : Type 0 where
  synced : SyncResponse → SyncReply
  sync_not_found sync_failed : SyncReply

pub record CairnStateResponse : Type 0 where
  pub slot_count : ℕ
  pub max_layers : ℕ
  pub spawn_interval_sec : ℕ
  pub slots : List SlotState

pub record StateResponse : Type 0 where
  pub enlightenment_pts : ℕ
  pub enlightenment_rate : ℕ
  pub time_stone_count : ℕ
  pub streak_days : ℕ
  pub next_gacha_at : Option ℕ
  pub last_sync_at : Option ℕ
  pub inventory : List Item
  pub cairn : CairnStateResponse
  pub updated_at : ℕ

pub data StateReply : Type 0 where
  state_of : StateResponse → StateReply
  state_not_found state_failed : StateReply

-- The columns that the UPDATE of `Sync` sets.
abbrev pub synced_state : ℕ → PlayerState → PlayerState
synced_state now st = record st {
  enlightenment_pts = st.enlightenment_pts + accrued now st;
  last_sync_at = some now;
  updated_at = now;
}

module _ (c : Cairn.Config) where
  -- The lazy initialisation of slots that are missing. What it inserts before a failure stays.
  unfoldable pub ensure_slots :
      Env → List SlotState → PlayerRows → PlayerRows × Result Error (Unit {0})
  unfolding initialize_slots
  ensure_slots env slots db =
      let (rows, done) = initialize_slots c env db.slots in
      if ltb (length slots) c.slot_count then (record db { slots = rows }, done) else (db, ok tt)

  abbrev pub cairn_response : List SlotState → CairnStateResponse
  cairn_response slots = record {
    slot_count = c.slot_count;
    max_layers = c.max_layers;
    spawn_interval_sec = c.spawn_interval_seconds;
    slots = slots;
  }

  abbrev pub state_response : PlayerState → List Item → List SlotState → StateResponse
  state_response st items slots = record {
    enlightenment_pts = st.enlightenment_pts;
    enlightenment_rate = st.enlightenment_rate;
    time_stone_count = st.time_stone_count;
    streak_days = st.streak_days;
    next_gacha_at = st.next_gacha_at;
    last_sync_at = st.last_sync_at;
    inventory = by_age items;
    cairn = cairn_response slots;
    updated_at = st.updated_at;
  }

module _ (c : Cairn.Config) (seed : ℕ → ℕ) where
  unfoldable pub sync : Env → PlayerRows → PlayerRows × SyncReply
  unfolding apply_growth_tx
  sync env db = if env.fault sync_state then (db, sync_failed) else elim db.state [
    | none ↦ (db, sync_not_found)
    | some st ↦
        let st' = synced_state env.now st in
        let (db', growth_err) = apply_growth_tx c seed env (with_state st' db) in
        (db', synced (record { enlightenment_pts = st'.enlightenment_pts; last_sync_at = env.now }))
  ]

  -- The slots, then their growth, then the slots that it leaves.
  unfoldable pub refresh_cairn : Env → PlayerRows → PlayerRows × Result Error (List SlotState)
  unfolding load_slot_states ensure_slots apply_growth_tx
  refresh_cairn env db = elim (load_slot_states c load_slots_first env db) [
    | err e ↦ (db, err e)
    | ok slots ↦
        let (db₁, ensured) = ensure_slots c env slots db in
        let (db₂, growth) = apply_growth_tx c seed env db₁ in
        elim ensured [
          | err e ↦ (db₁, err e)
          | ok _ ↦ elim growth [
            | err e ↦ (db₂, err e)
            | ok _ ↦ (db₂, load_slot_states c load_slots_last env db₂)
          ]
        ]
  ]

  unfoldable pub get_state : Env → PlayerRows → PlayerRows × StateReply
  unfolding refresh_cairn by_age
  get_state env db =
      let (db', cairn) = refresh_cairn env db in
      if env.fault read_state then (db, state_failed) else elim db.state [
        | none ↦ (db, state_not_found)
        | some st ↦ if env.fault load_items then (db, state_failed) else elim cairn [
          | err e ↦ (db', state_failed)
          | ok slots ↦ (db', state_of (state_response c st db.inventories slots))
        ]
      ]
