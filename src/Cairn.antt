-- ===== src/Cairn.antt =====
-- internal/cairn/cairn.go: the stored layers of a player's slots, and their growth.
--
-- `seed` stands for `growthSeed` at one player: the FNV hash of the player and the time of a step.
-- The text of the anchor is an RFC3339 time that the server wrote, so it parses. `plan_growth` is
-- `ApplyGrowth` up to step 6 and `commit_growth` the rest, so that two requests can interleave.
pub mod Steps
pub mod Apply
pub mod Laws
pub mod Windows
pub mod Bounds
pub mod Frame
pub mod Initial
pub mod Backfill
use stone_server.Prelude.{
  ℕ, zero, suc, ◌+◌, ◌-◌, ◌*◌, ◌/◌, ◌%◌, Bool, false, Option, none, some, List, [], ◌∷◌, map,
  length, get_or, ltb, leb, ◌==◌, if◌then◌else◌, Result, ok, err, ◌>>=◌, ◌>>◌, refuse_if,
}
use stone_server.Tables.{
  PlayerState, PlayerRows, Slot, Env, Statement, begin, commit, read_anchor, heal_anchor,
  load_slots, cas_anchor, increment_slot, insert_slot, Error, db_failed, no_rows, invalid_interval,
}

pub record Config : Type 0 where
  pub slot_count : ℕ
  pub max_layers : ℕ
  pub spawn_interval_seconds : ℕ

unfoldable pub phase_offset : Config → ℕ
phase_offset c = c.spawn_interval_seconds * c.max_layers / c.slot_count

pub data SlotStatus : Type 0 where
  building complete : SlotStatus

pub record SlotState : Type 0 where
  pub slot_index : ℕ
  pub started_at : ℕ
  pub layer_count : ℕ
  pub status : SlotStatus

unfoldable pub status_for : Config → ℕ → SlotStatus
status_for c layer_count = if leb c.max_layers layer_count then complete else building

-- INSERT ... ON CONFLICT (player_id, slot_index) DO NOTHING
unfoldable pub insert_row : Slot → List Slot → List Slot
insert_row s [] = s ∷ []
insert_row s (r ∷ rows) =
    if s.slot_index == r.slot_index
    then r ∷ rows
    else if ltb s.slot_index r.slot_index
    then s ∷ r ∷ rows
    else r ∷ insert_row s rows

abbrev pub new_slot : Config → ℕ → ℕ → Slot
new_slot c now i = record {
  slot_index = i;
  started_at = now - i * phase_offset c;
  claimed_at = none;
  layer_count = 0;
}

-- The loop of `InitializeSlots` from index `i`, `n` rounds from its end. It is no transaction:
-- after a failure the slots inserted before it stay.
unfoldable pub insert_slots : Config → Env → ℕ → ℕ → List Slot → List Slot × Result Error (Unit {0})
insert_slots c env zero i rows = (rows, ok tt)
insert_slots c env (suc n) i rows =
    let rest = insert_slots c env n (suc i) (insert_row (new_slot c env.now i) rows) in
    if env.fault (insert_slot i) then (rows, err db_failed) else rest

unfoldable pub initialize_slots : Config → Env → List Slot → List Slot × Result Error (Unit {0})
unfolding insert_slots insert_row phase_offset
initialize_slots c env rows = insert_slots c env c.slot_count 0 rows

abbrev pub slot_state : Config → Slot → SlotState
slot_state c s = record {
  slot_index = s.slot_index;
  started_at = s.started_at;
  layer_count = s.layer_count;
  status = status_for c s.layer_count;
}

-- `query` is the read, of those that a handler sends.
unfoldable pub load_slot_states :
    Config → Statement → Env → PlayerRows → Result Error (List SlotState)
load_slot_states c query env db = do
  refuse_if (env.fault query) db_failed
  ok (map (slot_state c) db.slots)

unfoldable pub find_layer : ℕ → List Slot → Option ℕ
find_layer i [] = none
find_layer i (s ∷ rows) = if s.slot_index == i then some s.layer_count else find_layer i rows

-- The indices j, from `j`, with slots[j].layer + applied[j] < MaxLayers.
unfoldable pub incomplete : ℕ → ℕ → List ℕ → List ℕ → List ℕ
incomplete max j [] applied = []
incomplete max j (l ∷ layers) [] = []
incomplete max j (l ∷ layers) (a ∷ applied) =
    let rest = incomplete max (suc j) layers applied in if ltb (l + a) max then j ∷ rest else rest

-- applied[pos]++
unfoldable pub bump : ℕ → List ℕ → List ℕ
bump pos [] = []
bump zero (a ∷ applied) = (a + 1) ∷ applied
bump (suc pos) (a ∷ applied) = a ∷ bump pos applied

abbrev pub pick : List ℕ → ℕ → ℕ
pick inc s = get_or inc (s % length inc) 0

-- The loop of step 5, `n` rounds from its end; `at` is the time of the next step.
unfoldable pub distribute : Config → (ℕ → ℕ) → ℕ → ℕ → List ℕ → List ℕ → List ℕ
distribute c seed zero at layers applied = applied
distribute c seed (suc n) at layers applied = elim (incomplete c.max_layers 0 layers applied) [
  | [] ↦ applied
  | p ∷ ps ↦
      distribute c seed n (at + c.spawn_interval_seconds) layers
        (bump (pick (p ∷ ps) (seed at)) applied)
]

-- What the reads of a request decide to write.
pub data Growth : Type 0 where
  heal nothing : Growth
  advance : ℕ → ℕ → List (ℕ × ℕ) → Growth

abbrev pub indices : List Slot → List ℕ
indices = map λ s. s.slot_index

abbrev pub layers_of : List Slot → List ℕ
layers_of = map λ s. s.layer_count

abbrev pub no_increments : List Slot → List ℕ
no_increments = map λ _. 0

pub paired : List Slot → List ℕ → List (ℕ × ℕ)
paired [] applied = []
paired (s ∷ rows) [] = []
paired (s ∷ rows) (a ∷ applied) = (s.slot_index, a) ∷ paired rows applied

-- Steps 3 to 6, from the anchor that was read.
unfoldable pub plan_from : Config → (ℕ → ℕ) → Env → ℕ → List Slot → Result Error Growth
unfolding paired distribute
plan_from c seed env anchor rows =
    let interval = c.spawn_interval_seconds in
    let steps = (env.now - anchor) / interval in
    let applied =
      distribute c seed steps (anchor + interval) (layers_of rows) (no_increments rows) in
    if interval == 0
    then err invalid_interval
    else if steps == 0
    then ok nothing
    else if env.fault load_slots
    then err db_failed
    else if ltb (length rows) c.slot_count
    then ok nothing
    else ok (advance anchor (anchor + steps * interval) (paired rows applied))

unfoldable pub plan_growth : Config → (ℕ → ℕ) → Env → PlayerRows → Result Error Growth
unfolding plan_from
plan_growth c seed env db = if env.fault read_anchor then err db_failed else elim db.state [
  | none ↦ err no_rows
  | some st ↦ elim st.cairn_last_growth_at [
    | none ↦ ok heal
    | some anchor ↦ plan_from c seed env anchor db.slots
  ]
]

-- UPDATE wish_cairn_slots SET layer_count = layer_count + n WHERE slot_index = i
unfoldable pub add_layers : ℕ → ℕ → List Slot → List Slot
add_layers i n [] = []
add_layers i n (s ∷ rows) =
    (if s.slot_index == i then record s { layer_count = s.layer_count + n } else s)
    ∷ add_layers i n rows

unfoldable pub add_to_slot : Env → ℕ × ℕ → List Slot → Result Error (List Slot)
unfolding add_layers
add_to_slot env (i, n) rows =
    if n == 0
    then ok rows
    else if env.fault (increment_slot i)
    then err db_failed
    else ok (add_layers i n rows)

unfoldable pub write_layers : Env → List (ℕ × ℕ) → List Slot → Result Error (List Slot)
unfolding add_to_slot
write_layers env [] rows = ok rows
write_layers env (p ∷ ps) rows = do rows' ← add_to_slot env p rows; write_layers env ps rows'

-- UPDATE player_states ... WHERE cairn_last_growth_at IS NULL
unfoldable pub heal_null : ℕ → PlayerState → PlayerState
heal_null now st = elim st.cairn_last_growth_at [
  | none ↦ record st { cairn_last_growth_at = some now }
  | some _ ↦ st
]

-- The stored anchor is still the one that was read.
unfoldable pub anchor_is : ℕ → Option PlayerState → Bool
anchor_is old none = false
anchor_is old (some st) = elim st.cairn_last_growth_at [ none ↦ false | some a ↦ a == old ]

abbrev pub move_anchor : ℕ → PlayerState → PlayerState
move_anchor new st = record st { cairn_last_growth_at = some new }

abbrev pub set_state : (PlayerState → PlayerState) → PlayerRows → PlayerRows
set_state f db = record db { state = elim db.state [ none ↦ none | some st ↦ some (f st) ] }

unfoldable pub commit_growth : Env → Growth → PlayerRows → Result Error PlayerRows
unfolding heal_null anchor_is write_layers
commit_growth env heal db =
    if env.fault heal_anchor then err db_failed else ok (set_state (heal_null env.now) db)
commit_growth env nothing db = ok db
commit_growth env (advance old new increments) db =
    if env.fault cas_anchor
    then err db_failed
    else if anchor_is old db.state
    then (do
      rows ← write_layers env increments db.slots
      ok (record (set_state (move_anchor new) db) { slots = rows }))
    else ok db

unfoldable pub apply_growth : Config → (ℕ → ℕ) → Env → PlayerRows → Result Error PlayerRows
apply_growth c seed env db = do g ← plan_growth c seed env db; commit_growth env g db

-- A transaction that fails is rolled back.
abbrev pub rolled_back : PlayerRows → Result Error PlayerRows → PlayerRows × Result Error (Unit {0})
rolled_back db (ok db') = (db', ok tt)
rolled_back db (err e) = (db, err e)

unfoldable pub apply_growth_tx :
    Config → (ℕ → ℕ) → Env → PlayerRows → PlayerRows × Result Error (Unit {0})
apply_growth_tx c seed env db = rolled_back db (do
  refuse_if (env.fault begin) db_failed
  db' ← apply_growth c seed env db
  refuse_if (env.fault commit) db_failed
  ok db')
