-- ===== src/Cairn/Backfill.antt =====
-- pkg/sqlitedb/sqlitedb.go: `backfillCairnSlots`, which fits the slots of every player to the
-- configuration when the server starts; here, those of one player.
use stone_server.Prelude.{
  ℕ, ◌<◌, ◌≡◌, refl, true, false, none, List, [], ◌∷◌, ltb, leb, ◌==◌, if◌then◌else◌, Result, ok,
  err, arith,
}
use stone_server.Tables.{
  Slot, Env, NoFaults, Error, db_failed, no_slots, backfill_slots, prune_slots,
}
use stone_server.Cairn.{Config, insert_slots, find_layer}
use stone_server.Cairn.Apply.{IsOrdered}
use stone_server.Cairn.Initial.{kept_or, insert_slots_lem}

-- One INSERT makes all the rows, so none of them fails alone.
abbrev pub at_once : Env → Env
at_once env = record env { fault = λ _. false }

-- INSERT OR IGNORE of the indices below the count
unfoldable pub backfilled : Config → Env → List Slot → List Slot
unfolding insert_slots
backfilled c env rows = (insert_slots c (at_once env) c.slot_count 0 rows).0

-- DELETE FROM wish_cairn_slots WHERE slot_index >= count
unfoldable pub prune_rows : ℕ → List Slot → List Slot
prune_rows count [] = []
prune_rows count (s ∷ rows) =
    let rest = prune_rows count rows in if leb count s.slot_index then rest else s ∷ rest

-- `no_slots` stands for the error of a count that is not positive.
unfoldable pub backfill_cairn_slots : Config → Env → List Slot → List Slot × Result Error (Unit {0})
unfolding backfilled prune_rows
backfill_cairn_slots c env rows =
    let rows' = backfilled c env rows in
    if c.slot_count == 0
    then (rows, err no_slots)
    else if env.fault backfill_slots
    then (rows, err db_failed)
    else if env.fault prune_slots
    then (rows', err db_failed)
    else (prune_rows c.slot_count rows', ok tt)

find_layer-prune_rows :
    (count j : ℕ) (rows : List Slot)
    → find_layer j (prune_rows count rows) ≡ (if ltb j count then find_layer j rows else none)
unfolding find_layer prune_rows
find_layer-prune_rows count j [] = ground arith
find_layer-prune_rows count j (s ∷ rows) = ground (arith, find_layer-prune_rows count j rows)

-- When the configured number of slots is positive and no statement fails, a player has after the
-- backfill the slots below that number and no others: those that were there with their layers, the
-- rest without layers.
pub backfill_cairn_slots_lem :
    (c : Config) (env : Env) (rows : List Slot) (j : ℕ)
    → NoFaults env
    → IsOrdered rows
    → 0 < c.slot_count
    → ((backfill_cairn_slots c env rows).1 ≡ ok tt)
      × (find_layer j (backfill_cairn_slots c env rows).0
          ≡ (if ltb j c.slot_count then kept_or (find_layer j rows) true else none))
unfolding backfill_cairn_slots backfilled
backfill_cairn_slots_lem c env rows j f o pos =
    let whole : NoFaults (at_once env) = record { none_fails = λ _. refl } in
    let (_, found) = insert_slots_lem c (at_once env) c.slot_count 0 rows j whole o in
    let first = f.none_fails backfill_slots in
    let second = f.none_fails prune_slots in
    (
      ground (arith, first, second, pos),
      ground (
        arith,
        first,
        second,
        pos,
        found,
        find_layer-prune_rows c.slot_count j (backfilled c env rows),
      ),
    )
