-- ===== src/Examples/PlayerRuns.antt =====
-- The theorems on the player's handlers, for the sample player.
use stone_server.Prelude.{◌≡◌, refl, ◌||◌, ◌&&◌, map, length, ltb, arith}
use stone_server.Tables.{charge_points}
use stone_server.Cairn.{slot_state}
use stone_server.Cairn.Frame.{SameEconomy}
use stone_server.Player.{state_of, state_response, sync, get_state}
use stone_server.Player.Laws.{balance_left, charge_points-sync}
use stone_server.Player.State.{has_slot, get_state_lem}
use stone_server.Examples.Sample.{cairn, seed, env_at, env_at-NoFaults, state, rows, rows-IsOrdered}

charge_points-sync_example :
    balance_left (charge_points (env_at 160) 150 (sync cairn seed (env_at 130) rows).0)
    ≡ balance_left (charge_points (env_at 160) 150 rows)
charge_points-sync_example =
    charge_points-sync cairn seed (env_at 130) (env_at 160) state 100 150 rows refl refl refl
      (omega arith) (omega arith)

get_state_lem_example :
    ((get_state cairn seed (env_at 125) rows).1
      ≡ state_of (
          state_response cairn state rows.inventories
            (map (slot_state cairn) (get_state cairn seed (env_at 125) rows).0.slots)))
    × (has_slot 1 (get_state cairn seed (env_at 125) rows).0.slots
        ≡ has_slot 1 rows.slots
          || (ltb (length rows.slots) cairn.slot_count && ltb 1 cairn.slot_count))
    × SameEconomy rows (get_state cairn seed (env_at 125) rows).0
get_state_lem_example =
    get_state_lem cairn seed 1 (env_at 125) state rows (env_at-NoFaults 125) refl rows-IsOrdered
      (omega arith)
