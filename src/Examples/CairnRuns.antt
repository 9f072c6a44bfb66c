-- ===== src/Examples/CairnRuns.antt =====
-- The theorems on the cairn, at the sample player.
use stone_server.Prelude.{◌≡◌, refl, true, List, some, [], ◌∷◌, ok, ◌>>=◌, arith}
use stone_server.Tables.{PlayerRows, Slot}
use stone_server.Cairn.{
  plan_from, plan_growth, anchor_is, write_layers, commit_growth, apply_growth, incomplete, bump,
  find_layer,
}
use stone_server.Cairn.Laws.{grown}
use stone_server.Cairn.Backfill.{backfill_cairn_slots, backfill_cairn_slots_lem}
use stone_server.Cairn.Initial.{kept_or}
use stone_server.Cairn.Windows.{apply_growth-apply_growth, commit_growth_once}
use stone_server.Examples.Sample.{
  rows-IsGrowing, cairn, seed, env_at, env_at-NoFaults, state, rows, slot,
}

-- The sample player, two layers later.
abbrev grown_rows : PlayerRows
grown_rows = record rows {
  state = some (record state { cairn_last_growth_at = some 130 });
  slots = slot 0 3 ∷ slot 1 3 ∷ [];
}

apply_growth-apply_growth_example :
    (apply_growth cairn seed (env_at 117) rows >>= λ db'. apply_growth cairn seed (env_at 135) db')
    ≡ apply_growth cairn seed (env_at 135) rows
apply_growth-apply_growth_example =
    apply_growth-apply_growth cairn seed (env_at 117) (env_at 135) state 100 rows
      (env_at-NoFaults 117) (env_at-NoFaults 135) rows-IsGrowing (omega arith)

commit_growth_once_example :
    (grown_rows ≡ grown cairn seed 135 100 state rows) × (grown_rows ≡ grown_rows)
unfolding apply_growth plan_growth plan_from commit_growth anchor_is write_layers incomplete bump
commit_growth_once_example =
    commit_growth_once cairn seed (env_at 135) (env_at 141) state 100 rows rows-IsGrowing
      (omega arith) (omega arith) refl refl refl refl

-- A third slot, of a configuration that had three, is dropped.
abbrev three_slots : List Slot
three_slots = slot 0 3 ∷ slot 2 1 ∷ []

backfill_cairn_slots_lem_example :
    ((backfill_cairn_slots cairn (env_at 135) three_slots).1 ≡ ok tt)
    × (find_layer 1 (backfill_cairn_slots cairn (env_at 135) three_slots).0
        ≡ kept_or (find_layer 1 three_slots) true)
backfill_cairn_slots_lem_example =
    backfill_cairn_slots_lem cairn (env_at 135) three_slots 1 (env_at-NoFaults 135)
      ((omega arith, tt), (tt, tt)) (omega arith)
