-- ===== src/Player/State.antt =====
-- What `GetState` replies and leaves.
use stone_server.Prelude.{
  ℕ, ◌<◌, ◌≡◌, ◌≢◌, refl, ◌∙◌, Bool, ◌&&◌, ◌||◌, some, List, [], ◌∷◌, map, length, length-map, ltb,
  Result-cases, inl, inr, >>=-eq-ok, ok, err, arith,
}
use stone_server.Kv.{is_some}
use stone_server.Tables.{
  PlayerState, PlayerRows, Slot, Env, NoFaults, Error, begin, commit, read_anchor, heal_anchor,
  load_slots, cas_anchor, read_state, load_items, load_slots_first, load_slots_last,
}
use stone_server.Cairn
use stone_server.Cairn.{
  Growth, find_layer, add_layers, add_to_slot, write_layers, commit_growth, plan_from, plan_growth,
  apply_growth, apply_growth_tx, slot_state, load_slot_states, initialize_slots, anchor_is,
}
use stone_server.Cairn.Apply.{IsOrdered, write_layers_total}
use stone_server.Cairn.Initial.{initialize_slots_lem}
use stone_server.Cairn.Frame.{SameEconomy}
use stone_server.Player.{state_of, state_response, ensure_slots, refresh_cairn, get_state}
use stone_server.Player.Laws.{apply_growth_tx-SameEconomy}

-- The slot with this index has been initialised.
abbrev pub has_slot : ℕ → List Slot → Bool
has_slot j rows = is_some (find_layer j rows)

has_slot-add_layers :
    (j i n : ℕ) (rows : List Slot) → has_slot j (add_layers i n rows) ≡ has_slot j rows
unfolding find_layer add_layers
has_slot-add_layers j i n [] = refl
has_slot-add_layers j i n (s ∷ rows) = ground (arith, has_slot-add_layers j i n rows)

has_slot-write_layers :
    (j : ℕ) (env : Env) (ps : List (ℕ × ℕ)) (rows : List Slot) {rows' : List Slot}
    → write_layers env ps rows ≡ ok rows'
    → has_slot j rows' ≡ has_slot j rows
unfolding write_layers add_to_slot
has_slot-write_layers j env [] rows e = ground arith
has_slot-write_layers j env ((i, n) ∷ ps) rows e =
    let (r, first, e') = >>=-eq-ok (add_to_slot env (i, n) rows) _ e in
    let ih = has_slot-write_layers j env ps r e' in
    ground (arith, ih, has_slot-add_layers j i n rows, first)

has_slot-commit_growth :
    (j : ℕ) (env : Env) (g : Growth) (db : PlayerRows) {db' : PlayerRows}
    → commit_growth env g db ≡ ok db'
    → has_slot j db'.slots ≡ has_slot j db.slots
unfolding commit_growth
has_slot-commit_growth j env Growth.heal db e = ground arith
has_slot-commit_growth j env Growth.nothing db e = ground arith
has_slot-commit_growth j env (Growth.advance old new incs) db e =
    elim (Result-cases (write_layers env incs db.slots)) [
      | inl (rows, w) ↦ ground (arith, w, has_slot-write_layers j env incs db.slots w)
      | inr (x, w) ↦ ground (arith, w)
    ]

commit_growth-err :
    (env : Env) (g : Growth) (db : PlayerRows) {x : Error}
    → NoFaults env
    → commit_growth env g db ≢ err x
unfolding commit_growth
commit_growth-err env Growth.heal db f e = ground (arith, f.none_fails heal_anchor)
commit_growth-err env Growth.nothing db f e = ground arith
commit_growth-err env (Growth.advance old new incs) db f e =
    let (rows, w) = write_layers_total env incs db.slots f in
    ground (arith, w, f.none_fails cas_anchor)

commit_growth_total :
    (env : Env) (g : Growth) (db : PlayerRows)
    → NoFaults env
    → (db' : PlayerRows) × (commit_growth env g db ≡ ok db')
commit_growth_total env g db f = elim (Result-cases (commit_growth env g db)) [
  | inl found ↦ found
  | inr (x, e) ↦ absurd (commit_growth-err env g db f e)
]

module _ (c : Cairn.Config) (seed : ℕ → ℕ) where
  has_slot-apply_growth_tx :
      (j : ℕ) (env : Env) (db : PlayerRows)
      → has_slot j (apply_growth_tx c seed env db).0.slots ≡ has_slot j db.slots
  unfolding apply_growth_tx apply_growth
  has_slot-apply_growth_tx j env db = elim (Result-cases (plan_growth c seed env db)) [
    | inl (g, e) ↦ elim (Result-cases (commit_growth env g db)) [
      | inl (db', e') ↦ ground (arith, e, e', has_slot-commit_growth j env g db e')
      | inr (x, e') ↦ ground (arith, e, e')
    ]
    | inr (x, e) ↦ ground (arith, e)
  ]

  plan_growth_total :
      (env : Env) (st : PlayerState) (db : PlayerRows)
      → NoFaults env
      → db.state ≡ some st
      → 0 < c.spawn_interval_seconds
      → (g : Growth) × (plan_growth c seed env db ≡ ok g)
  unfolding plan_growth plan_from
  plan_growth_total env st db f h pos = elim (Result-cases (plan_growth c seed env db)) [
    | inl found ↦ found
    | inr (x, e) ↦ absurd (ground (arith, f.none_fails read_anchor, f.none_fails load_slots))
  ]

  apply_growth_tx_total :
      (env : Env) (st : PlayerState) (db : PlayerRows)
      → NoFaults env
      → db.state ≡ some st
      → 0 < c.spawn_interval_seconds
      → (apply_growth_tx c seed env db).1 ≡ ok tt
  unfolding apply_growth_tx apply_growth
  apply_growth_tx_total env st db f h pos =
      let (g, e) = plan_growth_total env st db f h pos in
      let (db', e') = commit_growth_total env g db f in
      ground (arith, e, e', f.none_fails begin, f.none_fails commit)

  -- The rows that the growth starts from.
  ensure_slots_lem :
      (j : ℕ) (env : Env) (db : PlayerRows)
      → NoFaults env
      → IsOrdered db.slots
      → ((ensure_slots c env (map (slot_state c) db.slots) db).1 ≡ ok tt)
        × (has_slot j (ensure_slots c env (map (slot_state c) db.slots) db).0.slots
            ≡ has_slot j db.slots || (ltb (length db.slots) c.slot_count && ltb j c.slot_count))
        × ((ensure_slots c env (map (slot_state c) db.slots) db).0.state ≡ db.state)
        × SameEconomy db (ensure_slots c env (map (slot_state c) db.slots) db).0
  unfolding ensure_slots
  ensure_slots_lem j env db f o =
      let (done, found) = initialize_slots_lem c env db.slots j f o in
      let same = length-map (slot_state c) db.slots in
      (ground (arith, done, same), ground (arith, found, same), ground arith, ground arith)

  SameEconomy-trans : {a b d : PlayerRows} → SameEconomy a b → SameEconomy b d → SameEconomy a d
  SameEconomy-trans p q = record {
    same_purse = q.same_purse ∙ p.same_purse;
    same_items = q.same_items ∙ p.same_items;
    same_gacha_logs = q.same_gacha_logs ∙ p.same_gacha_logs;
    same_vow_logs = q.same_vow_logs ∙ p.same_vow_logs;
  }

  refresh_cairn_lem :
      (j : ℕ) (env : Env) (st : PlayerState) (db : PlayerRows)
      → NoFaults env
      → db.state ≡ some st
      → IsOrdered db.slots
      → 0 < c.spawn_interval_seconds
      → ((refresh_cairn c seed env db).1
          ≡ ok (map (slot_state c) (refresh_cairn c seed env db).0.slots))
        × (has_slot j (refresh_cairn c seed env db).0.slots
            ≡ has_slot j db.slots || (ltb (length db.slots) c.slot_count && ltb j c.slot_count))
        × SameEconomy db (refresh_cairn c seed env db).0
  unfolding refresh_cairn load_slot_states
  refresh_cairn_lem j env st db f h o pos =
      let slots = map (slot_state c) db.slots in
      let (done, found, has, same) = ensure_slots_lem j env db f o in
      let db₁ = (ensure_slots c env slots db).0 in
      let grows = apply_growth_tx_total env st db₁ f (has ∙ h) pos in
      let first = f.none_fails load_slots_first in
      let last = f.none_fails load_slots_last in
      (
        ground (arith, done, grows, first, last),
        ground (arith, done, grows, first, has_slot-apply_growth_tx j env db₁, found),
        ground (
          arith,
          done,
          grows,
          first,
          same,
          apply_growth_tx-SameEconomy c seed env db₁,
          SameEconomy-trans same (apply_growth_tx-SameEconomy c seed env db₁),
        ),
      )

  -- What a player reads, when no statement fails, the slots stand in order and the growth interval
  -- is positive: the stored balance and clocks, the inventory, and the slots as the request leaves
  -- them. Slots that were there stay, and where some were missing all are made. The balance, its
  -- clocks, the items and the logs do not change.
  pub get_state_lem :
      (j : ℕ) (env : Env) (st : PlayerState) (db : PlayerRows)
      → NoFaults env
      → db.state ≡ some st
      → IsOrdered db.slots
      → 0 < c.spawn_interval_seconds
      → ((get_state c seed env db).1
          ≡ state_of (
              state_response c st db.inventories
                (map (slot_state c) (get_state c seed env db).0.slots)))
        × (has_slot j (get_state c seed env db).0.slots
            ≡ has_slot j db.slots || (ltb (length db.slots) c.slot_count && ltb j c.slot_count))
        × SameEconomy db (get_state c seed env db).0
  unfolding get_state
  get_state_lem j env st db f h o pos =
      let (reply, found, same) = refresh_cairn_lem j env st db f h o pos in
      let read = f.none_fails read_state in
      let items = f.none_fails load_items in
      (
        ground (arith, h, reply, read, items),
        ground (arith, h, reply, found, read, items),
        ground (arith, h, reply, same, read, items),
      )
