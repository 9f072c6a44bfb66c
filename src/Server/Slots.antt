-- ===== src/Server/Slots.antt =====
-- The slots of a player stand in the order of their key and hold no more layers than are
-- configured, whatever the handlers do to them.
use stone_server.Prelude.{
  ℕ, zero, suc, ◌≤◌, ◌≡◌, refl, List, [], ◌∷◌, All, ok, Result-cases, inl, inr, >>=-eq-ok, arith,
}
use stone_server.Tables.{PlayerRows, Slot, Env}
use stone_server.Cairn.{
  Config, Growth, insert_row, new_slot, insert_slots, initialize_slots, layers_of, add_layers,
  add_to_slot, write_layers, plan_growth, commit_growth, apply_growth, apply_growth_tx,
}
use stone_server.Cairn.Apply.{Above, IsOrdered}
use stone_server.Cairn.Initial.{insert_row-IsOrdered}
use stone_server.Cairn.Backfill.{backfilled, at_once, prune_rows, backfill_cairn_slots}
use stone_server.Cairn.Bounds.{apply_growth-le}
use stone_server.Gacha.Pull.{claim_rows}

-- The rows are ordered, and none has more layers than max.
abbrev pub Fits : ℕ → List Slot → Type 0
Fits max rows = IsOrdered rows × All (λ l. l ≤ max) (layers_of rows)

add_layers-Above : (k i n : ℕ) (rows : List Slot) → Above k rows → Above k (add_layers i n rows)
unfolding add_layers
add_layers-Above k i n [] h = tt
add_layers-Above k i n (s ∷ rows) h = ground (arith, h.0, add_layers-Above k i n rows h.1)

add_layers-IsOrdered :
    (i n : ℕ) (rows : List Slot) → IsOrdered rows → IsOrdered (add_layers i n rows)
unfolding add_layers
add_layers-IsOrdered i n [] h = tt
add_layers-IsOrdered i n (s ∷ rows) h =
    ground (arith, add_layers-Above s.slot_index i n rows h.0, add_layers-IsOrdered i n rows h.1)

write_layers-IsOrdered :
    (env : Env) (ps : List (ℕ × ℕ)) (rows : List Slot) {rows' : List Slot}
    → IsOrdered rows
    → write_layers env ps rows ≡ ok rows'
    → IsOrdered rows'
unfolding write_layers add_to_slot
write_layers-IsOrdered env [] rows h e = ground (arith, h)
write_layers-IsOrdered env ((i, n) ∷ ps) rows h e =
    let (r, first, e') = >>=-eq-ok (add_to_slot env (i, n) rows) _ e in
    let here : IsOrdered r = ground (arith, h, add_layers-IsOrdered i n rows h) in
    write_layers-IsOrdered env ps r here e'

commit_growth-IsOrdered :
    (env : Env) (g : Growth) (db : PlayerRows) {db' : PlayerRows}
    → IsOrdered db.slots
    → commit_growth env g db ≡ ok db'
    → IsOrdered db'.slots
unfolding commit_growth
commit_growth-IsOrdered env Growth.heal db h e = ground (arith, h)
commit_growth-IsOrdered env Growth.nothing db h e = ground (arith, h)
commit_growth-IsOrdered env (Growth.advance old new incs) db h e =
    elim (Result-cases (write_layers env incs db.slots)) [
      | inl (rows, w) ↦ ground (arith, h, w, write_layers-IsOrdered env incs db.slots h w)
      | inr (x, w) ↦ ground (arith, h, w)
    ]

pub apply_growth-Fits :
    (c : Config) (seed : ℕ → ℕ) (env : Env) (db : PlayerRows) {db' : PlayerRows}
    → Fits c.max_layers db.slots
    → apply_growth c seed env db ≡ ok db'
    → Fits c.max_layers db'.slots
unfolding apply_growth
apply_growth-Fits c seed env db f e =
    let (g, planned, e') = >>=-eq-ok (plan_growth c seed env db) _ e in
    (commit_growth-IsOrdered env g db f.0 e', apply_growth-le c seed env db f.0 f.1 e)

pub apply_growth_tx-Fits :
    (c : Config) (seed : ℕ → ℕ) (env : Env) (db : PlayerRows)
    → Fits c.max_layers db.slots
    → Fits c.max_layers (apply_growth_tx c seed env db).0.slots
unfolding apply_growth_tx
apply_growth_tx-Fits c seed env db f = elim (Result-cases (apply_growth c seed env db)) [
  | inl (db', e) ↦ ground (arith, e, f.0, f.1, apply_growth-Fits c seed env db f e)
  | inr (x, e) ↦ ground (arith, e, f.0, f.1)
]

insert_row-le :
    (max : ℕ) (s : Slot) (rows : List Slot)
    → s.layer_count ≡ 0
    → All (λ l. l ≤ max) (layers_of rows)
    → All (λ l. l ≤ max) (layers_of (insert_row s rows))
unfolding insert_row
insert_row-le max s [] e h = (omega (arith, e), tt)
insert_row-le max s (r ∷ rows) e h = ground (arith, e, h.0, h.1, insert_row-le max s rows e h.1)

insert_slots-Fits :
    (c : Config) (env : Env) (n i : ℕ) (rows : List Slot)
    → Fits c.max_layers rows
    → Fits c.max_layers (insert_slots c env n i rows).0
unfolding insert_slots
insert_slots-Fits c env zero i rows f = f
insert_slots-Fits c env (suc n) i rows f =
    let s = new_slot c env.now i in
    let next : Fits c.max_layers (insert_row s rows) =
      (insert_row-IsOrdered s rows f.0, insert_row-le c.max_layers s rows refl f.1) in
    ground (arith, f.0, f.1, insert_slots-Fits c env n (suc i) (insert_row s rows) next)

pub initialize_slots-Fits :
    (c : Config) (env : Env) (rows : List Slot)
    → Fits c.max_layers rows
    → Fits c.max_layers (initialize_slots c env rows).0
unfolding initialize_slots
initialize_slots-Fits c env rows f = insert_slots-Fits c env c.slot_count 0 rows f

prune_rows-Above : (k count : ℕ) (rows : List Slot) → Above k rows → Above k (prune_rows count rows)
unfolding prune_rows
prune_rows-Above k count [] h = tt
prune_rows-Above k count (s ∷ rows) h = ground (arith, h.0, prune_rows-Above k count rows h.1)

prune_rows-Fits :
    (max count : ℕ) (rows : List Slot) → Fits max rows → Fits max (prune_rows count rows)
unfolding prune_rows
prune_rows-Fits max count [] f = f
prune_rows-Fits max count (s ∷ rows) f = ground (
  arith,
  f.1.0,
  prune_rows-Above s.slot_index count rows f.0.0,
  prune_rows-Fits max count rows (f.0.1, f.1.1),
)

pub backfill_cairn_slots-Fits :
    (c : Config) (env : Env) (rows : List Slot)
    → Fits c.max_layers rows
    → Fits c.max_layers (backfill_cairn_slots c env rows).0
unfolding backfill_cairn_slots backfilled
backfill_cairn_slots-Fits c env rows f =
    let made = insert_slots-Fits c (at_once env) c.slot_count 0 rows f in
    let pruned = prune_rows-Fits c.max_layers c.slot_count (backfilled c env rows) made in
    ground (arith, f.0, f.1, made, pruned)

claim_rows-Above :
    (k now i max : ℕ) (rows : List Slot) → Above k rows → Above k (claim_rows now i max rows).0
unfolding claim_rows
claim_rows-Above k now i max [] h = tt
claim_rows-Above k now i max (s ∷ rows) h =
    ground (arith, h.0, claim_rows-Above k now i max rows h.1)

pub claim_rows-Fits :
    (now i max : ℕ) (rows : List Slot) → Fits max rows → Fits max (claim_rows now i max rows).0
unfolding claim_rows
claim_rows-Fits now i max [] f = f
claim_rows-Fits now i max (s ∷ rows) f = ground (
  arith,
  f.1.0,
  claim_rows-Above s.slot_index now i max rows f.0.0,
  claim_rows-Fits now i max rows (f.0.1, f.1.1),
)
