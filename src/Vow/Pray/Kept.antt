-- ===== src/Vow/Pray/Kept.antt =====
-- What the handlers do to the rows of the items: a player keeps one row for an item, and no row
-- counts nothing.
use stone_server.Prelude.{
  ◌<◌, ◌≡◌, refl, Bool, true, false, Bool-cases, none, List, [], ◌∷◌, String, str_eq, eq_iff, ok,
  arith, All, Result-cases, inl, inr,
}
use stone_server.Tables.{Item, PlayerRows, Env}
use stone_server.Gacha.Grant.{find_item, upsert}
use stone_server.Vow.Rates.{Material}
use stone_server.Vow.Pray.{take_item, take_materials, prune_items, consume_materials}
use stone_server.Vow.Pray.Stock.{
  IsStock, find_item-prune_items, take_item-IsStock, take_rest, consumed_rows,
}

prune_items-IsStock : (rows : List Item) → IsStock rows → IsStock (prune_items rows)
unfolding prune_items
prune_items-IsStock [] h = tt
prune_items-IsStock (it ∷ rows) h =
    ground (arith, h.0, prune_items-IsStock rows h.1, find_item-prune_items it.item_id rows h.0)

take_materials-IsStock :
    (env : Env) (ms : List Material) (rows : List Item) {rows' : List Item}
    → IsStock rows
    → take_materials env ms rows ≡ ok rows'
    → IsStock rows'
unfolding take_materials
take_materials-IsStock env [] rows h e = ground (arith, h)
take_materials-IsStock env (m ∷ ms) rows h e =
    take_materials-IsStock env ms (take_item m.item_id m.count rows).0
      (take_item-IsStock m.item_id m.count rows h) (take_rest env m ms rows e).1

-- No row counts nothing.
abbrev pub IsHeld : List Item → Type 0
IsHeld = All λ it. 0 < it.count

prune_items-IsHeld : (rows : List Item) → IsHeld (prune_items rows)
unfolding prune_items
prune_items-IsHeld [] = tt
prune_items-IsHeld (it ∷ rows) = ground (arith, prune_items-IsHeld rows)

pub consume_materials-IsStock :
    (env : Env) (ignored : Bool) (ms : List Material) (db : PlayerRows) {db' : PlayerRows}
    → IsStock db.inventories × IsHeld db.inventories
    → consume_materials env ignored ms db ≡ ok db'
    → IsStock db'.inventories × IsHeld db'.inventories
unfolding consume_materials
consume_materials-IsStock env true ms db h e = ground (arith, h.0, h.1)
consume_materials-IsStock env false ms db h e =
    elim (Result-cases (take_materials env ms db.inventories)) [
      | inr (x, q) ↦ absurd (cc (rw (q, consume_materials) at e))
      | inl (rows, q) ↦
          let stock = take_materials-IsStock env ms db.inventories h.0 q in
          rw (consumed_rows env ms db q e) (prune_items-IsStock rows stock, prune_items-IsHeld rows)
    ]

find_item-upsert :
    (id : String) (new : Item) (rows : List Item)
    → find_item id rows ≡ none
    → str_eq new.item_id id ≡ false
    → find_item id (upsert new rows) ≡ none
unfolding find_item upsert
find_item-upsert id new [] h n = ground (arith, n)
find_item-upsert id new (it ∷ rows) h n =
    ground (arith, n, find_item-upsert id new rows, eq_iff it.item_id new.item_id)

-- A granted item joins the row of its stack, or is a row of its own.
pub upsert-IsStock :
    (new : Item) (rows : List Item)
    → new.count ≡ 1
    → IsStock rows × IsHeld rows
    → IsStock (upsert new rows) × IsHeld (upsert new rows)
unfolding upsert find_item
upsert-IsStock new [] one h = ((refl, tt), (omega (arith, one), tt))
upsert-IsStock new (it ∷ rows) one h = elim (Bool-cases (str_eq it.item_id new.item_id)) [
  | inl same ↦ rw same ((h.0.0, h.0.1), (omega arith, h.1.1))
  | inr other ↦
      let ih = upsert-IsStock new rows one (h.0.1, h.1.1) in
      let apart : str_eq new.item_id it.item_id ≡ false =
        ground (arith, other, eq_iff it.item_id new.item_id, eq_iff new.item_id it.item_id) in
      rw other ((find_item-upsert it.item_id new rows h.0.0 apart, ih.0), (h.1.0, ih.1))
]
