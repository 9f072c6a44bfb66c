-- ===== src/Vow/Pray/Stock.antt =====
-- What the consumption of the materials does to the stacks of the player.
use stone_server.Prelude.{
  ℕ, ℤ, pos, negsuc, ◌+◌, ◌≡◌, refl, true, false, none, List, [], ◌∷◌, String, str_eq, eq_iff,
  if◌then◌else◌, ok, arith, All, Result-cases, inl, inr,
}
use stone_server.Tables.{Item, PlayerRows, Env}
use stone_server.Gacha.Grant.{find_item, count_of}
use stone_server.Vow.Rates.{Material, is_positive}
use stone_server.Vow.Pray.{take_item, take_materials, prune_items, consume_materials}

-- A player has one row for an item.
abbrev pub IsStock : List Item → Type 0
IsStock [] = Unit
IsStock (it ∷ rows) = (find_item it.item_id rows ≡ none) × IsStock rows

-- How many of an item the materials ask for.
abbrev pub asked : String → List Material → ℕ
asked id [] = 0
asked id (m ∷ ms) =
    (if str_eq m.item_id id then elim m.count [ pos n ↦ n | negsuc n ↦ 0 ] else 0) + asked id ms

find_item-take_item :
    (id j : String) (n : ℤ) (rows : List Item)
    → find_item id rows ≡ none
    → find_item id (take_item j n rows).0 ≡ none
unfolding find_item take_item
find_item-take_item id j n [] h = refl
find_item-take_item id j (pos n) (it ∷ rows) h =
    ground (arith, find_item-take_item id j (pos n) rows)
find_item-take_item id j (negsuc n) (it ∷ rows) h =
    ground (arith, find_item-take_item id j (negsuc n) rows)

pub take_item-IsStock :
    (j : String) (n : ℤ) (rows : List Item) → IsStock rows → IsStock (take_item j n rows).0
unfolding take_item
take_item-IsStock j n [] h = tt
take_item-IsStock j (pos n) (it ∷ rows) h = ground (
  arith,
  h.0,
  h.1,
  take_item-IsStock j (pos n) rows h.1,
  find_item-take_item it.item_id j (pos n) rows h.0,
)
take_item-IsStock j (negsuc n) (it ∷ rows) h = ground (
  arith,
  h.0,
  h.1,
  take_item-IsStock j (negsuc n) rows h.1,
  find_item-take_item it.item_id j (negsuc n) rows h.0,
)

count_of-take_item :
    (id j : String) (n : ℕ) (rows : List Item)
    → (take_item j (pos n) rows).1 ≡ true
    → count_of id (take_item j (pos n) rows).0 + (if str_eq j id then n else 0) ≡ count_of id rows
unfolding find_item take_item
count_of-take_item id j n [] h = absurd (ground arith)
count_of-take_item id j n (it ∷ rows) h =
    ground (
      arith,
      count_of-take_item id j n rows,
      eq_iff it.item_id id,
      eq_iff it.item_id j,
      eq_iff j id,
    )

pub find_item-prune_items :
    (id : String) (rows : List Item)
    → find_item id rows ≡ none
    → find_item id (prune_items rows) ≡ none
unfolding find_item prune_items
find_item-prune_items id [] h = refl
find_item-prune_items id (it ∷ rows) h = ground (arith, find_item-prune_items id rows)

count_of-prune_items :
    (id : String) (rows : List Item)
    → IsStock rows
    → count_of id (prune_items rows) ≡ count_of id rows
unfolding find_item prune_items
count_of-prune_items id [] h = refl
count_of-prune_items id (it ∷ rows) h = ground (
  arith,
  count_of-prune_items id rows h.1,
  find_item-prune_items it.item_id rows h.0,
  eq_iff it.item_id id,
)

pub take_rest :
    (env : Env) (m : Material) (ms : List Material) (rows : List Item) {rows' : List Item}
    → take_materials env (m ∷ ms) rows ≡ ok rows'
    → ((take_item m.item_id m.count rows).1 ≡ true)
      × (take_materials env ms (take_item m.item_id m.count rows).0 ≡ ok rows')
unfolding take_materials
take_rest env m ms rows e = ground arith

positive_count : (c : ℤ) → is_positive c ≡ true → (n : ℕ) × (c ≡ pos n)
positive_count (pos n) h = (n, refl)
positive_count (negsuc n) h = absurd (cc h)

take_materials_lem :
    (env : Env) (ms : List Material) (id : String) (rows : List Item) {rows' : List Item}
    → All (λ m. is_positive m.count ≡ true) ms
    → IsStock rows
    → take_materials env ms rows ≡ ok rows'
    → IsStock rows' × (count_of id rows' + asked id ms ≡ count_of id rows)
unfolding take_materials
take_materials_lem env [] id rows {rows'} a h e =
    let e' : rows ≡ rows' = cc in rw (← e') (h, omega arith)
take_materials_lem env (m ∷ ms) id rows a h e =
    let (hit, e₁) = take_rest env m ms rows e in
    let (n, c) = positive_count m.count a.0 in
    let took = count_of-take_item id m.item_id n rows (rw c at hit) in
    let stock = take_item-IsStock m.item_id m.count rows h in
    let (stock', total) =
      take_materials_lem env ms id (take_item m.item_id m.count rows).0 a.1 stock e₁ in
    (stock', rw c (omega (arith, took, rw c at total)))

pub consumed_rows :
    (env : Env) (ms : List Material) (db : PlayerRows) {rows : List Item} {db' : PlayerRows}
    → take_materials env ms db.inventories ≡ ok rows
    → consume_materials env false ms db ≡ ok db'
    → db' ≡ record db { inventories = prune_items rows }
unfolding consume_materials
consumed_rows env ms db q e = ground arith

-- Consuming the materials takes from the stack of each item what the materials ask for.
pub consume_materials-count_of :
    (env : Env) (ms : List Material) (id : String) (db : PlayerRows) {db' : PlayerRows}
    → All (λ m. is_positive m.count ≡ true) ms
    → IsStock db.inventories
    → consume_materials env false ms db ≡ ok db'
    → count_of id db'.inventories + asked id ms ≡ count_of id db.inventories
unfolding consume_materials
consume_materials-count_of env ms id db a h e =
    elim (Result-cases (take_materials env ms db.inventories)) [
      | inr (x, q) ↦ absurd (cc (rw (q, consume_materials) at e))
      | inl (rows, q) ↦
          let (stock, total) = take_materials_lem env ms id db.inventories a h q in
          let pruned = count_of-prune_items id rows stock in
          rw (consumed_rows env ms db q e) (omega (arith, pruned, total))
    ]
