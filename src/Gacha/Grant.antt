-- ===== src/Gacha/Grant.antt =====
-- internal/gacha/grant.go
use stone_server.Prelude.{
  ℕ, ◌+◌, ◌≡◌, Bool, Option, none, some, List, [], ◌∷◌, String, str_eq, eq_iff, ltb, if◌then◌else◌,
  Result, ok, err, arith,
}
use stone_server.Tables.{Rarity, Item, PlayerRows, Env, Error, db_failed, grant}

abbrev pub item_type_stone_skin : String
item_type_stone_skin = "stone_skin"

abbrev pub source_wish_cairn : String
source_wish_cairn = "wish_cairn"

abbrev pub source_vow_reward : String
source_vow_reward = "vow_reward"

pub record RewardGrant : Type 0 where
  pub item_id : String
  pub item_type : String
  pub rarity : Rarity
  pub is_duplicate : Bool
  pub new_count : ℕ
  pub source_type : String
  pub acquired_at : ℕ

-- INSERT ... ON CONFLICT (player_id, item_id) DO UPDATE SET count = count + 1
unfoldable pub upsert : Item → List Item → List Item
upsert new [] = new ∷ []
upsert new (it ∷ rows) =
    if str_eq it.item_id new.item_id
    then record it { count = it.count + 1 } ∷ rows
    else it ∷ upsert new rows

-- The row that RETURNING reads: the one that was there, or the new one.
unfoldable pub find_item : String → List Item → Option Item
find_item id [] = none
find_item id (it ∷ rows) = if str_eq it.item_id id then some it else find_item id rows

abbrev pub count_of : String → List Item → ℕ
count_of id rows = elim (find_item id rows) [ none ↦ 0 | some it ↦ it.count ]

abbrev pub new_item : ℕ → String → Rarity → String → String → Item
new_item now id rarity item_type source_type = record {
  item_id = id;
  rarity = rarity;
  count = 1;
  item_type = item_type;
  source_type = source_type;
  acquired_at = now;
}

abbrev pub reward_grant : String → Rarity → String → String → ℕ → ℕ → RewardGrant
reward_grant id rarity item_type source_type count acquired_at = record {
  item_id = id;
  item_type = item_type;
  rarity = rarity;
  is_duplicate = ltb 1 count;
  new_count = count;
  source_type = source_type;
  acquired_at = acquired_at;
}

unfoldable pub grant_item :
    Env → String → Rarity → String → String → PlayerRows → Result Error (RewardGrant × PlayerRows)
unfolding upsert find_item
grant_item env id rarity item_type source_type db =
    let rows = upsert (new_item env.now id rarity item_type source_type) db.inventories in
    if env.fault grant then err db_failed else elim (find_item id rows) [
      | none ↦ err db_failed
      | some it ↦ ok (
        reward_grant id rarity item_type source_type it.count it.acquired_at,
        record db { inventories = rows },
      )
    ]

-- The stack of the granted item grows by one, and no other.
pub count_of-upsert :
    (new : Item) (id : String) (rows : List Item)
    → new.count ≡ 1
    → count_of id (upsert new rows)
      ≡ (if str_eq new.item_id id then count_of id rows + 1 else count_of id rows)
unfolding upsert find_item
count_of-upsert new id [] h = ground arith
count_of-upsert new id (it ∷ rows) h = ground (
  arith,
  count_of-upsert new id rows h,
  eq_iff it.item_id new.item_id,
  eq_iff it.item_id id,
  eq_iff new.item_id id,
)
