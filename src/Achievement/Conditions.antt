-- ===== src/Achievement/Conditions.antt =====
-- internal/achievement/conditions.go: what a player must have done.
use stone_server.Prelude.{
  ℕ, ◌+◌, Bool, true, false, Option, none, some, List, [], ◌∷◌, length, String, str_eq, leb,
  if◌then◌else◌,
}
use stone_server.Tables.{Rarity, common, uncommon, rare, unique, legendary, Item, PlayerRows}

pub data Achievement : Type 0 where
  first_pull rare_unlock legendary_unlock streak_7 streak_30 collector : Achievement

abbrev pub achievement_id : Achievement → String
achievement_id first_pull = "ACH_FIRST_PULL"
achievement_id rare_unlock = "ACH_RARE_UNLOCK"
achievement_id legendary_unlock = "ACH_LEGENDARY"
achievement_id streak_7 = "ACH_STREAK_7"
achievement_id streak_30 = "ACH_STREAK_30"
achievement_id collector = "ACH_COLLECTOR"

-- `allAchievements`, in the order of the list; it names the keys of the registry.
abbrev pub all_achievements : List Achievement
all_achievements =
    first_pull ∷ rare_unlock ∷ legendary_unlock ∷ streak_7 ∷ streak_30 ∷ collector ∷ []

abbrev pub is_rare_or_better : Rarity → Bool
is_rare_or_better common = false
is_rare_or_better uncommon = false
is_rare_or_better rare = true
is_rare_or_better unique = true
is_rare_or_better legendary = true

abbrev pub is_legendary : Rarity → Bool
is_legendary common = false
is_legendary uncommon = false
is_legendary rare = false
is_legendary unique = false
is_legendary legendary = true

-- SELECT COUNT(*) FROM inventories WHERE the rarity is one of these
unfoldable pub count_items : (Rarity → Bool) → List Item → ℕ
count_items wanted [] = 0
count_items wanted (it ∷ rows) =
    let n = count_items wanted rows in if wanted it.rarity then n + 1 else n

unfoldable pub check_streak_days : ℕ → PlayerRows → Bool
check_streak_days threshold db = elim db.state [
  | none ↦ false
  | some st ↦ leb threshold st.streak_days
]

-- The registry.
unfoldable pub condition : Achievement → PlayerRows → Bool
unfolding count_items check_streak_days
condition first_pull db = leb 1 (length db.gacha_logs)
condition rare_unlock db = leb 1 (count_items is_rare_or_better db.inventories)
condition legendary_unlock db = leb 1 (count_items is_legendary db.inventories)
condition streak_7 db = check_streak_days 7 db
condition streak_30 db = check_streak_days 30 db
condition collector db = leb 10 (length db.inventories)

-- registry[id]
unfoldable pub find_achievement : List Achievement → String → Option Achievement
find_achievement [] id = none
find_achievement (a ∷ as') id =
    if str_eq (achievement_id a) id then some a else find_achievement as' id

pub data Checked : Type 0 where
  condition_met condition_not_met check_failed : Checked

-- `fails` is whether the one query of the condition fails.
unfoldable pub check : Bool → PlayerRows → String → Checked
unfolding find_achievement condition
check fails db id = elim (find_achievement all_achievements id) [
  | none ↦ condition_not_met
  | some a ↦
      if fails then check_failed else if condition a db then condition_met else condition_not_met
]
