-- ===== src/Gacha/Rng.antt =====
-- internal/gacha/rng.go
use stone_server.Prelude.{
  ℕ, zero, suc, ◌≡◌, refl, Bool, List, [], ◌∷◌, Option, none, some, ltb, ◌==◌, str_eq, String,
  if◌then◌else◌,
}
use stone_server.Tables.{Rarity, common, uncommon, rare, unique, legendary}

abbrev pub gacha_rarities : List Rarity
gacha_rarities = common ∷ uncommon ∷ rare ∷ unique ∷ legendary ∷ []

-- `isGachaRarity`, and the constant that the text is then.
unfoldable pub gacha_rarity : String → Option Rarity
gacha_rarity s =
    if str_eq s "common"
    then some common
    else if str_eq s "uncommon"
    then some uncommon
    else if str_eq s "rare"
    then some rare
    else if str_eq s "unique"
    then some unique
    else if str_eq s "legendary"
    then some legendary
    else none

abbrev pub rarity_thresholds : List (Rarity × ℕ)
rarity_thresholds =
    (common, 8000) ∷ (uncommon, 9000) ∷ (rare, 9500) ∷ (unique, 9990) ∷ (legendary, 10000) ∷ []

unfoldable pub first_above : ℕ → List (Rarity × ℕ) → Rarity
first_above roll [] = legendary
first_above roll ((r, threshold) ∷ rest) = if ltb roll threshold then r else first_above roll rest

unfoldable pub determine_rarity : ℕ → Rarity
unfolding first_above
determine_rarity roll = first_above roll rarity_thresholds

-- internal/vow/vow.go, `rarityOrder`
abbrev pub rarity_order : Rarity → ℕ
rarity_order common = 1
rarity_order uncommon = 2
rarity_order rare = 3
rarity_order unique = 4
rarity_order legendary = 5

abbrev pub rarity_eq : Rarity → Rarity → Bool
rarity_eq r s = rarity_order r == rarity_order s

-- The number of rolls below n that give the rarity.
pub rolls_of : Rarity → ℕ → ℕ
rolls_of r zero = 0
rolls_of r (suc n) =
    let rest = rolls_of r n in if rarity_eq (determine_rarity n) r then suc rest else rest

-- The comment's table, in hundredths of a percent.
abbrev pub share : Rarity → ℕ
share common = 8000
share uncommon = 1000
share rare = 500
share unique = 490
share legendary = 10

-- Of the 10000 rolls each rarity has the share that the comment promises.
pub rolls_of-share : (r : Rarity) → rolls_of r 10000 ≡ share r
unfolding rolls_of determine_rarity
rolls_of-share common = refl
rolls_of-share uncommon = refl
rolls_of-share rare = refl
rolls_of-share unique = refl
rolls_of-share legendary = refl
