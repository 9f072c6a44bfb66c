-- ===== src/Gacha/Pool.antt =====
-- internal/gacha/pool.go: the pool of skins, from the rows of skins.csv.
--
-- `Text` stands for the string functions of Go that the loader calls, and `Read` for what
-- `csv.Reader` returns, up to io.EOF. A random seed is given by the numbers that are read from it.
pub mod Sound
pub mod Draw
use stone_server.Prelude.{
  ℕ, zero, suc, ◌+◌, ◌%◌, ◌≡◌, refl, Bool, true, false, not, ◌&&◌, ◌||◌, List, [], ◌∷◌, ◌++◌,
  Option, none, some, ltb, ◌==◌, str_eq, String, if◌then◌else◌, arith, Result, ok, err, ◌>>=◌, ◌>>◌,
  refuse_if, length, get_or,
}
use stone_server.Tables.{Rarity, common, uncommon, rare, unique, legendary}
use stone_server.Gacha.Rng.{gacha_rarity, gacha_rarities, determine_rarity, rarity_eq}

pub record Text : Type 0 where
  pub trim_space : String → String
  pub to_lower : String → String
  pub trim_bom : String → String

pub data PartType : Type 0 where
  accessory bottom effect face outfit top : PartType

abbrev pub part_order : PartType → ℕ
part_order accessory = 0
part_order bottom = 1
part_order effect = 2
part_order face = 3
part_order outfit = 4
part_order top = 5

abbrev pub part_eq : PartType → PartType → Bool
part_eq p q = part_order p == part_order q

-- In the order of `sort.Strings`.
abbrev pub sorted_parts : List PartType
sorted_parts = accessory ∷ bottom ∷ effect ∷ face ∷ outfit ∷ top ∷ []

unfoldable pub known_part_type : String → Option PartType
known_part_type s =
    if str_eq s "top"
    then some top
    else if str_eq s "bottom"
    then some bottom
    else if str_eq s "outfit"
    then some outfit
    else if str_eq s "accessory"
    then some accessory
    else if str_eq s "face"
    then some face
    else if str_eq s "effect"
    then some effect
    else none

pub record LoadStats : Type 0 where
  pub total : ℕ
  pub loaded : ℕ
  pub skipped_bad_rarity : ℕ
  pub skipped_bad_part : ℕ
  pub skipped_malformed : ℕ

-- The maps as functions: a part type or a rarity with no bucket has the empty one.
pub record SkinPool : Type 0 where
  pub by_part_rarity : PartType → Rarity → List String
  pub skin_rarity : String → Option Rarity
  pub seen : String → Bool
  pub stats : LoadStats

pub data LoadError : Type 0 where
  read_header unexpected_header read_row duplicate_skin : LoadError
  rarity_has_no_skins : Rarity → LoadError

pub data Read : Type 0 where
  row : List String → Read
  failed : Read

abbrev pub no_stats : LoadStats
no_stats = record {
  total = 0;
  loaded = 0;
  skipped_bad_rarity = 0;
  skipped_bad_part = 0;
  skipped_malformed = 0;
}

abbrev pub empty_pool : SkinPool
empty_pool = record {
  by_part_rarity = λ p r. [];
  skin_rarity = λ s. none;
  seen = λ s. false;
  stats = no_stats;
}

unfoldable pub header_ok : Text → List String → Bool
header_ok t (a ∷ b ∷ c ∷ []) =
    str_eq (t.trim_space (t.trim_bom a)) "skinId"
    && str_eq (t.trim_space b) "partType"
    && str_eq (t.trim_space c) "rarity"
header_ok t _ = false

-- append(byPartRarity[part][rarity], skin) and skinRarity[skin] = rarity
unfoldable pub add_skin : String → PartType → Rarity → SkinPool → SkinPool
add_skin skin part rarity pool = record pool {
  by_part_rarity = λ p r.
      if part_eq p part && rarity_eq r rarity
      then pool.by_part_rarity p r ++ skin ∷ []
      else pool.by_part_rarity p r;
  skin_rarity = λ s. if str_eq s skin then some rarity else pool.skin_rarity s;
  seen = λ s. if str_eq s skin then true else pool.seen s;
  stats = record pool.stats { loaded = pool.stats.loaded + 1 };
}

abbrev pub skip_malformed : SkinPool → SkinPool
skip_malformed pool = record pool {
  stats = record pool.stats { skipped_malformed = pool.stats.skipped_malformed + 1 };
}

abbrev pub skip_bad_rarity : SkinPool → SkinPool
skip_bad_rarity pool = record pool {
  stats = record pool.stats { skipped_bad_rarity = pool.stats.skipped_bad_rarity + 1 };
}

abbrev pub skip_bad_part : SkinPool → SkinPool
skip_bad_part pool = record pool {
  stats = record pool.stats { skipped_bad_part = pool.stats.skipped_bad_part + 1 };
}

unfoldable pub load_skin : Text → String → String → String → SkinPool → Result LoadError SkinPool
unfolding add_skin
load_skin t skin part rarity pool =
    if str_eq skin ""
    then ok (skip_malformed pool)
    else if not (str_eq skin (t.to_lower skin))
    then ok (skip_malformed pool)
    else elim (gacha_rarity rarity) [
      | none ↦ ok (skip_bad_rarity pool)
      | some r ↦ elim (known_part_type part) [
        | none ↦ ok (skip_bad_part pool)
        | some p ↦ if pool.seen skin then err duplicate_skin else ok (add_skin skin p r pool)
      ]
    ]

abbrev pub count_row : SkinPool → SkinPool
count_row pool = record pool { stats = record pool.stats { total = pool.stats.total + 1 } }

unfoldable pub load_row : Text → List String → SkinPool → Result LoadError SkinPool
unfolding load_skin
load_row t (a ∷ b ∷ c ∷ []) pool =
    load_skin t (t.trim_space a) (t.to_lower (t.trim_space b)) (t.to_lower (t.trim_space c)) pool
load_row t _ pool = ok (skip_malformed pool)

unfoldable pub load_rows : Text → List Read → SkinPool → Result LoadError SkinPool
unfolding load_row
load_rows t [] pool = ok pool
load_rows t (failed ∷ reads) pool = err read_row
load_rows t (row rec ∷ reads) pool = do
  pool' ← load_row t rec (count_row pool)
  load_rows t reads pool'

abbrev pub has_skins : SkinPool → Rarity → PartType → Bool
has_skins pool r p = elim (pool.by_part_rarity p r) [ [] ↦ false | _ ∷ _ ↦ true ]

unfoldable pub keep_parts : SkinPool → Rarity → List PartType → List PartType
keep_parts pool r [] = []
keep_parts pool r (p ∷ ps) =
    let rest = keep_parts pool r ps in if has_skins pool r p then p ∷ rest else rest

-- The part types that have a skin of the rarity, sorted.
unfoldable pub parts_by_rarity : SkinPool → Rarity → List PartType
unfolding keep_parts
parts_by_rarity pool r = keep_parts pool r sorted_parts

-- The check that every rarity can be rolled.
unfoldable pub check_rarities : SkinPool → List Rarity → Result LoadError (Unit {0})
check_rarities pool [] = ok tt
check_rarities pool (r ∷ rs) = elim (parts_by_rarity pool r) [
  | [] ↦ err (rarity_has_no_skins r)
  | _ ∷ _ ↦ check_rarities pool rs
]

unfoldable pub parse_skin_pool : Text → Option (List String) → List Read → Result LoadError SkinPool
unfolding header_ok
parse_skin_pool t none reads = err read_header
parse_skin_pool t (some header) reads = do
  refuse_if (not (header_ok t header)) unexpected_header
  pool ← load_rows t reads empty_pool
  check_rarities pool gacha_rarities
  ok pool

unfoldable pub rarity_of : SkinPool → String → Option Rarity
rarity_of pool skin = pool.skin_rarity skin

-- What a skin is drawn with: the failure of the random source, a panic (an index into an empty
-- list), or the value.
pub data Drawn {ℓ} (A : Type ℓ) : Type ℓ where
  drawn : A → Drawn A
  no_random panicked : Drawn A

pub record Seed : Type 0 where
  pub rarity_bits : ℕ
  pub part_bits : ℕ
  pub skin_bits : ℕ
  pub seed_hash : String

pub record RollResult : Type 0 where
  pub item_id : String
  pub rarity : Rarity
  pub seed_hash : String

-- skins[n % len(skins)]
unfoldable pub nth_skin : List String → ℕ → Option String
nth_skin [] n = none
nth_skin (s ∷ ss) n = some (get_or (s ∷ ss) (n % length (s ∷ ss)) s)

unfoldable pub skin_at : SkinPool → Rarity → List PartType → ℕ → ℕ → Option String
unfolding nth_skin
skin_at pool r [] part_bits skin_bits = none
skin_at pool r (p ∷ ps) part_bits skin_bits =
    nth_skin (pool.by_part_rarity (get_or (p ∷ ps) (part_bits % length (p ∷ ps)) p) r) skin_bits

-- A rarity with no skins, or a random source that fails, gives no skin.
unfoldable pub pick_by_rarity : SkinPool → Rarity → Option Seed → Option String
unfolding skin_at
pick_by_rarity pool r none = none
pick_by_rarity pool r (some seed) =
    skin_at pool r (parts_by_rarity pool r) seed.part_bits seed.skin_bits

unfoldable pub roll : SkinPool → Option Seed → Drawn RollResult
unfolding skin_at
roll pool none = no_random
roll pool (some seed) =
    let rarity = determine_rarity (seed.rarity_bits % 10000) in
    elim (skin_at pool rarity (parts_by_rarity pool rarity) seed.part_bits seed.skin_bits) [
      | none ↦ panicked
      | some item ↦ drawn (record { item_id = item; rarity = rarity; seed_hash = seed.seed_hash })
    ]
