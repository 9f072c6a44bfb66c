-- ===== src/GameConfig.antt =====
-- pkg/gameconfig/gameconfig.go: what `validate` and the builders accept, of values whose
-- keys `Load` found; the reading of the file itself is in GameConfig/Load. A missing key of a tier
-- is `none`; a number is NaN, infinite, or a whole number of the units of Vow. The values of a
-- tier that was accepted are not negative, and are passed on as numbers.
pub mod Accepted
pub mod Tiers
pub mod Load
use stone_server.Prelude.{
  ℕ, ℤ, pos, negsuc, suc, ◌+◌, ◌-◌, ◌*◌, ◌%◌, Bool, true, false, not, ◌&&◌, ◌||◌, Option, none,
  some, List, [], ◌∷◌, String, ltb, leb, ◌==◌, if◌then◌else◌, Result, ok, err, ◌>>=◌, ◌>>◌,
  refuse_if,
}
use stone_server.Tables.{Rarity, common, uncommon, rare, unique, legendary}
use stone_server.Gacha.Rng.{gacha_rarity, rarity_eq}
use stone_server.Gacha.Pool.{Text}
use stone_server.Vow.Rates.{VowTier, percent, two_to_64, is_negative}

pub data Float : Type 0 where
  nan infinite : Float
  finite : ℤ → Float

pub data ConfigError : Type 0 where
  no_tiers bad_target duplicate_target missing_keys not_finite bad_tier bad_value : ConfigError

pub record RawTier : Type 0 where
  pub target_rarity : String
  pub min_n_power : Option Float
  pub max_n_power : Option Float
  pub min_success_rate : Option Float
  pub max_success_rate : Option Float

abbrev pub less : ℤ → ℤ → Bool
less (pos a) (pos b) = ltb a b
less (pos a) (negsuc b) = false
less (negsuc a) (pos b) = true
less (negsuc a) (negsuc b) = ltb b a

abbrev pub units : ℤ → ℕ
units (pos n) = n
units (negsuc n) = 0

-- The comparisons of `VowTier.validate`, on finite values.
unfoldable pub validate_tier : ℤ → ℤ → ℤ → ℤ → Result ConfigError VowTier
validate_tier lo hi slow fast =
    let full = pos (100 * percent) in
    if less lo (pos 0)
    then err bad_tier
    else if not (less lo hi)
    then err bad_tier
    else if less slow (pos 0) || less full slow || less fast (pos 0) || less full fast
    then err bad_tier
    else if less fast slow
    then err bad_tier
    else ok (record {
      min_n_power = units lo;
      max_n_power = units hi;
      min_success_rate = units slow;
      max_success_rate = units fast;
    })

unfoldable pub finite_tier : Float → Float → Float → Float → Result ConfigError VowTier
unfolding validate_tier
finite_tier (finite a) (finite b) (finite c) (finite d) = validate_tier a b c d
finite_tier _ _ _ _ = err not_finite

-- A tier whose rarity is valid and new.
unfoldable pub keyed_tier : RawTier → Result ConfigError VowTier
unfolding finite_tier
keyed_tier t = elim t.min_n_power [
  | none ↦ err missing_keys
  | some a ↦ elim t.max_n_power [
    | none ↦ err missing_keys
    | some b ↦ elim t.min_success_rate [
      | none ↦ err missing_keys
      | some c ↦ elim t.max_success_rate [ none ↦ err missing_keys | some d ↦ finite_tier a b c d ]
    ]
  ]
]

-- validVowRarities
abbrev pub valid_vow_rarity : Option Rarity → Option Rarity
valid_vow_rarity none = none
valid_vow_rarity (some common) = none
valid_vow_rarity (some r) = some r

abbrev pub has_rarity : Rarity → List Rarity → Bool
has_rarity r [] = false
has_rarity r (s ∷ seen) = rarity_eq r s || has_rarity r seen

-- The loop of `buildVowTiers`.
unfoldable pub build_tiers :
    Text → List Rarity → List RawTier → Result ConfigError (List (Rarity × VowTier))
unfolding keyed_tier
build_tiers t seen [] = ok []
build_tiers t seen (raw ∷ raws) =
    elim (valid_vow_rarity (gacha_rarity (t.to_lower (t.trim_space raw.target_rarity)))) [
      | none ↦ err bad_target
      | some r ↦ do
        refuse_if (has_rarity r seen) duplicate_target
        tier ← keyed_tier raw
        tiers ← build_tiers t (r ∷ seen) raws
        ok ((r, tier) ∷ tiers)
    ]

unfoldable pub build_vow_tiers : Text → List RawTier → Result ConfigError (List (Rarity × VowTier))
unfolding build_tiers
build_vow_tiers t [] = err no_tiers
build_vow_tiers t (raw ∷ raws) = build_tiers t [] (raw ∷ raws)

pub record ConfigFile : Type 0 where
  pub pull_cost : Float
  pub cooldown_seconds : ℤ
  pub slot_count : ℤ
  pub max_layers : ℤ
  pub spawn_interval_seconds : ℤ
  pub vow_required_item_count : ℤ

abbrev pub is_positive_float : Float → Bool
is_positive_float nan = false
is_positive_float infinite = false
is_positive_float (finite n) = less (pos 0) n

-- (a * b) % n != 0 on int64, for positive operands: the product may wrap to a negative number.
unfoldable pub divides : ℕ → ℕ → ℕ → Bool
divides a b n =
    let w = a * b % two_to_64 in if is_negative w then (two_to_64 - w) % n == 0 else w % n == 0

-- `Config.validate`.
unfoldable pub validate : ConfigFile → Result ConfigError (Unit {0})
unfolding divides
validate c = do
  refuse_if (not (is_positive_float c.pull_cost)) bad_value
  refuse_if (not (less (pos 0) c.cooldown_seconds)) bad_value
  refuse_if (not (units c.cooldown_seconds % 60 == 0)) bad_value
  refuse_if (not (less (pos 0) c.slot_count)) bad_value
  refuse_if (not (less (pos 0) c.max_layers)) bad_value
  refuse_if (not (less (pos 0) c.spawn_interval_seconds)) bad_value
  refuse_if
      (not (divides (units c.spawn_interval_seconds) (units c.max_layers) (units c.slot_count)))
      bad_value
  refuse_if (less (pos 50) c.slot_count) bad_value
  refuse_if (less (pos 100) c.max_layers) bad_value
  refuse_if (less (pos 86400) c.spawn_interval_seconds) bad_value
  refuse_if (less (pos 604800) c.cooldown_seconds) bad_value
  refuse_if (not (less (pos 0) c.vow_required_item_count)) bad_value
  ok tt
