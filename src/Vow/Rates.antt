-- ===== src/Vow/Rates.antt =====
-- internal/vow/vow.go: `computeRarities`, `calcSuccessRate` and `rollSuccess`.
pub mod Crafted
use stone_server.Prelude.{
  ℕ, ℤ, pos, negsuc, suc, ◌+◌, ◌-◌, ◌*◌, ◌/◌, ◌%◌, ◌^◌, Bool, true, false, ◌&&◌, ◌||◌, Option, none,
  some, List, [], ◌∷◌, String, ltb, leb, ◌==◌, if◌then◌else◌, min,
}
use stone_server.Tables.{Rarity, common, uncommon, rare, unique, legendary}
use stone_server.Gacha.Rng.{rarity_order}
use stone_server.Gacha.Pool.{SkinPool, rarity_of}

pub record Material : Type 0 where
  pub item_id : String
  pub count : ℤ

abbrev pub two_to_64 : ℕ
two_to_64 = 18446744073709551616

-- The bits of an int64, and whether they are those of a negative number.
abbrev pub int64 : ℤ → ℕ
int64 (pos n) = n % two_to_64
int64 (negsuc n) = two_to_64 - suc n % two_to_64

abbrev pub is_negative : ℕ → Bool
is_negative n = leb 9223372036854775808 n

abbrev pub add64 : ℕ → ℕ → ℕ
add64 a b = (a + b) % two_to_64

abbrev pub is_positive : ℤ → Bool
is_positive (pos n) = ltb 0 n
is_positive (negsuc n) = false

-- The loop of `Pray` over the materials: `none` where a count is not positive.
unfoldable pub total_from : ℕ → List Material → Option ℕ
total_from total [] = some total
total_from total (m ∷ ms) =
    let rest = total_from (add64 total (int64 m.count)) ms in
    if is_positive m.count then rest else none

-- The loop of `computeRarities`: total and sum, or `none` where a material cannot be offered.
unfoldable pub weigh : SkinPool → ℕ → ℕ → List Material → Option (ℕ × ℕ)
weigh pool total sum [] = some (total, sum)
weigh pool total sum (m ∷ ms) = elim (rarity_of pool m.item_id) [
  | none ↦ none
  | some r ↦
      let o = rarity_order r in
      let rest =
        weigh pool (add64 total (int64 m.count)) (add64 sum (int64 (pos o) * int64 m.count)) ms in
      if leb 5 o then none else rest
]

unfoldable pub order_rarity : ℕ → Option Rarity
order_rarity o =
    if o == 1
    then some common
    else if o == 2
    then some uncommon
    else if o == 3
    then some rare
    else if o == 4
    then some unique
    else if o == 5
    then some legendary
    else none

-- floor(sum / total + 0.5), for a sum that is not negative and a positive total
abbrev pub rounded : ℕ → ℕ → ℕ
rounded total sum = (2 * sum + total) / (2 * total)

-- The base rarity and the target, from the rounded average.
unfoldable pub base_and_target : ℕ → Option (Rarity × Rarity)
unfolding order_rarity
base_and_target n = if ltb n 1 || leb 5 n then none else elim (order_rarity n) [
  | none ↦ none
  | some base ↦ elim (order_rarity (n + 1)) [ none ↦ none | some target ↦ some (base, target) ]
]

unfoldable pub compute_rarities : SkinPool → List Material → Option (Rarity × Rarity)
unfolding weigh base_and_target
compute_rarities pool ms = elim (weigh pool 0 0 ms) [
  | none ↦ none
  | some (total, sum) ↦
      if total == 0 || is_negative total
      then none
      else if is_negative sum
      then none
      else base_and_target (rounded total sum)
]

-- One percent, in the unit of the rates.
abbrev pub percent : ℕ
percent = 1000000

pub record VowTier : Type 0 where
  pub min_n_power : ℕ
  pub max_n_power : ℕ
  pub min_success_rate : ℕ
  pub max_success_rate : ℕ

-- The rate is `num / den`.
pub record Rate : Type 0 where
  pub num : ℕ
  pub den : ℕ

-- clamp(rate, 0, 100)
unfoldable pub clamp : Rate → Rate
clamp r = record { num = min r.num (100 * percent * r.den); den = r.den }

-- The part of a number above another; below it, 0.
abbrev pub above : ℤ → ℕ → ℕ
above (pos n) m = n - m
above (negsuc n) m = 0

-- InverseLerp, Lerp, Clamp: with t = p / q the rate min + (max - min) * t is
-- (min * (q - p) + max * p) / q.
unfoldable pub calc_success_rate : VowTier → ℤ → Rate
unfolding clamp
calc_success_rate tier n_power =
    let q = tier.max_n_power - tier.min_n_power in
    let p = min (above n_power tier.min_n_power) q in
    if leb tier.max_n_power tier.min_n_power
    then clamp (record { num = tier.max_success_rate; den = 1 })
    else clamp
        (record { num = tier.min_success_rate * (q - p) + tier.max_success_rate * p; den = q })

pub record DebugOptions : Type 0 where
  pub force_success : Bool
  pub force_failure : Bool
  pub infinite_n_power : Bool
  pub ignore_required_items : Bool

-- (bits >> 11) / 2^53 * 100 <= rate
unfoldable pub wins : ℕ → Rate → Bool
wins bits r = leb (bits / 2048 * (100 * percent) * r.den) (r.num * 9007199254740992)

-- `bits` is the number that crypto/rand gives, or `none` where it fails. The options are those
-- that the server honours.
unfoldable pub roll_success : Option DebugOptions → Rate → Option ℕ → Option Bool
unfolding wins
roll_success debug rate bits =
    let rolled : Option Bool = elim bits [ none ↦ none | some b ↦ some (wins b rate) ] in
    elim debug [
      | none ↦ rolled
      | some d ↦
          if d.force_success then some true else if d.force_failure then some false else rolled
    ]
