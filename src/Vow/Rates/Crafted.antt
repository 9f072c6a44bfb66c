-- ===== src/Vow/Rates/Crafted.antt =====
-- What `computeRarities` and `calcSuccessRate` compute.
use native.Mathlib.Nat.{mul-le-mul_right, le-div_iff_mul-le, div-lt_iff_lt-mul}
use stone_server.Prelude.{
  ℕ, ℤ, pos, negsuc, ◌+◌, ◌-◌, ◌*◌, ◌%◌, ◌≤◌, ◌<◌, ◌||◌, ◌≡◌, refl, ap, ◌∙◌, none, some, List, [],
  ◌∷◌, ◌==◌, if◌then◌else◌, min, arith, All, Option-cases, inl, inr,
}
use stone_server.Tables.{Rarity}
use stone_server.Gacha.Rng.{rarity_order}
use stone_server.Gacha.Pool.{SkinPool, rarity_of}
use stone_server.Vow.Rates.{
  Material, two_to_64, is_negative, add64, weigh, order_rarity, rounded, base_and_target,
  compute_rarities, percent, VowTier, clamp, above, calc_success_rate,
}

-- A rate that a tier's table allows: the ranges that the loader of the configuration checks.
pub record IsTier (tier : VowTier) : Type 0 where
  pub power_range : tier.min_n_power < tier.max_n_power
  pub rate_range : tier.min_success_rate ≤ tier.max_success_rate
  pub within : tier.max_success_rate ≤ 100 * percent

lerp_le : (a b d p : ℕ) → a ≤ b → (a * (d + p) ≤ a * d + b * p) × (a * d + b * p ≤ b * (d + p))
lerp_le a b d p h = (grind arith, grind arith)

lerp_bounds :
    (a b q p : ℕ) → a ≤ b → p ≤ q → (a * q ≤ a * (q - p) + b * p) × (a * (q - p) + b * p ≤ b * q)
lerp_bounds a b q p h k = let e : q - p + p ≡ q = omega arith in rw (e) at (lerp_le a b (q - p) p h)

spread : (b x y : ℕ) → b * (x + y) ≡ b * x + b * y
spread b x y = grind arith

line_mono : (a b q p p' : ℕ) → a ≤ b → p ≤ p' → p' ≤ q → a * (q - p) + b * p ≤ a * (q - p') + b * p'
line_mono a b q p p' h le le' =
    let here : q - p ≡ q - p' + (p' - p) = omega arith in
    let there : p' ≡ p + (p' - p) = omega arith in
    let more = mul-le-mul_right (p' - p) h in
    let left : a * (q - p) ≡ a * (q - p') + a * (p' - p) = rw here (grind arith) in
    let right : b * p' ≡ b * p + b * (p' - p) = ap (λ x. b * x) there ∙ spread b p (p' - p) in
    omega (arith, more, left, right)

-- The rate of a valid tier, unclamped: the line between its two rates.
abbrev pub power_above : VowTier → ℤ → ℕ
power_above tier n_power =
    min (above n_power tier.min_n_power) (tier.max_n_power - tier.min_n_power)

abbrev pub line : VowTier → ℕ → ℕ → ℕ
line tier q p = tier.min_success_rate * (q - p) + tier.max_success_rate * p

calc_success_rate-line :
    (tier : VowTier) (n_power : ℤ)
    → IsTier tier
    → calc_success_rate tier n_power ≡ record {
      num = line tier (tier.max_n_power - tier.min_n_power) (power_above tier n_power);
      den = tier.max_n_power - tier.min_n_power;
    }
unfolding calc_success_rate clamp
calc_success_rate-line tier n_power v =
    let q = tier.max_n_power - tier.min_n_power in
    let (low, high) =
      lerp_bounds tier.min_success_rate tier.max_success_rate q (power_above tier n_power)
        v.rate_range (omega arith) in
    let full = mul-le-mul_right q v.within in
    let small : line tier q (power_above tier n_power) ≤ 100000000 * q =
      omega (arith, high, full) in
    let kept : min (line tier q (power_above tier n_power)) (100000000 * q)
        ≡ line tier q (power_above tier n_power) =
      omega (arith, small) in
    ground (arith, v.power_range, kept)

-- The success rate of a valid tier lies between the two rates of the tier.
pub calc_success_rate-bounds :
    (tier : VowTier) (n_power : ℤ)
    → IsTier tier
    → (tier.min_success_rate * (calc_success_rate tier n_power).den
        ≤ (calc_success_rate tier n_power).num)
      × ((calc_success_rate tier n_power).num
          ≤ tier.max_success_rate * (calc_success_rate tier n_power).den)
      × (0 < (calc_success_rate tier n_power).den)
calc_success_rate-bounds tier n_power v =
    let (low, high) =
      lerp_bounds tier.min_success_rate tier.max_success_rate (tier.max_n_power - tier.min_n_power)
        (power_above tier n_power) v.rate_range (omega arith) in
    rw (calc_success_rate-line tier n_power v) (low, high, omega (arith, v.power_range))

-- More n_power never lowers the success rate of a valid tier.
pub calc_success_rate_mono :
    (tier : VowTier) (n m : ℕ)
    → IsTier tier
    → n ≤ m
    → ((calc_success_rate tier (pos n)).den ≡ (calc_success_rate tier (pos m)).den)
      × ((calc_success_rate tier (pos n)).num ≤ (calc_success_rate tier (pos m)).num)
calc_success_rate_mono tier n m v le =
    rw (calc_success_rate-line tier (pos n) v, calc_success_rate-line tier (pos m) v)
      (
        refl,
        line_mono tier.min_success_rate tier.max_success_rate (tier.max_n_power - tier.min_n_power)
            (power_above tier (pos n)) (power_above tier (pos m)) v.rate_range (omega arith)
            (omega arith),
      )

-- A material with a rarity between `lo` and `hi`, and a positive count.
pub record IsOffered (pool : SkinPool) (lo hi : ℕ) (m : Material) : Type 0 where
  pub rarity : Rarity
  pub items : ℕ
  pub has_rarity : rarity_of pool m.item_id ≡ some rarity
  pub has_count : m.count ≡ pos items
  pub at_least : lo ≤ rarity_order rarity
  pub at_most : rarity_order rarity ≤ hi

abbrev pub items_of : List Material → ℕ
items_of [] = 0
items_of (m ∷ ms) = elim m.count [ pos n ↦ n | negsuc n ↦ 0 ] + items_of ms

-- A weighed total and sum with their bounds; sums stay far from 2 ^ 63.
record IsWeighed (lo hi total sum : ℕ) : Type 0 where
  low : lo * total ≤ sum
  high : sum ≤ hi * total
  small : sum ≤ 4 * total

weigh_step :
    (lo hi t s n o : ℕ)
    → IsWeighed lo hi t s
    → lo ≤ o
    → o ≤ hi
    → o < 5
    → t + n < 1152921504606846976
    → (add64 t (n % two_to_64) ≡ t + n)
      × (add64 s (o % two_to_64 * (n % two_to_64)) ≡ s + o * n)
      × IsWeighed lo hi (t + n) (s + o * n)
weigh_step lo hi t s n o w l h four fits =
    let le4 = mul-le-mul_right {m = o} {n = 4} n (omega arith) in
    let lon = mul-le-mul_right {m = lo} {n = o} n l in
    let hin = mul-le-mul_right {m = o} {n = hi} n h in
    let n' : n % two_to_64 ≡ n = omega arith in
    let o' : o % two_to_64 ≡ o = omega arith in
    let low' = spread lo t n in
    let high' = spread hi t n in
    (
      omega (arith, n'),
      rw (n', o') (omega (arith, w.small, le4)),
      record {
        low = omega (arith, w.low, lon, low');
        high = omega (arith, w.high, hin, high');
        small = omega (arith, w.small, le4);
      },
    )

weigh_rest :
    (pool : SkinPool) (t s n : ℕ) (m : Material) (ms : List Material) (r : Rarity) {res : ℕ × ℕ}
    → rarity_of pool m.item_id ≡ some r
    → m.count ≡ pos n
    → weigh pool t s (m ∷ ms) ≡ some res
    → (rarity_order r < 5)
      × (weigh pool
            (add64 t (n % two_to_64))
            (add64 s (rarity_order r % two_to_64 * (n % two_to_64)))
            ms
          ≡ some res)
unfolding weigh
weigh_rest pool t s n m ms r h k e = ground arith

weigh-IsWeighed :
    (pool : SkinPool) (lo hi : ℕ) (t s : ℕ) (ms : List Material) {t' s' : ℕ}
    → All (IsOffered pool lo hi) ms
    → IsWeighed lo hi t s
    → t + items_of ms < 1152921504606846976
    → weigh pool t s ms ≡ some (t', s')
    → (t' ≡ t + items_of ms) × IsWeighed lo hi t' s'
unfolding weigh
weigh-IsWeighed pool lo hi t s [] {t'} {s'} a w fits e =
    let et : t ≡ t' = cc in let es : s ≡ s' = cc in rw (← et, ← es) (omega arith, w)
weigh-IsWeighed pool lo hi t s (m ∷ ms) (offered, a) w fits e =
    let o = rarity_order offered.rarity in
    let n = offered.items in
    let fits' : t + n + items_of ms < 1152921504606846976 =
      omega (arith, rw offered.has_count at fits) in
    let (four, e₁) =
      weigh_rest pool t s n m ms offered.rarity offered.has_rarity offered.has_count e in
    let (et, es, w') =
      weigh_step lo hi t s n o w offered.at_least offered.at_most four (omega (arith, fits')) in
    let (total, w'') =
      weigh-IsWeighed pool lo hi (t + n) (s + o * n) ms a w' fits' (rw (et, es) at e₁) in
    (rw offered.has_count (omega (arith, total)), w'')

double : (a x : ℕ) → a * (2 * x) ≡ 2 * (a * x)
double a x = grind arith

spread_left : (x y b : ℕ) → (x + y) * b ≡ x * b + y * b
spread_left x y b = grind arith

rounded_between :
    (lo hi total sum : ℕ)
    → 0 < total
    → IsWeighed lo hi total sum
    → (lo ≤ rounded total sum) × (rounded total sum ≤ hi)
rounded_between lo hi total sum h w =
    let low : lo * (2 * total) ≤ 2 * sum + total = omega (arith, w.low, double lo total) in
    let high : 2 * sum + total < (hi + 1) * (2 * total) =
      omega (arith, w.high, h, double hi total, spread_left hi 1 (2 * total)) in
    let below = (div-lt_iff_lt-mul {k = 2 * total} (omega (arith, h))).1 high in
    ((le-div_iff_mul-le {k = 2 * total} (omega (arith, h))).1 low, omega (arith, below))

pub base_and_target-order :
    (n : ℕ) {base target : Rarity}
    → base_and_target n ≡ some (base, target)
    → (rarity_order base ≡ n) × (rarity_order target ≡ n + 1)
unfolding base_and_target order_rarity
base_and_target-order n e = ground arith

pub compute_parts :
    (total sum : ℕ) {base target : Rarity}
    → (if total == 0 || is_negative total
        then none
        else if is_negative sum
        then none
        else base_and_target (rounded total sum))
      ≡ some (base, target)
    → (0 < total) × (base_and_target (rounded total sum) ≡ some (base, target))
compute_parts total sum e = ground arith

-- Materials that are offered, of rarities between two orders, craft a base rarity between them;
-- the target is the rarity above it. The counts are positive and stay far from overflow.
pub compute_rarities-between :
    (pool : SkinPool) (lo hi : ℕ) (ms : List Material) {base target : Rarity}
    → All (IsOffered pool lo hi) ms
    → items_of ms < 1152921504606846976
    → compute_rarities pool ms ≡ some (base, target)
    → (lo ≤ rarity_order base)
      × (rarity_order base ≤ hi)
      × (rarity_order target ≡ rarity_order base + 1)
unfolding compute_rarities
compute_rarities-between pool lo hi ms a fits e = elim (Option-cases (weigh pool 0 0 ms)) [
  | inl none_weighed ↦ absurd (cc (rw (none_weighed, compute_rarities) at e))
  | inr ((total, sum), weighed) ↦
      let (_, w) =
        weigh-IsWeighed pool lo hi 0 0 ms a
          (record { low = omega arith; high = omega arith; small = omega arith })
          (omega (arith, fits)) weighed in
      let (some_items, crafted) = compute_parts total sum (rw (weighed, compute_rarities) at e) in
      let (l, h) = rounded_between lo hi total sum some_items w in
      let (b, t) = base_and_target-order (rounded total sum) crafted in
      (omega (arith, l, b), omega (arith, h, b), omega (arith, b, t))
]
