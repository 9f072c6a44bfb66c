-- ===== src/Vow/Pray/Fair.antt =====
-- What an offer that the handler accepts is worth.
use stone_server.Prelude.{
  ℕ, ℤ, pos, negsuc, ◌+◌, ◌*◌, ◌%◌, ◌≤◌, ◌<◌, ◌≡◌, refl, true, false, some, List, [], ◌∷◌, ok,
  arith, All, Option-cases, inl, inr, some_eq,
}
use stone_server.Tables.{Rarity}
use stone_server.Gacha.Rng.{rarity_order}
use stone_server.Gacha.Pool.{SkinPool, rarity_of}
use stone_server.Vow.Rates.{
  Material, two_to_64, int64, add64, is_positive, total_from, weigh, rounded, compute_rarities,
  percent, VowTier,
}
use stone_server.Vow.Rates.Crafted.{
  IsTier, items_of, calc_success_rate-bounds, compute_parts, base_and_target-order,
}
use stone_server.Vow.Pray.{PrayRequest, Offer}
use stone_server.Vow.Pray.Handler.{VowConfig, tier_for, offer_of, offer_of-checked}

-- A positive number of a skin of the pool that is not of the highest rarity.
pub record IsMaterial (pool : SkinPool) (m : Material) : Type 0 where
  pub items : ℕ
  pub has_count : m.count ≡ pos items
  pub some_items : 0 < items
  pub rarity : Rarity
  pub has_rarity : rarity_of pool m.item_id ≡ some rarity
  pub craftable : rarity_order rarity < 5

positive_count : (n : ℤ) → is_positive n ≡ true → (k : ℕ) × (n ≡ pos k) × (0 < k)
positive_count (pos k) h = (k, refl, ground arith)
positive_count (negsuc k) h = absurd (cc h)

count_step :
    (total : ℕ) (m : Material) (ms : List Material) {sum : ℕ}
    → total_from total (m ∷ ms) ≡ some sum
    → (is_positive m.count ≡ true) × (total_from (add64 total (int64 m.count)) ms ≡ some sum)
unfolding total_from
count_step total m ms e = (ground (arith, e), ground (arith, e))

weigh_step :
    (pool : SkinPool) (t s : ℕ) (m : Material) (ms : List Material) {res : ℕ × ℕ}
    → weigh pool t s (m ∷ ms) ≡ some res
    → (r : Rarity) × (t' : ℕ) × (s' : ℕ) × (rarity_of pool m.item_id ≡ some r)
      × (rarity_order r < 5)
      × (weigh pool t' s' ms ≡ some res)
unfolding weigh
weigh_step pool t s m ms e = elim (Option-cases (rarity_of pool m.item_id)) [
  | inl q ↦ absurd (ground (arith, e, q))
  | inr (r, q) ↦ (
    r,
    add64 t (int64 m.count),
    add64 s (int64 (pos (rarity_order r)) * int64 m.count),
    q,
    ground (arith, e, q),
    ground (arith, e, q),
  )
]

materials_of :
    (pool : SkinPool) (total t s : ℕ) (ms : List Material) {sum : ℕ} {res : ℕ × ℕ}
    → total_from total ms ≡ some sum
    → weigh pool t s ms ≡ some res
    → All (IsMaterial pool) ms
materials_of pool total t s [] e w = tt
materials_of pool total t s (m ∷ ms) e w =
    let (positive, e') = count_step total m ms e in
    let (k, count, some_items) = positive_count m.count positive in
    let (r, t', s', known, craftable, w') = weigh_step pool t s m ms w in
    (
      record {
        items = k;
        has_count = count;
        some_items = some_items;
        rarity = r;
        has_rarity = known;
        craftable = craftable;
      },
      materials_of pool (add64 total (int64 m.count)) t' s' ms e' w',
    )

-- The int64 sum of the counts.
total_from-items :
    (pool : SkinPool) (total : ℕ) (ms : List Material) {sum : ℕ}
    → All (IsMaterial pool) ms
    → total < two_to_64
    → total_from total ms ≡ some sum
    → sum ≡ (total + items_of ms) % two_to_64
unfolding total_from
total_from-items pool total [] a small e = let same = some_eq e in omega (arith, same, small)
total_from-items pool total (m ∷ ms) {sum} (a, rest) small e =
    let (_, e') = count_step total m ms e in
    let later = total_from-items pool (add64 total (int64 m.count)) ms rest (omega arith) e' in
    rw a.has_count (omega (arith, rw a.has_count at later))

tier_for-IsTier :
    (tiers : List (Rarity × VowTier)) (r : Rarity) {tier : VowTier}
    → All (λ p. IsTier p.1) tiers
    → tier_for tiers r ≡ some tier
    → IsTier tier
unfolding tier_for
tier_for-IsTier [] r a e = absurd (cc e)
tier_for-IsTier ((target, t) ∷ tiers) r {tier} (valid, a) e =
    elim (Option-cases (tier_for tiers r)) [
      | inr (later, q) ↦ tier_for-IsTier tiers r a (ground (arith, q, e))
      | inl q ↦ let same : tier ≡ t = ground (arith, q, e) in rw same valid
    ]

crafted :
    (pool : SkinPool) (total : ℕ) (ms : List Material) {sum : ℕ} {base target : Rarity}
    → total_from total ms ≡ some sum
    → compute_rarities pool ms ≡ some (base, target)
    → All (IsMaterial pool) ms × (rarity_order target ≡ rarity_order base + 1)
unfolding compute_rarities
crafted pool total ms counted e = elim (Option-cases (weigh pool 0 0 ms)) [
  | inl q ↦ absurd (cc (rw (q, compute_rarities) at e))
  | inr ((t, s), q) ↦
      let (_, parts) = compute_parts t s (rw (q, compute_rarities) at e) in
      let (b, above) = base_and_target-order (rounded t s) parts in
      (materials_of pool total 0 0 ms counted q, omega (arith, b, above))
]

-- What an accepted offer costs and can win.
pub record IsFair (cfg : VowConfig) (pool : SkinPool) (req : PrayRequest) (o : Offer) : Type 0 where
  pub materials : All (IsMaterial pool) req.materials
  pub required : items_of req.materials % two_to_64 ≡ cfg.required_item_count
  pub next_rarity : rarity_order o.target ≡ rarity_order o.base + 1
  pub tier : VowTier
  pub of_target : tier_for cfg.tiers o.target ≡ some tier
  pub asked : req.n_power ≡ pos o.cost
  pub low_cost : tier.min_n_power ≤ o.cost
  pub high_cost : o.cost ≤ tier.max_n_power
  pub low_rate : tier.min_success_rate * o.rate.den ≤ o.rate.num
  pub high_rate : o.rate.num ≤ tier.max_success_rate * o.rate.den
  pub is_rate : (0 < o.rate.den) × (tier.max_success_rate ≤ 100 * percent)

-- An offer that a server without debug options accepts, with tiers that the loader of the
-- configuration accepts: every material is a positive number of a skin of the pool below the
-- highest rarity, and the int64 sum of the numbers is the required one; the target rarity is the
-- one above the base rarity; the cost is the n_power that was asked for, within the range of the
-- target's tier; and the success rate lies between the two rates of that tier, which is at most
-- 100 percent.
pub offer_of-IsFair :
    (cfg : VowConfig) (pool : SkinPool) (req : PrayRequest) {o : Offer}
    → cfg.allow_debug ≡ false
    → All (λ p. IsTier p.1) cfg.tiers
    → offer_of cfg pool req ≡ ok o
    → IsFair cfg pool req o
offer_of-IsFair cfg pool req {o} plain valid e =
    let (tier, of_target, counted, rarities, cost, low, high, rate, _, _) =
      offer_of-checked cfg pool req plain e in
    let (materials, above) = crafted pool 0 req.materials counted rarities in
    let good = tier_for-IsTier cfg.tiers o.target valid of_target in
    let (slow, fast, some_den) = calc_success_rate-bounds tier (pos o.cost) good in
    record {
      materials = materials;
      required =
          omega (arith, total_from-items pool 0 req.materials materials (omega arith) counted);
      next_rarity = above;
      tier = tier;
      of_target = of_target;
      asked = cost;
      low_cost = low;
      high_cost = high;
      low_rate = rw rate slow;
      high_rate = rw rate fast;
      is_rate = (rw rate some_den, good.within);
    }
