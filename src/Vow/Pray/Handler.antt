-- ===== src/Vow/Pray/Handler.antt =====
-- internal/vow/vow.go: `NewHandler` and the handler `Pray`. A reply stands for the status and the
-- code of the response.
use stone_server.Prelude.{
  ℕ, ℤ, pos, negsuc, Bool, true, false, not, ◌&&◌, ◌||◌, Option, none, some, List, [], ◌∷◌, ltb,
  ◌==◌, if◌then◌else◌, Result, ok, err, arith, ◌≡◌, ◌≢◌, ◌<◌, ◌≤◌, refl, ap, ◌∙◌, Result-cases,
  Option-cases, inl, inr,
}
use stone_server.Tables.{
  Rarity, PlayerRows, Env, Error, insufficient_points, insufficient_materials,
}
use stone_server.Gacha.Rng.{rarity_eq}
use stone_server.Gacha.Pool.{SkinPool, Seed}
use stone_server.Vow.Rates.{total_from, compute_rarities, VowTier, calc_success_rate, DebugOptions}
use stone_server.Vow.Pray.{PrayRequest, PrayResponse, Offer, honoured, pray_tx, exec_pray}

pub record VowConfig : Type 0 where
  pub required_item_count : ℕ
  pub tiers : List (Rarity × VowTier)
  pub allow_debug : Bool

-- The map of `NewHandler`: the last tier of a rarity stands.
unfoldable pub tier_for : List (Rarity × VowTier) → Rarity → Option VowTier
tier_for [] r = none
tier_for ((target, tier) ∷ tiers) r = elim (tier_for tiers r) [
  | some later ↦ some later
  | none ↦ if rarity_eq target r then some tier else none
]

pub data PrayReply : Type 0 where
  prayed : PrayResponse → PrayReply
  invalid_body count_not_positive wrong_item_count not_craftable no_tier n_power_out_of_range :
      PrayReply
  insufficient_points_reply insufficient_materials_reply internal_error : PrayReply

-- The status of a reply.
abbrev pub pray_status : PrayReply → ℕ
pray_status (prayed r) = 200
pray_status invalid_body = 400
pray_status count_not_positive = 400
pray_status wrong_item_count = 400
pray_status not_craftable = 400
pray_status no_tier = 400
pray_status n_power_out_of_range = 400
pray_status insufficient_points_reply = 409
pray_status insufficient_materials_reply = 409
pray_status internal_error = 500

abbrev pub ignores_items : Option DebugOptions → Bool
ignores_items none = false
ignores_items (some d) = d.ignore_required_items

abbrev pub is_infinite : Option DebugOptions → Bool
is_infinite none = false
is_infinite (some d) = d.infinite_n_power

abbrev pub out_of_range : VowTier → ℤ → Bool
out_of_range tier (negsuc n) = true
out_of_range tier (pos n) = ltb n tier.min_n_power || ltb tier.max_n_power n

-- cost: n_power, or 0 for an infinite one
abbrev pub cost_of : Bool → ℤ → ℕ
cost_of true n_power = 0
cost_of false (pos n) = n
cost_of false (negsuc n) = 0

-- The checks before the transaction.
unfoldable pub offer_of : VowConfig → SkinPool → PrayRequest → Result PrayReply Offer
unfolding tier_for total_from
offer_of cfg pool req =
    let debug = honoured cfg.allow_debug req.debug_options in
    elim (total_from 0 req.materials) [
      | none ↦ err count_not_positive
      | some total ↦
          if not (ignores_items debug) && not (total == cfg.required_item_count)
          then err wrong_item_count
          else elim (compute_rarities pool req.materials) [
            | none ↦ err not_craftable
            | some (base, target) ↦ elim (tier_for cfg.tiers target) [
              | none ↦ err no_tier
              | some tier ↦
                  if not (is_infinite debug) && out_of_range tier req.n_power
                  then err n_power_out_of_range
                  else ok (record {
                    materials = req.materials;
                    cost = cost_of (is_infinite debug) req.n_power;
                    base = base;
                    target = target;
                    rate = calc_success_rate tier req.n_power;
                    ignore_items = ignores_items debug;
                    debug = debug;
                  })
            ]
          ]
    ]

unfoldable pub reply_of : Result Error PrayResponse → PrayReply
reply_of (ok r) = prayed r
reply_of (err insufficient_points) = insufficient_points_reply
reply_of (err insufficient_materials) = insufficient_materials_reply
reply_of (err e) = internal_error

-- `none` is a body that does not bind.
unfoldable pub pray :
    VowConfig
    → SkinPool
    → Option ℕ
    → Option Seed
    → Env
    → Option PrayRequest
    → PlayerRows
    → PlayerRows × PrayReply
unfolding offer_of reply_of
pray cfg pool bits seed env none db = (db, invalid_body)
pray cfg pool bits seed env (some req) db = elim (offer_of cfg pool req) [
  | err reply ↦ (db, reply)
  | ok offer ↦ let (db', reply) = exec_pray pool offer bits seed env db in (db', reply_of reply)
]

exec_pray-refused :
    (pool : SkinPool) (o : Offer) (bits : Option ℕ) (seed : Option Seed) (env : Env)
    (db : PlayerRows)
    → pray_status (reply_of (exec_pray pool o bits seed env db).1) < 500
    → pray_status (reply_of (exec_pray pool o bits seed env db).1) ≢ 200
    → (exec_pray pool o bits seed env db).0 ≡ db
unfolding exec_pray reply_of
exec_pray-refused pool o bits seed env db h k =
    elim (Result-cases (pray_tx pool o bits seed env db)) [
      | inl ((p, after), e) ↦ absurd (ground (arith, e))
      | inr (x, e) ↦ ground (arith, e)
    ]

-- A request that is refused, with a status of 400 or 409, leaves the player's rows as they were.
pub pray-refused :
    (cfg : VowConfig) (pool : SkinPool) (bits : Option ℕ) (seed : Option Seed) (env : Env)
    (req : Option PrayRequest) (db : PlayerRows)
    → pray_status (pray cfg pool bits seed env req db).1 < 500
    → pray_status (pray cfg pool bits seed env req db).1 ≢ 200
    → (pray cfg pool bits seed env req db).0 ≡ db
unfolding pray
pray-refused cfg pool bits seed env none db h k = refl
pray-refused cfg pool bits seed env (some req) db h k =
    elim (Result-cases (offer_of cfg pool req)) [
      | inl (o, e) ↦ ground (arith, e, exec_pray-refused pool o bits seed env db)
      | inr (x, e) ↦ ground (arith, e)
    ]

abbrev plain_offer : PrayRequest → Rarity → Rarity → VowTier → Offer
plain_offer req base target tier = record {
  materials = req.materials;
  cost = cost_of false req.n_power;
  base = base;
  target = target;
  rate = calc_success_rate tier req.n_power;
  ignore_items = false;
  debug = none;
}

offered :
    (cfg : VowConfig) (pool : SkinPool) (req : PrayRequest) (total : ℕ) (base target : Rarity)
    (tier : VowTier) {o : Offer}
    → cfg.allow_debug ≡ false
    → total_from 0 req.materials ≡ some total
    → compute_rarities pool req.materials ≡ some (base, target)
    → tier_for cfg.tiers target ≡ some tier
    → offer_of cfg pool req ≡ ok o
    → (o ≡ plain_offer req base target tier)
      × (total ≡ cfg.required_item_count)
      × (out_of_range tier req.n_power ≡ false)
unfolding offer_of
offered cfg pool req total base target tier h t c r e =
    (ground (arith, h, t, c, r), ground (arith, h, t, c, r), ground (arith, h, t, c, r))

within_range :
    (tier : VowTier) (n : ℤ)
    → out_of_range tier n ≡ false
    → (n ≡ pos (cost_of false n))
      × (tier.min_n_power ≤ cost_of false n)
      × (cost_of false n ≤ tier.max_n_power)
within_range tier (pos n) h = (refl, ground arith, ground arith)
within_range tier (negsuc n) h = absurd (cc h)

-- An offer that a server without debug options accepts: the total of the counts is the required
-- number, the rarities are those of the materials, the cost is the n_power of
-- the request, within the range of the tier of the target rarity, and the rate is that tier's.
pub offer_of-checked :
    (cfg : VowConfig) (pool : SkinPool) (req : PrayRequest) {o : Offer}
    → cfg.allow_debug ≡ false
    → offer_of cfg pool req ≡ ok o
    → (tier : VowTier) × (tier_for cfg.tiers o.target ≡ some tier)
      × (total_from 0 req.materials ≡ some cfg.required_item_count)
      × (compute_rarities pool req.materials ≡ some (o.base, o.target))
      × (req.n_power ≡ pos o.cost)
      × (tier.min_n_power ≤ o.cost)
      × (o.cost ≤ tier.max_n_power)
      × (o.rate ≡ calc_success_rate tier (pos o.cost))
      × (o.ignore_items ≡ false)
      × (o.debug ≡ none)
unfolding offer_of
offer_of-checked cfg pool req h e = elim (Option-cases (total_from 0 req.materials)) [
  | inl t ↦ absurd (cc (rw (t, offer_of) at e))
  | inr (total, t) ↦ elim (Option-cases (compute_rarities pool req.materials)) [
    | inl c ↦ absurd (ground (arith, t, c))
    | inr ((base, target), c) ↦ elim (Option-cases (tier_for cfg.tiers target)) [
      | inl r ↦ absurd (ground (arith, t, c, r))
      | inr (tier, r) ↦
          let (same, items, range) = offered cfg pool req total base target tier h t c r e in
          let (cost, low, high) = within_range tier req.n_power range in
          rw same (
            tier,
            r,
            t ∙ ap some items,
            c,
            cost,
            low,
            high,
            ap (calc_success_rate tier) cost,
            refl,
            refl,
          )
    ]
  ]
]
