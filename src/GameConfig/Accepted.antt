-- ===== src/GameConfig/Accepted.antt =====
-- What an accepted configuration promises to the other parts.
use native.Mathlib.Nat.{mul-le-mul, div-add-mod'}
use stone_server.Prelude.{
  ℕ, ℤ, ◌*◌, ◌%◌, ◌≤◌, ◌<◌, ◌≡◌, true, some, List, [], ◌∷◌, ok, ◌>>=◌, ◌>>◌, >>=-eq-ok, refuse_if,
  arith, All, Option-cases, inl, inr,
}
use stone_server.Tables.{Rarity}
use stone_server.Cairn
use stone_server.Cairn.{phase_offset}
use stone_server.Gacha.Rng.{gacha_rarity}
use stone_server.Gacha.Pool.{Text}
use stone_server.Vow.Rates.{VowTier, two_to_64}
use stone_server.Vow.Rates.Crafted.{IsTier}
use stone_server.GameConfig.{
  Float, RawTier, ConfigFile, validate_tier, finite_tier, keyed_tier, build_tiers, build_vow_tiers,
  valid_vow_rarity, has_rarity, duplicate_target, validate, divides, units,
}

validate_tier-IsTier :
    (lo hi slow fast : ℤ) {tier : VowTier} → validate_tier lo hi slow fast ≡ ok tier → IsTier tier
unfolding validate_tier
validate_tier-IsTier lo hi slow fast e = ground (arith, e)

finite_tier-IsTier :
    (a b c d : Float) {tier : VowTier} → finite_tier a b c d ≡ ok tier → IsTier tier
unfolding finite_tier
finite_tier-IsTier (Float.finite a) (Float.finite b) (Float.finite c) (Float.finite d) e =
    validate_tier-IsTier a b c d e
finite_tier-IsTier a b c d e = absurd (cc e)

keyed_tier-IsTier : (t : RawTier) {tier : VowTier} → keyed_tier t ≡ ok tier → IsTier tier
unfolding keyed_tier
keyed_tier-IsTier t e = elim (Option-cases t.min_n_power) [
  | inl q ↦ absurd (ground (arith, e, q))
  | inr (a, qa) ↦ elim (Option-cases t.max_n_power) [
    | inl q ↦ absurd (ground (arith, e, qa, q))
    | inr (b, qb) ↦ elim (Option-cases t.min_success_rate) [
      | inl q ↦ absurd (ground (arith, e, qa, qb, q))
      | inr (c, qc) ↦ elim (Option-cases t.max_success_rate) [
        | inl q ↦ absurd (ground (arith, e, qa, qb, qc, q))
        | inr (d, qd) ↦ finite_tier-IsTier a b c d (ground (arith, e, qa, qb, qc, qd))
      ]
    ]
  ]
]

pub rest_of_tiers :
    (t : Text) (seen : List Rarity) (raw : RawTier) (raws : List RawTier) (r : Rarity)
    {tiers : List (Rarity × VowTier)}
    → valid_vow_rarity (gacha_rarity (t.to_lower (t.trim_space raw.target_rarity))) ≡ some r
    → build_tiers t seen (raw ∷ raws) ≡ ok tiers
    → (do
      refuse_if (has_rarity r seen) duplicate_target
      tier ← keyed_tier raw
      tiers ← build_tiers t (r ∷ seen) raws
      ok ((r, tier) ∷ tiers))
      ≡ ok tiers
unfolding build_tiers
rest_of_tiers t seen raw raws r q e = rw (q, build_tiers) at e

build_tiers-IsTier :
    (t : Text) (seen : List Rarity) (raws : List RawTier) {tiers : List (Rarity × VowTier)}
    → build_tiers t seen raws ≡ ok tiers
    → All (λ p. IsTier p.1) tiers
unfolding build_tiers
build_tiers-IsTier t seen [] {tiers} e = let e' : [] ≡ tiers = cc in rw (← e') tt
build_tiers-IsTier t seen (raw ∷ raws) {tiers} e =
    elim (Option-cases
      (valid_vow_rarity (gacha_rarity (t.to_lower (t.trim_space raw.target_rarity))))) [
        | inl q ↦ absurd (ground (arith, e, q))
        | inr (r, q) ↦
            let e₀ = rest_of_tiers t seen raw raws r q e in
            let (_, _, e₁) = >>=-eq-ok (refuse_if (has_rarity r seen) duplicate_target) _ e₀ in
            let (tier, keyed, e₂) = >>=-eq-ok (keyed_tier raw) _ e₁ in
            let (later, built, e₃) = >>=-eq-ok (build_tiers t (r ∷ seen) raws) _ e₂ in
            let same : (r, tier) ∷ later ≡ tiers = cc e₃ in
            rw (← same) (keyed_tier-IsTier raw keyed, build_tiers-IsTier t (r ∷ seen) raws built)
      ]

-- Every tier of an accepted table has an increasing range of powers, and rates that increase
-- within 0 and 100 percent: what the success rate of a vow relies on.
pub build_vow_tiers-IsTier :
    (t : Text) (raws : List RawTier) {tiers : List (Rarity × VowTier)}
    → build_vow_tiers t raws ≡ ok tiers
    → All (λ p. IsTier p.1) tiers
unfolding build_vow_tiers
build_vow_tiers-IsTier t [] e = absurd (cc e)
build_vow_tiers-IsTier t (raw ∷ raws) e = build_tiers-IsTier t [] (raw ∷ raws) e

-- The cairn's part of a configuration.
abbrev pub cairn_of : ConfigFile → Cairn.Config
cairn_of c = record {
  slot_count = units c.slot_count;
  max_layers = units c.max_layers;
  spawn_interval_seconds = units c.spawn_interval_seconds;
}

limits :
    (c : ConfigFile)
    → validate c ≡ ok tt
    → (units c.spawn_interval_seconds ≤ 86400)
      × (units c.max_layers ≤ 100)
      × (divides (units c.spawn_interval_seconds) (units c.max_layers) (units c.slot_count) ≡ true)
unfolding validate
limits c e = (ground (arith, e), ground (arith, e), ground (arith, e))

divides_lem : (a b n : ℕ) → a ≤ 86400 → b ≤ 100 → divides a b n ≡ true → a * b % n ≡ 0
unfolding divides
divides_lem a b n h k d =
    let small : a * b ≤ 86400 * 100 = mul-le-mul h k in
    let kept : a * b % two_to_64 ≡ a * b = omega (arith, small) in ground (arith, kept, small, d)

-- A configuration that is accepted gives the cairn 1 to 50 slots, 1 to 100 layers and a positive
-- interval, a phase offset that divides the time of a full slot evenly among the slots, and the
-- pulls a positive cooldown.
pub validate_lem :
    (c : ConfigFile)
    → validate c ≡ ok tt
    → (0 < (cairn_of c).slot_count)
      × ((cairn_of c).slot_count ≤ 50)
      × (0 < (cairn_of c).max_layers)
      × ((cairn_of c).max_layers ≤ 100)
      × (0 < (cairn_of c).spawn_interval_seconds)
      × (phase_offset (cairn_of c) * (cairn_of c).slot_count
          ≡ (cairn_of c).spawn_interval_seconds * (cairn_of c).max_layers)
      × (0 < units c.cooldown_seconds)
unfolding validate phase_offset
validate_lem c e =
    let (small, small', sides) = limits c e in
    (
      ground (arith, e),
      ground (arith, e),
      ground (arith, e),
      small',
      ground (arith, e),
      omega (
        arith,
        divides_lem (units c.spawn_interval_seconds) (units c.max_layers) (units c.slot_count) small
            small' sides,
        div-add-mod' (units c.spawn_interval_seconds * units c.max_layers) (units c.slot_count),
      ),
      ground (arith, e),
    )
