-- ===== src/GameConfig/Tiers.antt =====
-- The table of the tiers is that of the document.
use stone_server.Prelude.{
  ℤ, pos, negsuc, ◌≡◌, ap, ◌∙◌, false, Option, some, List, [], ◌∷◌, ok, >>=-eq-ok, refuse_if, arith,
  All, All-mono, Option-cases, Bool-cases, inl, inr,
}
use stone_server.Tables.{Rarity}
use stone_server.Gacha.Rng.{gacha_rarity, rarity_eq}
use stone_server.Gacha.Pool.{Text}
use stone_server.Vow.Rates.{VowTier}
use stone_server.GameConfig.{
  Float, RawTier, validate_tier, finite_tier, keyed_tier, build_tiers, build_vow_tiers,
  valid_vow_rarity, has_rarity, duplicate_target,
}
use stone_server.GameConfig.Accepted.{rest_of_tiers}

-- A raw tier, read: its rarity and its four values.
pub record Reads (t : Text) (raw : RawTier) (r : Rarity) (tier : VowTier) : Type 0 where
  pub target : gacha_rarity (t.to_lower (t.trim_space raw.target_rarity)) ≡ some r
  pub low_power : raw.min_n_power ≡ some (Float.finite (pos tier.min_n_power))
  pub high_power : raw.max_n_power ≡ some (Float.finite (pos tier.max_n_power))
  pub low_rate : raw.min_success_rate ≡ some (Float.finite (pos tier.min_success_rate))
  pub high_rate : raw.max_success_rate ≡ some (Float.finite (pos tier.max_success_rate))

-- A table holds the raw tiers, one for one and in their order.
abbrev pub ReadsAll : Text → List RawTier → List (Rarity × VowTier) → Type 0
ReadsAll t [] [] = Unit
ReadsAll t [] (p ∷ tiers) = ⊥
ReadsAll t (raw ∷ raws) [] = ⊥
ReadsAll t (raw ∷ raws) (p ∷ tiers) = Reads t raw p.0 p.1 × ReadsAll t raws tiers

-- No rarity is in the table twice.
abbrev pub IsKeyed : List (Rarity × VowTier) → Type 0
IsKeyed [] = Unit
IsKeyed (p ∷ tiers) = All (λ p'. rarity_eq p'.0 p.0 ≡ false) tiers × IsKeyed tiers

validate_tier-units :
    (lo hi slow fast : ℤ) {tier : VowTier}
    → validate_tier lo hi slow fast ≡ ok tier
    → (lo ≡ pos tier.min_n_power)
      × (hi ≡ pos tier.max_n_power)
      × (slow ≡ pos tier.min_success_rate)
      × (fast ≡ pos tier.max_success_rate)
unfolding validate_tier
validate_tier-units (pos lo) (pos hi) (pos slow) (pos fast) e =
    (ground (arith, e), ground (arith, e), ground (arith, e), ground (arith, e))
validate_tier-units (negsuc lo) hi slow fast e = absurd (ground (arith, e))
validate_tier-units (pos lo) (negsuc hi) slow fast e = absurd (ground (arith, e))
validate_tier-units (pos lo) (pos hi) (negsuc slow) fast e = absurd (ground (arith, e))
validate_tier-units (pos lo) (pos hi) (pos slow) (negsuc fast) e = absurd (ground (arith, e))

-- The four values are there, and are those of the tier.
abbrev Values : RawTier → VowTier → Type 0
Values raw tier =
    (raw.min_n_power ≡ some (Float.finite (pos tier.min_n_power)))
    × (raw.max_n_power ≡ some (Float.finite (pos tier.max_n_power)))
    × (raw.min_success_rate ≡ some (Float.finite (pos tier.min_success_rate)))
    × (raw.max_success_rate ≡ some (Float.finite (pos tier.max_success_rate)))

finite_tier-values :
    (a b c d : Float) {tier : VowTier}
    → finite_tier a b c d ≡ ok tier
    → (a ≡ Float.finite (pos tier.min_n_power))
      × (b ≡ Float.finite (pos tier.max_n_power))
      × (c ≡ Float.finite (pos tier.min_success_rate))
      × (d ≡ Float.finite (pos tier.max_success_rate))
unfolding finite_tier
finite_tier-values (Float.finite a) (Float.finite b) (Float.finite c) (Float.finite d) e =
    let (p, q, r, s) = validate_tier-units a b c d e in
    (ap Float.finite p, ap Float.finite q, ap Float.finite r, ap Float.finite s)
finite_tier-values a b c d e = absurd (cc e)

keyed_tier-Values : (raw : RawTier) {tier : VowTier} → keyed_tier raw ≡ ok tier → Values raw tier
unfolding keyed_tier
keyed_tier-Values raw e = elim (Option-cases raw.min_n_power) [
  | inl q ↦ absurd (ground (arith, e, q))
  | inr (a, qa) ↦ elim (Option-cases raw.max_n_power) [
    | inl q ↦ absurd (ground (arith, e, qa, q))
    | inr (b, qb) ↦ elim (Option-cases raw.min_success_rate) [
      | inl q ↦ absurd (ground (arith, e, qa, qb, q))
      | inr (c, qc) ↦ elim (Option-cases raw.max_success_rate) [
        | inl q ↦ absurd (ground (arith, e, qa, qb, qc, q))
        | inr (d, qd) ↦
            let (p, r, s, u) = finite_tier-values a b c d (ground (arith, e, qa, qb, qc, qd)) in
            (qa ∙ ap some p, qb ∙ ap some r, qc ∙ ap some s, qd ∙ ap some u)
      ]
    ]
  ]
]

valid_vow_rarity-some : (o : Option Rarity) {r : Rarity} → valid_vow_rarity o ≡ some r → o ≡ some r
valid_vow_rarity-some o e = ground (arith, e)

unseen :
    (r s : Rarity) (seen : List Rarity)
    → has_rarity r (s ∷ seen) ≡ false
    → (rarity_eq r s ≡ false) × (has_rarity r seen ≡ false)
unseen r s seen e = (ground (arith, e), ground (arith, e))

-- The tiers that the loop makes, and that none of them is of a rarity seen before.
build_tiers-ReadsAll :
    (t : Text) (seen : List Rarity) (raws : List RawTier) {tiers : List (Rarity × VowTier)}
    → build_tiers t seen raws ≡ ok tiers
    → ReadsAll t raws tiers × IsKeyed tiers × All (λ p. has_rarity p.0 seen ≡ false) tiers
unfolding build_tiers
build_tiers-ReadsAll t seen [] {tiers} e = let e' : [] ≡ tiers = cc in rw (← e') (tt, tt, tt)
build_tiers-ReadsAll t seen (raw ∷ raws) {tiers} e =
    elim (Option-cases
      (valid_vow_rarity (gacha_rarity (t.to_lower (t.trim_space raw.target_rarity))))) [
        | inl q ↦ absurd (ground (arith, e, q))
        | inr (r, q) ↦
            let e₀ = rest_of_tiers t seen raw raws r q e in
            let (u, new, e₁) = >>=-eq-ok (refuse_if (has_rarity r seen) duplicate_target) _ e₀ in
            let (tier, keyed, e₂) = >>=-eq-ok (keyed_tier raw) _ e₁ in
            let (later, built, e₃) = >>=-eq-ok (build_tiers t (r ∷ seen) raws) _ e₂ in
            let same : (r, tier) ∷ later ≡ tiers = cc e₃ in
            let (reads, keys, others) = build_tiers-ReadsAll t (r ∷ seen) raws built in
            let (a, b, c, d) = keyed_tier-Values raw keyed in
            let fresh : has_rarity r seen ≡ false = elim (Bool-cases (has_rarity r seen)) [
              | inl h ↦ absurd (ground (arith, h, new))
              | inr h ↦ h
            ] in
            rw (← same) (
              (
                record {
                  target = valid_vow_rarity-some _ q;
                  low_power = a;
                  high_power = b;
                  low_rate = c;
                  high_rate = d;
                },
                reads,
              ),
              (All-mono later (λ p h. (unseen p.0 r seen h).0) others, keys),
              (fresh, All-mono later (λ p h. (unseen p.0 r seen h).1) others),
            )
      ]

pub build_vow_tiers-ReadsAll :
    (t : Text) (raws : List RawTier) {tiers : List (Rarity × VowTier)}
    → build_vow_tiers t raws ≡ ok tiers
    → ReadsAll t raws tiers × IsKeyed tiers
unfolding build_vow_tiers
build_vow_tiers-ReadsAll t [] e = absurd (cc e)
build_vow_tiers-ReadsAll t (raw ∷ raws) e =
    let (reads, keys, _) = build_tiers-ReadsAll t [] (raw ∷ raws) e in (reads, keys)
