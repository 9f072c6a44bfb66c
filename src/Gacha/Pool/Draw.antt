-- ===== src/Gacha/Pool/Draw.antt =====
-- What can be drawn from a pool that the loader accepts.
use native.Mathlib.Nat.{mod-lt}
use stone_server.Prelude.{
  ℕ, ◌%◌, ◌≡◌, ◌≢◌, refl, true, not, List, [], ◌∷◌, some, String, arith, ok, >>=-eq-ok, length,
  get_or, All, All-get_or, Bool-cases, List-cases, inl, inr, refuse_if,
}
use stone_server.Tables.{Rarity, common, uncommon, rare, unique, legendary}
use stone_server.Gacha.Rng.{gacha_rarities, determine_rarity}
use stone_server.Gacha.Pool.{
  Text, PartType, SkinPool, Read, empty_pool, header_ok, load_rows, unexpected_header,
  parts_by_rarity, keep_parts, check_rarities, parse_skin_pool, rarity_of, drawn, Seed, RollResult,
  nth_skin, skin_at, pick_by_rarity, roll, sorted_parts, has_skins,
}
use stone_server.Gacha.Pool.Sound.{IsBalanced, IsTyped, load_rows_sound}

-- A pool that can be drawn from: typed, and with a part type for each rarity.
pub record IsDrawable (pool : SkinPool) : Type 0 where
  pub is_typed : IsTyped pool
  pub has_parts : (r : Rarity) → parts_by_rarity pool r ≢ []

check_rarities-All :
    (pool : SkinPool) (rs : List Rarity)
    → check_rarities pool rs ≡ ok tt
    → All (λ r. parts_by_rarity pool r ≢ []) rs
unfolding check_rarities
check_rarities-All pool [] e = tt
check_rarities-All pool (r ∷ rs) e = elim (List-cases (parts_by_rarity pool r)) [
  | inl no_parts ↦ absurd (cc (rw (no_parts, check_rarities) at e))
  | inr (p, ps, parts) ↦
      (λ h. cc (parts, h), check_rarities-All pool rs (rw (parts, check_rarities) at e))
]

all_rarities : (P : Rarity → Type 0) → All P gacha_rarities → (r : Rarity) → P r
all_rarities P h common = h.0
all_rarities P h uncommon = h.1.0
all_rarities P h rare = h.1.1.0
all_rarities P h unique = h.1.1.1.0
all_rarities P h legendary = h.1.1.1.1.0

empty_pool-IsTyped : IsTyped empty_pool
empty_pool-IsTyped = record { typed = λ p r. tt; fresh = λ s h. refl }

-- A pool that the loader accepts can be drawn from: it has skins of every rarity, and each skin in
-- a bucket has the bucket's rarity. Its statistics balance, and count every record that was read.
pub parse_skin_pool-IsDrawable :
    (t : Text) (header : List String) (reads : List Read) {pool : SkinPool}
    → parse_skin_pool t (some header) reads ≡ ok pool
    → IsDrawable pool × IsBalanced pool.stats × (pool.stats.total ≡ length reads)
unfolding parse_skin_pool
parse_skin_pool-IsDrawable t header reads {pool} e =
    let (_, _, e₁) = >>=-eq-ok (refuse_if (not (header_ok t header)) unexpected_header) _ e in
    let (pool₁, loaded, e₂) = >>=-eq-ok (load_rows t reads empty_pool) _ e₁ in
    let (u, checked, e₃) = >>=-eq-ok (check_rarities pool₁ gacha_rarities) _ e₂ in
    let (v, b, n) = load_rows_sound t reads empty_pool loaded empty_pool-IsTyped (omega arith) in
    let same : pool₁ ≡ pool = cc in
    let parts = check_rarities-All pool₁ gacha_rarities checked in
    rw (← same) (record { is_typed = v; has_parts = all_rarities _ parts }, b, omega arith)

keep_parts-has_skins :
    (pool : SkinPool) (r : Rarity) (ps : List PartType)
    → All (λ p. has_skins pool r p ≡ true) (keep_parts pool r ps)
unfolding keep_parts
keep_parts-has_skins pool r [] = tt
keep_parts-has_skins pool r (p ∷ ps) = elim (Bool-cases (has_skins pool r p)) [
  | inl h ↦ rw h (h, keep_parts-has_skins pool r ps)
  | inr h ↦ rw h (keep_parts-has_skins pool r ps)
]

nth_skin-typed :
    (pool : SkinPool) (r : Rarity) (skins : List String) (n : ℕ)
    → skins ≢ []
    → All (λ s. pool.skin_rarity s ≡ some r) skins
    → (s : String) × (nth_skin skins n ≡ some s) × (pool.skin_rarity s ≡ some r)
unfolding nth_skin
nth_skin-typed pool r [] n h v = absurd (h refl)
nth_skin-typed pool r (s ∷ ss) n h v = (
  get_or (s ∷ ss) (n % length (s ∷ ss)) s,
  refl,
  All-get_or _ (s ∷ ss) (n % length (s ∷ ss)) s v (mod-lt n (omega arith)),
)

has_skins-ne :
    (pool : SkinPool) (r : Rarity) (p : PartType)
    → has_skins pool r p ≡ true
    → pool.by_part_rarity p r ≢ []
has_skins-ne pool r p h e = cc (rw (e, has_skins) at h)

skin_at-typed :
    (pool : SkinPool) (r : Rarity) (parts : List PartType) (m n : ℕ)
    → IsTyped pool
    → parts ≢ []
    → All (λ p. has_skins pool r p ≡ true) parts
    → (s : String) × (skin_at pool r parts m n ≡ some s) × (pool.skin_rarity s ≡ some r)
unfolding skin_at
skin_at-typed pool r [] m n v h a = absurd (h refl)
skin_at-typed pool r (p ∷ ps) m n v h a =
    let q = get_or (p ∷ ps) (m % length (p ∷ ps)) p in
    let stocked =
      All-get_or (λ p. has_skins pool r p ≡ true) (p ∷ ps) (m % length (p ∷ ps)) p a
        (mod-lt m (omega arith)) in
    nth_skin-typed pool r (pool.by_part_rarity q r) n (has_skins-ne pool r q stocked) (v.typed q r)

drawable_skin :
    (pool : SkinPool) (r : Rarity) (m n : ℕ)
    → IsDrawable pool
    → (s : String) × (skin_at pool r (parts_by_rarity pool r) m n ≡ some s)
      × (pool.skin_rarity s ≡ some r)
unfolding parts_by_rarity
drawable_skin pool r m n v =
    skin_at-typed pool r (parts_by_rarity pool r) m n v.is_typed (v.has_parts r)
      (keep_parts-has_skins pool r sorted_parts)

-- A roll from a pool that was loaded never panics: for every seed it gives a skin of the pool
-- whose rarity is the one that the seed determines.
pub roll-drawn :
    (pool : SkinPool) (seed : Seed)
    → IsDrawable pool
    → (res : RollResult) × (roll pool (some seed) ≡ drawn res)
      × (res.rarity ≡ determine_rarity (seed.rarity_bits % 10000))
      × (rarity_of pool res.item_id ≡ some res.rarity)
unfolding roll rarity_of
roll-drawn pool seed v =
    let r = determine_rarity (seed.rarity_bits % 10000) in
    let (s, e, typed) = drawable_skin pool r seed.part_bits seed.skin_bits v in
    (record { item_id = s; rarity = r; seed_hash = seed.seed_hash }, rw (e, roll), refl, typed)

pub pick_by_rarity-drawn :
    (pool : SkinPool) (r : Rarity) (seed : Seed)
    → IsDrawable pool
    → (s : String) × (pick_by_rarity pool r (some seed) ≡ some s) × (rarity_of pool s ≡ some r)
unfolding pick_by_rarity rarity_of
pick_by_rarity-drawn pool r seed v = drawable_skin pool r seed.part_bits seed.skin_bits v
