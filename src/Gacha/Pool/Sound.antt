-- ===== src/Gacha/Pool/Sound.antt =====
-- A pool that the loader accepts: its statistics, its typing, and what can be drawn from it.

use text.Mathlib.TextPositions.{eq_refl}
use stone_server.Prelude.{
  ◌+◌, ◌≡◌, refl, true, false, not, ◌&&◌, List, [], ◌∷◌, Option, none, some, str_eq, eq_iff, String,
  if◌then◌else◌, arith, ok, err, >>=-eq-ok, length, All, All-mono, All-append, Option-cases,
  Bool-cases, inl, inr,
}
use stone_server.Tables.{Rarity}
use stone_server.Gacha.Rng.{gacha_rarity, rarity_eq}
use stone_server.Gacha.Pool.{
  Text, PartType, LoadStats, SkinPool, Read, row, failed, add_skin, duplicate_skin, skip_bad_rarity,
  skip_bad_part, known_part_type, load_skin, load_row, load_rows, count_row, part_eq,
}

-- Total == Loaded + SkippedBadRarity + SkippedBadPart + SkippedMalformed
abbrev pub IsBalanced : LoadStats → Type 0
IsBalanced s = s.total ≡ s.loaded + s.skipped_bad_rarity + s.skipped_bad_part + s.skipped_malformed

-- Every skin in a bucket has the bucket's rarity, and a skin that was not seen has none.
pub record IsTyped (pool : SkinPool) : Type 0 where
  pub typed :
      (p : PartType) (r : Rarity) → All (λ s. pool.skin_rarity s ≡ some r) (pool.by_part_rarity p r)
  pub fresh : (s : String) → pool.seen s ≡ false → pool.skin_rarity s ≡ none

rarity_eq→eq : (r s : Rarity) → rarity_eq r s ≡ true → r ≡ s
rarity_eq→eq r s h = ground arith

added :
    (skin : String) (part : PartType) (rarity : Rarity) (pool : SkinPool) (p : PartType)
    (r : Rarity)
    → (part_eq p part && rarity_eq r rarity) ≡ true
    → (add_skin skin part rarity pool).skin_rarity skin ≡ some r
unfolding add_skin
added skin part rarity pool p r hit = ground (arith, eq_refl skin, rarity_eq→eq r rarity)

kept :
    (skin : String) (part : PartType) (rarity : Rarity) (pool : SkinPool) (r : Rarity)
    → pool.skin_rarity skin ≡ none
    → (s : String) → pool.skin_rarity s ≡ some r
    → (add_skin skin part rarity pool).skin_rarity s ≡ some r
unfolding add_skin
kept skin part rarity pool r new s h = ground (arith, eq_iff s skin)

add_skin-IsTyped :
    (skin : String) (part : PartType) (rarity : Rarity) (pool : SkinPool)
    → pool.seen skin ≡ false
    → IsTyped pool
    → IsTyped (add_skin skin part rarity pool)
unfolding add_skin
add_skin-IsTyped skin part rarity pool new v = record {
  typed = λ p r.
      let old =
        All-mono (pool.by_part_rarity p r) (kept skin part rarity pool r (v.fresh skin new))
          (v.typed p r) in
      elim (Bool-cases (part_eq p part && rarity_eq r rarity)) [
        | inl hit ↦ rw hit (
            All-append _ (pool.by_part_rarity p r) (skin ∷ []) old
              (added skin part rarity pool p r hit, tt))
        | inr miss ↦ rw miss old
      ];
  fresh = λ s h. ground (arith, v.fresh s);
}

abbrev SameSkins : SkinPool → SkinPool → Type 0
SameSkins a b =
    (b.by_part_rarity ≡ a.by_part_rarity) × (b.skin_rarity ≡ a.skin_rarity) × (b.seen ≡ a.seen)

same-IsTyped : (a b : SkinPool) → SameSkins a b → IsTyped a → IsTyped b
same-IsTyped a b (e, e', e'') v = record {
  typed = λ p r. rw (e, e') (v.typed p r);
  fresh = λ s h. rw e' (v.fresh s (rw e'' at h));
}

-- The last test of a row, once its rarity and its part type are known.
load_known-IsTyped :
    (skin : String) (p : PartType) (r : Rarity) (pool : SkinPool) {pool' : SkinPool}
    → (if pool.seen skin then err duplicate_skin else ok (add_skin skin p r pool)) ≡ ok pool'
    → IsTyped pool
    → IsTyped pool'
load_known-IsTyped skin p r pool {pool'} e v = elim (Bool-cases (pool.seen skin)) [
  | inl old ↦ absurd (cc (rw old at e))
  | inr new ↦
      let e' : add_skin skin p r pool ≡ pool' = cc (rw new at e) in
      rw (← e') (add_skin-IsTyped skin p r pool new v)
]

load_rarity-IsTyped :
    (skin part : String) (o : Option Rarity) (pool : SkinPool) {pool' : SkinPool}
    → elim o [
      | none ↦ ok (skip_bad_rarity pool)
      | some r ↦ elim (known_part_type part) [
        | none ↦ ok (skip_bad_part pool)
        | some p ↦ if pool.seen skin then err duplicate_skin else ok (add_skin skin p r pool)
      ]
    ]
      ≡ ok pool'
    → IsTyped pool
    → IsTyped pool'
load_rarity-IsTyped skin part none pool e v = same-IsTyped pool _ (cc, cc, cc) v
load_rarity-IsTyped skin part (some r) pool e v = elim (Option-cases (known_part_type part)) [
  | inl no_part ↦
      same-IsTyped pool _ (cc (rw no_part at e), cc (rw no_part at e), cc (rw no_part at e)) v
  | inr (p, part_known) ↦ load_known-IsTyped skin p r pool (rw part_known at e) v
]

load_skin-IsTyped :
    (t : Text) (skin part rarity : String) (pool : SkinPool) {pool' : SkinPool}
    → load_skin t skin part rarity pool ≡ ok pool'
    → IsTyped pool
    → IsTyped pool'
unfolding load_skin
load_skin-IsTyped t skin part rarity pool e v = elim (Bool-cases (str_eq skin "")) [
  | inl blank ↦ same-IsTyped pool _ (cc (rw blank at e), cc (rw blank at e), cc (rw blank at e)) v
  | inr named ↦ elim (Bool-cases (not (str_eq skin (t.to_lower skin)))) [
    | inl upper ↦ let e' = rw (named, upper) at e in same-IsTyped pool _ (cc e', cc e', cc e') v
    | inr lower ↦
        load_rarity-IsTyped skin part (gacha_rarity rarity) pool (rw (named, lower) at e) v
  ]
]

load_row-IsTyped :
    (t : Text) (rec : List String) (pool : SkinPool) {pool' : SkinPool}
    → load_row t rec pool ≡ ok pool'
    → IsTyped pool
    → IsTyped pool'
unfolding load_row
load_row-IsTyped t (a ∷ b ∷ c ∷ []) pool e v = load_skin-IsTyped t _ _ _ pool e v
load_row-IsTyped t _ pool e v = same-IsTyped pool _ (cc, cc, cc) v

load_row-stats :
    (t : Text) (rec : List String) (pool : SkinPool) {pool' : SkinPool}
    → load_row t rec (count_row pool) ≡ ok pool'
    → IsBalanced pool.stats
    → IsBalanced pool'.stats × (pool'.stats.total ≡ pool.stats.total + 1)
unfolding load_row load_skin add_skin
load_row-stats t (a ∷ b ∷ c ∷ []) pool e v = ground arith
load_row-stats t _ pool e v = ground arith

pub load_rows_sound :
    (t : Text) (reads : List Read) (pool : SkinPool) {pool' : SkinPool}
    → load_rows t reads pool ≡ ok pool'
    → IsTyped pool
    → IsBalanced pool.stats
    → IsTyped pool' × IsBalanced pool'.stats × (pool'.stats.total ≡ pool.stats.total + length reads)
unfolding load_rows
load_rows_sound t [] pool {pool'} e v b =
    let e' : pool ≡ pool' = cc in rw (← e') (v, b, omega arith)
load_rows_sound t (failed ∷ reads) pool e v b = absurd (cc)
load_rows_sound t (row rec ∷ reads) pool e v b =
    let (pool₁, first, e₁) = >>=-eq-ok (load_row t rec (count_row pool)) _ e in
    let v₁ =
      load_row-IsTyped t rec (count_row pool) first
        (same-IsTyped pool (count_row pool) (refl, refl, refl) v) in
    let (b₁, n₁) = load_row-stats t rec pool first b in
    let (v₂, b₂, n₂) = load_rows_sound t reads pool₁ e₁ v₁ b₁ in (v₂, b₂, omega arith)
