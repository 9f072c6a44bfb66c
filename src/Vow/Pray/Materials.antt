-- ===== src/Vow/Pray/Materials.antt =====
-- What an accepted offer says of its materials.
use stone_server.Prelude.{
  ℕ, ◌≡◌, true, some, List, [], ◌∷◌, ok, arith, All, Bool-cases, Option-cases, inl, inr,
}
use stone_server.Gacha.Pool.{SkinPool}
use stone_server.Vow.Rates.{Material, int64, add64, is_positive, total_from}
use stone_server.Vow.Pray.{PrayRequest, Offer}
use stone_server.Vow.Pray.Handler.{VowConfig, offer_of}

total_from-positive :
    (total : ℕ) (ms : List Material) {sum : ℕ}
    → total_from total ms ≡ some sum
    → All (λ m. is_positive m.count ≡ true) ms
unfolding total_from
total_from-positive total [] e = tt
total_from-positive total (m ∷ ms) {sum} e = elim (Bool-cases (is_positive m.count)) [
  | inl h ↦
      (h, total_from-positive (add64 total (int64 m.count)) ms {sum = sum} (ground (arith, h, e)))
  | inr h ↦ absurd (ground (arith, h, e))
]

-- An offer is of the materials of its request, whose counts are positive.
pub offer_of-materials :
    (cfg : VowConfig) (pool : SkinPool) (req : PrayRequest) {o : Offer}
    → offer_of cfg pool req ≡ ok o
    → (o.materials ≡ req.materials) × All (λ m. is_positive m.count ≡ true) req.materials
unfolding offer_of
offer_of-materials cfg pool req e = elim (Option-cases (total_from 0 req.materials)) [
  | inl t ↦ absurd (cc (rw (t, offer_of) at e))
  | inr (total, t) ↦ (ground (arith, t, e), total_from-positive 0 req.materials t)
]
