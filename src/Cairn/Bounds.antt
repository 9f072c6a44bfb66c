-- ===== src/Cairn/Bounds.antt =====
-- How much a growth gives, and the limit of the layers.
use stone_server.Prelude.{
  ℕ, ◌+◌, ◌≤◌, ◌<◌, ◌≡◌, refl, List, sum, All, min, ok, >>=-eq-ok, ◌⊎◌, Result-cases, inl, inr,
  arith,
}
use stone_server.Tables.{PlayerState, PlayerRows, Env}
use stone_server.Cairn.{
  Config, Growth, layers_of, write_layers, plan_from, plan_growth, commit_growth, apply_growth,
}
use stone_server.Cairn.Steps.{room, sum-grow, grow-le}
use stone_server.Cairn.Apply.{IsOrdered, layers_of-with_layers}
use stone_server.Cairn.Laws.{steps_due, IsGrowing, apply_growth-grown, increments, written-grown}
use stone_server.Cairn.Windows.{length-grown_layers}

-- The steps that a successful request gives add up: each due step adds one layer, until no slot has
-- room. The player has an anchor and all slots, and a step is due.
pub sum-grown :
    (c : Config) (seed : ℕ → ℕ) (env : Env) (st : PlayerState) (anchor : ℕ) (db : PlayerRows)
    {db' : PlayerRows}
    → IsGrowing c st anchor db
    → 0 < steps_due c env.now anchor
    → apply_growth c seed env db ≡ ok db'
    → sum (layers_of db'.slots)
      ≡ sum (layers_of db.slots)
        + min (steps_due c env.now anchor) (room c.max_layers (layers_of db.slots))
sum-grown c seed env st anchor db v due e =
    let k = c.spawn_interval_seconds in
    let fits = length-grown_layers c seed env.now anchor db.slots in
    rw (apply_growth-grown c seed env st anchor db v due e, layers_of-with_layers db.slots _ fits)
      (sum-grow c seed (steps_due c env.now anchor) (anchor + k) (layers_of db.slots))

plan_increments :
    (c : Config) (seed : ℕ → ℕ) (env : Env) (db : PlayerRows) (old new : ℕ) (incs : List (ℕ × ℕ))
    → plan_growth c seed env db ≡ ok (Growth.advance old new incs)
    → incs ≡ increments c seed env.now old db.slots
unfolding plan_growth plan_from
plan_increments c seed env db old new incs e = ground arith

commit_slots :
    (env : Env) (old new : ℕ) (incs : List (ℕ × ℕ)) (db : PlayerRows) {db' : PlayerRows}
    → commit_growth env (Growth.advance old new incs) db ≡ ok db'
    → (db'.slots ≡ db.slots) ⊎ (write_layers env incs db.slots ≡ ok db'.slots)
unfolding commit_growth
commit_slots env old new incs db e = elim (Result-cases (write_layers env incs db.slots)) [
  | inl (rows, w) ↦ ground (arith, w)
  | inr (x, w) ↦ ground (arith, w)
]

unchanged_slots :
    (env : Env) (g : Growth) (db : PlayerRows) {db' : PlayerRows}
    → (g ≡ Growth.heal) ⊎ (g ≡ Growth.nothing)
    → commit_growth env g db ≡ ok db'
    → db'.slots ≡ db.slots
unfolding commit_growth
unchanged_slots env g db h e = ground arith

commit_growth-le :
    (c : Config) (seed : ℕ → ℕ) (env : Env) (db : PlayerRows) (g : Growth) {db' : PlayerRows}
    → IsOrdered db.slots
    → All (λ l. l ≤ c.max_layers) (layers_of db.slots)
    → plan_growth c seed env db ≡ ok g
    → commit_growth env g db ≡ ok db'
    → All (λ l. l ≤ c.max_layers) (layers_of db'.slots)
commit_growth-le c seed env db Growth.heal o b planned e =
    rw (unchanged_slots env Growth.heal db (inl refl) e) b
commit_growth-le c seed env db Growth.nothing o b planned e =
    rw (unchanged_slots env Growth.nothing db (inr refl) e) b
commit_growth-le c seed env db (Growth.advance old new incs) {db'} o b planned e =
    let w' = plan_increments c seed env db old new incs planned in
    elim (commit_slots env old new incs db e) [
      | inl same ↦ rw same b
      | inr w ↦
          rw
            (
              written-grown c seed env old db.slots o (rw w' at w),
              layers_of-with_layers db.slots _ (length-grown_layers c seed env.now old db.slots),
            )
            (grow-le c seed _ _ (layers_of db.slots) b)
    ]

-- Growth that succeeds, on whatever branch, lets no slot pass the limit that none passed before.
-- The slots are in the order of their key.
pub apply_growth-le :
    (c : Config) (seed : ℕ → ℕ) (env : Env) (db : PlayerRows) {db' : PlayerRows}
    → IsOrdered db.slots
    → All (λ l. l ≤ c.max_layers) (layers_of db.slots)
    → apply_growth c seed env db ≡ ok db'
    → All (λ l. l ≤ c.max_layers) (layers_of db'.slots)
unfolding apply_growth
apply_growth-le c seed env db o b e =
    let (g, planned, e₁) = >>=-eq-ok (plan_growth c seed env db) _ e in
    commit_growth-le c seed env db g o b planned e₁
