-- ===== src/Cairn/Windows.antt =====
-- Growth that is applied in several requests: at a later time again, and by two at once.
use native.Mathlib.Nat.{add-mul-div_right, div-mul-le_self}
use stone_server.Prelude.{
  ℕ, suc, ◌+◌, ◌-◌, ◌*◌, ◌/◌, ◌≤◌, ◌<◌, ◌≡◌, refl, ap, ◌∙◌, false, some, List, [], ◌∷◌, length,
  ◌==◌, ok, ◌>>=◌, Bool-cases, inl, inr, arith,
}
use stone_server.Tables.{
  PlayerState, PlayerRows, Slot, Env, NoFaults, read_anchor, load_slots, cas_anchor,
}
use stone_server.Cairn.{
  Config, Growth, layers_of, move_anchor, plan_from, plan_growth, anchor_is, commit_growth,
  apply_growth,
}
use stone_server.Cairn.Steps.{grow, grow-zero, grow-add, length-grow}
use stone_server.Cairn.Apply.{
  with_layers, write_layers_total, layers_of-with_layers, with_layers_self, with_layers_twice,
  length-with_layers, with_layers-IsOrdered,
}
use stone_server.Cairn.Laws.{
  steps_due, grown, grown_layers, moved_to, IsGrowing, plan_advance, apply_growth-grown, increments,
  written-grown,
}

grown_none_due :
    (c : Config) (seed : ℕ → ℕ) (now : ℕ) (st : PlayerState) (anchor : ℕ) (db : PlayerRows)
    → IsGrowing c st anchor db
    → steps_due c now anchor ≡ 0
    → grown c seed now anchor st db ≡ db
grown_none_due c seed now st anchor db v e =
    let k = c.spawn_interval_seconds in
    let stays : anchor + 0 * k ≡ anchor = omega arith in
    rw (e, stays, grow-zero, with_layers_self) (cc (v.has_state, v.has_anchor))

-- Growth with no failing statement, of a player with an anchor and all slots, gives every due step
-- and moves the anchor by as many intervals.
pub apply_growth_total :
    (c : Config) (seed : ℕ → ℕ) (env : Env) (st : PlayerState) (anchor : ℕ) (db : PlayerRows)
    → NoFaults env
    → IsGrowing c st anchor db
    → apply_growth c seed env db ≡ ok (grown c seed env.now anchor st db)
unfolding apply_growth plan_growth plan_from commit_growth anchor_is
apply_growth_total c seed env st anchor db f v =
    let incs = increments c seed env.now anchor db.slots in
    let (rows', w) = write_layers_total env incs db.slots f in
    elim (Bool-cases (steps_due c env.now anchor == 0)) [
      | inl e ↦
          ground (arith, f.none_fails read_anchor, grown_none_due c seed env.now st anchor db v)
      | inr e ↦ ground (
        arith,
        w,
        f.none_fails read_anchor,
        f.none_fails load_slots,
        f.none_fails cas_anchor,
        written-grown c seed env anchor db.slots v.ordered w,
      )
    ]

length-layers_of : (rows : List Slot) → length (layers_of rows) ≡ length rows
length-layers_of [] = refl
length-layers_of (s ∷ rows) = ap suc (length-layers_of rows)

pub length-grown_layers :
    (c : Config) (seed : ℕ → ℕ) (now anchor : ℕ) (rows : List Slot)
    → length (grown_layers c seed now anchor rows) ≡ length rows
length-grown_layers c seed now anchor rows =
    length-grow c seed _ _ (layers_of rows) ∙ length-layers_of rows

grown-IsGrowing :
    (c : Config) (seed : ℕ → ℕ) (now : ℕ) (st : PlayerState) (anchor : ℕ) (db : PlayerRows)
    → IsGrowing c st anchor db
    → IsGrowing c
        (move_anchor (moved_to c now anchor) st)
        (moved_to c now anchor)
        (grown c seed now anchor st db)
grown-IsGrowing c seed now st anchor db v = record {
  has_state = refl;
  has_anchor = refl;
  has_slots = rw length-with_layers v.has_slots;
  ordered = with_layers-IsOrdered db.slots _ v.ordered;
  interval_pos = v.interval_pos;
}

-- The steps of a window are those of its two parts.
steps_due-add :
    (c : Config) (now later anchor : ℕ)
    → 0 < c.spawn_interval_seconds
    → now ≤ later
    → steps_due c now anchor + steps_due c later (moved_to c now anchor) ≡ steps_due c later anchor
steps_due-add c now later anchor h le =
    let k = c.spawn_interval_seconds in
    let m = steps_due c now anchor in
    let used = div-mul-le_self (now - anchor) k in
    let rest : later - moved_to c now anchor + m * k ≡ later - anchor = omega (arith, used) in
    let parts = add-mul-div_right (later - moved_to c now anchor) m h in
    omega (arith, parts, ap (λ x. x / k) rest)

grown-grown :
    (c : Config) (seed : ℕ → ℕ) (now later : ℕ) (st : PlayerState) (anchor : ℕ) (db : PlayerRows)
    → IsGrowing c st anchor db
    → now ≤ later
    → grown c seed later
        (moved_to c now anchor)
        (move_anchor (moved_to c now anchor) st)
        (grown c seed now anchor st db)
      ≡ grown c seed later anchor st db
grown-grown c seed now later st anchor db v le =
    let k = c.spawn_interval_seconds in
    let m = steps_due c now anchor in
    let a = moved_to c now anchor in
    let n = steps_due c later a in
    let ls = grown_layers c seed now anchor db.slots in
    let fits = length-grown_layers c seed now anchor db.slots in
    let due = steps_due-add c now later anchor v.interval_pos le in
    let at : a + k ≡ anchor + k + m * k = omega arith in
    let anchors : moved_to c later a ≡ moved_to c later anchor =
      omega (arith, ap (λ t. t * k) due) in
    let layers : grown_layers c seed later a (with_layers db.slots ls)
        ≡ grown_layers c seed later anchor db.slots =
      ap (grow c seed n (a + k)) (layers_of-with_layers db.slots ls fits)
      ∙ ap (λ t. grow c seed n t ls) at
      ∙ grow-add c seed m n (anchor + k) (layers_of db.slots)
      ∙ ap (λ t. grow c seed t (anchor + k) (layers_of db.slots)) due in
    cc (
      anchors,
      layers,
      with_layers_twice db.slots ls (grown_layers c seed later anchor db.slots) fits
          (length-grown_layers c seed later anchor db.slots),
    )

-- Growth at one time and again later is growth at the later time: a window may be cut anywhere.
-- No statement fails, and the player has an anchor and all slots.
pub apply_growth-apply_growth :
    (c : Config) (seed : ℕ → ℕ) (env env' : Env) (st : PlayerState) (anchor : ℕ) (db : PlayerRows)
    → NoFaults env
    → NoFaults env'
    → IsGrowing c st anchor db
    → env.now ≤ env'.now
    → (apply_growth c seed env db >>= λ db'. apply_growth c seed env' db')
      ≡ apply_growth c seed env' db
apply_growth-apply_growth c seed env env' st anchor db f f' v le = rw (
  apply_growth_total c seed env st anchor db f v,
  apply_growth_total c seed env' st anchor db f' v,
  apply_growth_total c seed env' _ _ _ f' (grown-IsGrowing c seed env.now st anchor db v),
  grown-grown c seed env.now env'.now st anchor db v le,
)

move_past :
    (c : Config) (now : ℕ) (st : PlayerState) (anchor : ℕ)
    → 0 < c.spawn_interval_seconds
    → 0 < steps_due c now anchor
    → anchor_is anchor (some (move_anchor (moved_to c now anchor) st)) ≡ false
unfolding anchor_is
move_past c now st anchor h due =
    let far : 0 < steps_due c now anchor * c.spawn_interval_seconds = grind arith in ground arith

missed_cas :
    (env : Env) (old new : ℕ) (incs : List (ℕ × ℕ)) (db : PlayerRows) {db' : PlayerRows}
    → anchor_is old db.state ≡ false
    → commit_growth env (Growth.advance old new incs) db ≡ ok db'
    → db' ≡ db
unfolding commit_growth
missed_cas env old new incs db miss e = ground arith

-- Two requests that read the same rows of a player with an anchor and all slots, when steps are
-- due: the one that writes first gives them, and the one that writes second finds the anchor moved
-- and changes nothing.
pub commit_growth_once :
    (c : Config) (seed : ℕ → ℕ) (env env' : Env) (st : PlayerState) (anchor : ℕ) (db : PlayerRows)
    {g g' : Growth} {db₁ db₂ : PlayerRows}
    → IsGrowing c st anchor db
    → 0 < steps_due c env.now anchor
    → 0 < steps_due c env'.now anchor
    → plan_growth c seed env db ≡ ok g
    → plan_growth c seed env' db ≡ ok g'
    → commit_growth env g db ≡ ok db₁
    → commit_growth env' g' db₁ ≡ ok db₂
    → (db₁ ≡ grown c seed env.now anchor st db) × (db₂ ≡ db₁)
unfolding apply_growth
commit_growth_once c seed env env' st anchor db {g} {g'} {db₁} v due due' planned planned' e e' =
    let whole : apply_growth c seed env db ≡ ok db₁ = rw planned e in
    let first = apply_growth-grown c seed env st anchor db v due whole in
    (
      first,
      missed_cas env' anchor (moved_to c env'.now anchor) _ db₁
          (rw first (move_past c env.now st anchor v.interval_pos due))
          (rw (plan_advance c seed env' st anchor db v due' planned') at e'),
    )
