-- ===== src/Cairn/Laws.antt =====
-- What `ApplyGrowth` does to a player's rows.

use stone_server.Prelude.{
  ℕ, ◌+◌, ◌-◌, ◌*◌, ◌/◌, ◌≤◌, ◌<◌, ◌≡◌, refl, ap, ◌∙◌, some, List, [], ◌∷◌, length, ok, >>=-eq-ok,
  Result-cases, inl, inr, arith,
}
use stone_server.Tables.{PlayerState, PlayerRows, Slot, Env}
use stone_server.Cairn.{
  Config, Growth, layers_of, no_increments, paired, distribute, write_layers, move_anchor,
  plan_from, plan_growth, anchor_is, commit_growth, apply_growth,
}
use stone_server.Cairn.Steps.{add_lists, grow, distribute-grow}
use stone_server.Cairn.Apply.{IsOrdered, with_layers, write_layers-paired}

-- The growth steps that have passed since the anchor.
abbrev pub steps_due : Config → ℕ → ℕ → ℕ
steps_due c now anchor = (now - anchor) / c.spawn_interval_seconds

abbrev pub grown_layers : Config → (ℕ → ℕ) → ℕ → ℕ → List Slot → List ℕ
grown_layers c seed now anchor rows =
    grow c seed (steps_due c now anchor) (anchor + c.spawn_interval_seconds) (layers_of rows)

abbrev pub moved_to : Config → ℕ → ℕ → ℕ
moved_to c now anchor = anchor + steps_due c now anchor * c.spawn_interval_seconds

-- The rows after all due steps.
abbrev pub grown : Config → (ℕ → ℕ) → ℕ → ℕ → PlayerState → PlayerRows → PlayerRows
grown c seed now anchor st db = record db {
  state = some (move_anchor (moved_to c now anchor) st);
  slots = with_layers db.slots (grown_layers c seed now anchor db.slots);
}

-- A player that growth is not withheld from: an anchor, and all slots initialised.
pub record IsGrowing (c : Config) (st : PlayerState) (anchor : ℕ) (db : PlayerRows) : Type 0 where
  pub has_state : db.state ≡ some st
  pub has_anchor : st.cairn_last_growth_at ≡ some anchor
  pub has_slots : c.slot_count ≤ length db.slots
  pub ordered : IsOrdered db.slots
  pub interval_pos : 0 < c.spawn_interval_seconds

add_lists-zeros :
    (rows : List Slot) → add_lists (layers_of rows) (no_increments rows) ≡ layers_of rows
add_lists-zeros [] = refl
add_lists-zeros (s ∷ rows) =
    let e : s.layer_count + 0 ≡ s.layer_count = omega arith in rw (e, add_lists-zeros rows)

abbrev pub increments : Config → (ℕ → ℕ) → ℕ → ℕ → List Slot → List (ℕ × ℕ)
increments c seed now anchor rows = paired rows (
    distribute c seed (steps_due c now anchor) (anchor + c.spawn_interval_seconds) (layers_of rows)
      (no_increments rows))

pub written-grown :
    (c : Config) (seed : ℕ → ℕ) (env : Env) (anchor : ℕ) (rows : List Slot) {rows' : List Slot}
    → IsOrdered rows
    → write_layers env (increments c seed env.now anchor rows) rows ≡ ok rows'
    → rows' ≡ with_layers rows (grown_layers c seed env.now anchor rows)
written-grown c seed env anchor rows h e =
    write_layers-paired env rows _ h e
    ∙ ap (with_layers rows) (
        distribute-grow c seed (steps_due c env.now anchor) (anchor + c.spawn_interval_seconds)
          (layers_of rows) (no_increments rows)
        ∙ ap (grow c seed (steps_due c env.now anchor) (anchor + c.spawn_interval_seconds))
            (add_lists-zeros rows))

pub plan_advance :
    (c : Config) (seed : ℕ → ℕ) (env : Env) (st : PlayerState) (anchor : ℕ) (db : PlayerRows)
    {g : Growth}
    → IsGrowing c st anchor db
    → 0 < steps_due c env.now anchor
    → plan_growth c seed env db ≡ ok g
    → g
      ≡ Growth.advance anchor
          (moved_to c env.now anchor)
          (increments c seed env.now anchor db.slots)
unfolding plan_growth plan_from
plan_advance c seed env st anchor db v h e = ground arith

-- Growth that succeeds gives every due step, in order, and moves the anchor by as many intervals.
pub apply_growth-grown :
    (c : Config) (seed : ℕ → ℕ) (env : Env) (st : PlayerState) (anchor : ℕ) (db : PlayerRows)
    {db' : PlayerRows}
    → IsGrowing c st anchor db
    → 0 < steps_due c env.now anchor
    → apply_growth c seed env db ≡ ok db'
    → db' ≡ grown c seed env.now anchor st db
unfolding apply_growth commit_growth anchor_is
apply_growth-grown c seed env st anchor db v h e =
    let (g, planned, e₁) = >>=-eq-ok (plan_growth c seed env db) _ e in
    let e₂ = rw (plan_advance c seed env st anchor db v h planned) at e₁ in
    elim (Result-cases (write_layers env (increments c seed env.now anchor db.slots) db.slots)) [
      | inl (rows', w) ↦ ground (arith, e₂, written-grown c seed env anchor db.slots v.ordered w)
      | inr (x, w) ↦ ground (arith, e₂)
    ]
