-- ===== src/Cairn/Initial.antt =====
-- What `InitializeSlots` leaves.
use stone_server.Prelude.{
  ℕ, zero, suc, ◌+◌, ◌≤◌, ◌<◌, ◌≡◌, refl, Bool, ◌&&◌, Option, none, some, List, [], ◌∷◌, ltb, leb,
  ◌==◌, if◌then◌else◌, ok, arith,
}
use stone_server.Tables.{Slot, Env, NoFaults, insert_slot}
use stone_server.Cairn.{Config, insert_row, new_slot, insert_slots, initialize_slots, find_layer}
use stone_server.Cairn.Apply.{Above, IsOrdered}

-- The layers of a slot: those that it had, or those of a slot that is made where it had none.
abbrev pub kept_or : Option ℕ → Bool → Option ℕ
kept_or (some l) made = some l
kept_or none made = if made then some 0 else none

pub find_layer-Above :
    (i k : ℕ) (rows : List Slot) → Above k rows → i ≤ k → find_layer i rows ≡ none
unfolding find_layer
find_layer-Above i k [] a h = refl
find_layer-Above i k (s ∷ rows) a h = ground (arith, a, h, find_layer-Above i k rows)

insert_row-Above :
    (k : ℕ) (s : Slot) (rows : List Slot)
    → Above k rows
    → k < s.slot_index
    → Above k (insert_row s rows)
unfolding insert_row
insert_row-Above k s [] a h = ground (arith, h)
insert_row-Above k s (r ∷ rows) a h = ground (arith, a, h, insert_row-Above k s rows)

Above-mono : (i k : ℕ) (rows : List Slot) → Above k rows → i ≤ k → Above i rows
Above-mono i k [] a h = tt
Above-mono i k (s ∷ rows) a h = (omega (arith, a.0, h), Above-mono i k rows a.1 h)

pub insert_row-IsOrdered :
    (s : Slot) (rows : List Slot) → IsOrdered rows → IsOrdered (insert_row s rows)
unfolding insert_row
insert_row-IsOrdered s [] o = (tt, tt)
insert_row-IsOrdered s (r ∷ rows) o = ground (
  arith,
  o.0,
  o.1,
  insert_row-IsOrdered s rows o.1,
  insert_row-Above r.slot_index s rows o.0,
  Above-mono s.slot_index r.slot_index rows o.0,
)

find_layer-insert_row :
    (i : ℕ) (s : Slot) (rows : List Slot)
    → IsOrdered rows
    → s.layer_count ≡ 0
    → find_layer i (insert_row s rows) ≡ kept_or (find_layer i rows) (s.slot_index == i)
unfolding find_layer insert_row
find_layer-insert_row i s [] o e = ground (arith, e)
find_layer-insert_row i s (r ∷ rows) o e =
    ground (
      arith,
      e,
      o.0,
      find_layer-insert_row i s rows o.1 e,
      find_layer-Above i r.slot_index rows o.0,
    )

pub insert_slots_lem :
    (c : Config) (env : Env) (n i : ℕ) (rows : List Slot) (j : ℕ)
    → NoFaults env
    → IsOrdered rows
    → ((insert_slots c env n i rows).1 ≡ ok tt)
      × (find_layer j (insert_slots c env n i rows).0
          ≡ kept_or (find_layer j rows) (leb i j && ltb j (i + n)))
unfolding insert_slots
insert_slots_lem c env zero i rows j f o = (refl, ground arith)
insert_slots_lem c env (suc n) i rows j f o =
    let rows' = insert_row (new_slot c env.now i) rows in
    let (done, rest) = insert_slots_lem c env n (suc i) rows' j f (insert_row-IsOrdered _ rows o) in
    let here = find_layer-insert_row j (new_slot c env.now i) rows o refl in
    (
      ground (arith, f.none_fails (insert_slot i), done),
      ground (arith, f.none_fails (insert_slot i), rest, here),
    )

-- Initialising the slots, when no statement fails, makes the slots that were missing, without
-- layers, and keeps the layers of those that were there: a player can be initialised again.
pub initialize_slots_lem :
    (c : Config) (env : Env) (rows : List Slot) (j : ℕ)
    → NoFaults env
    → IsOrdered rows
    → ((initialize_slots c env rows).1 ≡ ok tt)
      × (find_layer j (initialize_slots c env rows).0
          ≡ kept_or (find_layer j rows) (ltb j c.slot_count))
unfolding initialize_slots
initialize_slots_lem c env rows j f o =
    let (done, found) = insert_slots_lem c env c.slot_count 0 rows j f o in
    (done, ground (arith, found))
