-- ===== src/Cairn/Apply.antt =====
-- `ApplyGrowth` as a whole, over a table whose rows have distinct indices in order.
use stone_server.Prelude.{
  ℕ, zero, suc, ◌+◌, ◌<◌, ◌≡◌, refl, ap, List, [], ◌∷◌, length, All, ok, ◌>>=◌, >>=-eq-ok,
  Result-cases, inl, inr, arith,
}
use stone_server.Tables.{Slot, Env, NoFaults, increment_slot}
use stone_server.Cairn.{layers_of, paired, add_layers, add_to_slot, write_layers}
use stone_server.Cairn.Steps.{add_lists}

-- Every index of the rows lies above i.
abbrev pub Above : ℕ → List Slot → Type 0
Above i = All λ s. i < s.slot_index

-- The order of the primary key.
abbrev pub IsOrdered : List Slot → Type 0
IsOrdered [] = Unit
IsOrdered (s ∷ rows) = Above s.slot_index rows × IsOrdered rows

-- The rows with other layer counts.
abbrev pub with_layers : List Slot → List ℕ → List Slot
with_layers [] ls = []
with_layers (s ∷ rows) [] = s ∷ rows
with_layers (s ∷ rows) (l ∷ ls) = record s { layer_count = l } ∷ with_layers rows ls

add_layers-Above : (i n : ℕ) (rows : List Slot) → Above i rows → add_layers i n rows ≡ rows
unfolding add_layers
add_layers-Above i n [] h = refl
add_layers-Above i n (s ∷ rows) h = ground (arith, add_layers-Above i n rows h.1, h.0)

add_to_slot-cons :
    (env : Env) (s : Slot) (i n : ℕ) (rows : List Slot)
    → s.slot_index < i
    → add_to_slot env (i, n) (s ∷ rows) ≡ (add_to_slot env (i, n) rows >>= λ r. ok (s ∷ r))
unfolding add_to_slot add_layers
add_to_slot-cons env s i n rows h = ground arith

-- Increments of rows above i leave a row with index i in front.
write_layers-cons :
    (env : Env) (s : Slot) (ps : List (ℕ × ℕ)) (rows : List Slot)
    → All (λ p. s.slot_index < p.0) ps
    → write_layers env ps (s ∷ rows) ≡ (write_layers env ps rows >>= λ r. ok (s ∷ r))
unfolding write_layers
write_layers-cons env s [] rows h = refl
write_layers-cons env s ((i, n) ∷ ps) rows h = elim (Result-cases (add_to_slot env (i, n) rows)) [
  | inl (r, e) ↦ rw (add_to_slot-cons env s i n rows h.0, e) (write_layers-cons env s ps r h.1)
  | inr (x, e) ↦ rw (add_to_slot-cons env s i n rows h.0, e)
]

paired-Above :
    (i : ℕ) (rows : List Slot) (as' : List ℕ) → Above i rows → All (λ p. i < p.0) (paired rows as')
unfolding paired
paired-Above i [] as' h = tt
paired-Above i (s ∷ rows) [] h = tt
paired-Above i (s ∷ rows) (a ∷ as') h = (h.0, paired-Above i rows as' h.1)

-- The write to the first row, which no other row shares its index with.
add_to_first :
    (env : Env) (s : Slot) (a : ℕ) (rows : List Slot) {rows' : List Slot}
    → Above s.slot_index rows
    → add_to_slot env (s.slot_index, a) (s ∷ rows) ≡ ok rows'
    → rows' ≡ record s { layer_count = s.layer_count + a } ∷ rows
unfolding add_to_slot add_layers
add_to_first env s a rows h e = ground (arith, add_layers-Above s.slot_index a rows h)

-- The increments of the loop reach their rows, each once.
pub write_layers-paired :
    (env : Env) (rows : List Slot) (as' : List ℕ) {rows' : List Slot}
    → IsOrdered rows
    → write_layers env (paired rows as') rows ≡ ok rows'
    → rows' ≡ with_layers rows (add_lists (layers_of rows) as')
unfolding write_layers paired
write_layers-paired env [] as' h e = cc
write_layers-paired env (s ∷ rows) [] h e = cc
write_layers-paired env (s ∷ rows) (a ∷ as') {rows'} h e =
    let (rows₁, first, e₁) = >>=-eq-ok (add_to_slot env (s.slot_index, a) (s ∷ rows)) _ e in
    let s' = record s { layer_count = s.layer_count + a } in
    let e₂ = rw (add_to_first env s a rows h.0 first) at e₁ in
    let above = paired-Above s.slot_index rows as' h.0 in
    let e₃ = rw (write_layers-cons env s' (paired rows as') rows above) at e₂ in
    let (rows₂, later, e₄) = >>=-eq-ok (write_layers env (paired rows as') rows) _ e₃ in
    let ih = write_layers-paired env rows as' h.1 later in cc (ih, e₄)

pub layers_of-with_layers :
    (rows : List Slot) (ls : List ℕ)
    → length ls ≡ length rows
    → layers_of (with_layers rows ls) ≡ ls
layers_of-with_layers [] [] e = refl
layers_of-with_layers [] (l ∷ ls) e = absurd (omega arith)
layers_of-with_layers (s ∷ rows) [] e = absurd (omega arith)
layers_of-with_layers (s ∷ rows) (l ∷ ls) e =
    ap (λ r. l ∷ r) (layers_of-with_layers rows ls (omega arith))

pub with_layers_self : (rows : List Slot) → with_layers rows (layers_of rows) ≡ rows
with_layers_self [] = refl
with_layers_self (s ∷ rows) = ap (λ r. s ∷ r) (with_layers_self rows)

pub with_layers_twice :
    (rows : List Slot) (ls ls' : List ℕ)
    → length ls ≡ length rows
    → length ls' ≡ length rows
    → with_layers (with_layers rows ls) ls' ≡ with_layers rows ls'
with_layers_twice [] ls ls' e e' = refl
with_layers_twice (s ∷ rows) [] ls' e e' = absurd (omega arith)
with_layers_twice (s ∷ rows) (l ∷ ls) [] e e' = absurd (omega arith)
with_layers_twice (s ∷ rows) (l ∷ ls) (l' ∷ ls') e e' =
    ap (λ r. record s { layer_count = l' } ∷ r)
      (with_layers_twice rows ls ls' (omega arith) (omega arith))

pub length-with_layers :
    (rows : List Slot) (ls : List ℕ) → length (with_layers rows ls) ≡ length rows
length-with_layers [] ls = refl
length-with_layers (s ∷ rows) [] = refl
length-with_layers (s ∷ rows) (l ∷ ls) = ap suc (length-with_layers rows ls)

Above-with_layers :
    (i : ℕ) (rows : List Slot) (ls : List ℕ) → Above i rows → Above i (with_layers rows ls)
Above-with_layers i [] ls h = tt
Above-with_layers i (s ∷ rows) [] h = h
Above-with_layers i (s ∷ rows) (l ∷ ls) h = (h.0, Above-with_layers i rows ls h.1)

pub with_layers-IsOrdered :
    (rows : List Slot) (ls : List ℕ) → IsOrdered rows → IsOrdered (with_layers rows ls)
with_layers-IsOrdered [] ls h = tt
with_layers-IsOrdered (s ∷ rows) [] h = h
with_layers-IsOrdered (s ∷ rows) (l ∷ ls) h =
    (Above-with_layers s.slot_index rows ls h.0, with_layers-IsOrdered rows ls h.1)

add_to_slot_total :
    (env : Env) (p : ℕ × ℕ) (rows : List Slot)
    → NoFaults env
    → (rows' : List Slot) × (add_to_slot env p rows ≡ ok rows')
unfolding add_to_slot
add_to_slot_total env (i, zero) rows f = (rows, refl)
add_to_slot_total env (i, suc n) rows f =
    (add_layers i (suc n) rows, ground (arith, f.none_fails (increment_slot i)))

-- With no failing statement every increment is written.
pub write_layers_total :
    (env : Env) (ps : List (ℕ × ℕ)) (rows : List Slot)
    → NoFaults env
    → (rows' : List Slot) × (write_layers env ps rows ≡ ok rows')
unfolding write_layers
write_layers_total env [] rows f = (rows, refl)
write_layers_total env (p ∷ ps) rows f =
    let (r, e) = add_to_slot_total env p rows f in
    let (r', e') = write_layers_total env ps r f in (r', rw e e')
