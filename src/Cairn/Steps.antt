-- ===== src/Cairn/Steps.antt =====
-- The loop of `ApplyGrowth` against a plain description: the layers after n steps, one step at a
-- time, with no early exit and no array of increments.
use native.Mathlib.Nat.{mod-lt, zero-add}
use stone_server.Prelude.{
  ℕ, zero, suc, min, ◌+◌, ◌-◌, ◌*◌, ◌%◌, ◌≤◌, ◌<◌, ◌≡◌, refl, sym, ap, ◌∙◌, ◌⊎◌, inl, inr, List, [],
  ◌∷◌, length, get_or, sum, All, All-get_or, All-mono, List-cases, Bool-cases, ltb→lt, ltb,
  if◌then◌else◌, arith,
}
use stone_server.Cairn.{Config, incomplete, bump, pick, distribute}

-- The indices, from j, of the slots below max.
unfoldable pub open_slots : ℕ → ℕ → List ℕ → List ℕ
open_slots max j [] = []
open_slots max j (l ∷ ls) =
    let rest = open_slots max (suc j) ls in if ltb l max then j ∷ rest else rest

-- One step: a slot that is not complete, chosen by s, gains a layer.
unfoldable pub grow_once : ℕ → ℕ → List ℕ → List ℕ
grow_once max s ls = elim (open_slots max 0 ls) [ [] ↦ ls | p ∷ ps ↦ bump (pick (p ∷ ps) s) ls ]

unfoldable pub grow : Config → (ℕ → ℕ) → ℕ → ℕ → List ℕ → List ℕ
grow c seed zero at ls = ls
grow c seed (suc n) at ls =
    grow c seed n (at + c.spawn_interval_seconds) (grow_once c.max_layers (seed at) ls)

abbrev pub add_lists : List ℕ → List ℕ → List ℕ
add_lists [] as' = []
add_lists (l ∷ ls) [] = []
add_lists (l ∷ ls) (a ∷ as') = (l + a) ∷ add_lists ls as'

incomplete-open_slots :
    (max j : ℕ) (ls as' : List ℕ) → incomplete max j ls as' ≡ open_slots max j (add_lists ls as')
unfolding incomplete open_slots
incomplete-open_slots max j [] as' = refl
incomplete-open_slots max j (l ∷ ls) [] = refl
incomplete-open_slots max j (l ∷ ls) (a ∷ as') = rw (incomplete-open_slots max (suc j) ls as')

add_lists-bump : (p : ℕ) (ls as' : List ℕ) → add_lists ls (bump p as') ≡ bump p (add_lists ls as')
unfolding bump
add_lists-bump p [] [] = refl
add_lists-bump p [] (a ∷ as') = refl
add_lists-bump p (l ∷ ls) [] = refl
add_lists-bump zero (l ∷ ls) (a ∷ as') = ground arith
add_lists-bump (suc p) (l ∷ ls) (a ∷ as') = ap (λ r. (l + a) ∷ r) (add_lists-bump p ls as')

length-bump : (p : ℕ) (ls : List ℕ) → length (bump p ls) ≡ length ls
unfolding bump
length-bump p [] = refl
length-bump zero (l ∷ ls) = refl
length-bump (suc p) (l ∷ ls) = ap suc (length-bump p ls)

grow_once_full : (max s : ℕ) (ls : List ℕ) → open_slots max 0 ls ≡ [] → grow_once max s ls ≡ ls
unfolding grow_once
grow_once_full max s ls e = rw (e, grow_once)

pub grow-zero : (c : Config) (seed : ℕ → ℕ) (at : ℕ) (ls : List ℕ) → grow c seed zero at ls ≡ ls
unfolding grow
grow-zero c seed at ls = refl

grow_full :
    (c : Config) (seed : ℕ → ℕ) (n at : ℕ) (ls : List ℕ)
    → open_slots c.max_layers 0 ls ≡ []
    → grow c seed n at ls ≡ ls
unfolding grow
grow_full c seed zero at ls e = refl
grow_full c seed (suc n) at ls e =
    rw (grow_once_full c.max_layers (seed at) ls e) (grow_full c seed n _ ls e)

-- The increments of the loop, added to the stored layers, are the layers after n steps.
pub distribute-grow :
    (c : Config) (seed : ℕ → ℕ) (n at : ℕ) (ls as' : List ℕ)
    → add_lists ls (distribute c seed n at ls as') ≡ grow c seed n at (add_lists ls as')
unfolding distribute grow
distribute-grow c seed zero at ls as' = refl
distribute-grow c seed (suc n) at ls as' = elim (List-cases (incomplete c.max_layers 0 ls as')) [
  | inl e ↦
      let full = sym (incomplete-open_slots c.max_layers 0 ls as') ∙ e in
      rw (e, distribute) (sym (grow_full c seed (suc n) at (add_lists ls as') full))
  | inr (p, ps, e) ↦
      let open' = sym (incomplete-open_slots c.max_layers 0 ls as') ∙ e in
      rw (e, distribute)
        (distribute-grow c seed n (at + c.spawn_interval_seconds) ls
            (bump (pick (p ∷ ps) (seed at)) as')
          ∙ ap (grow c seed n (at + c.spawn_interval_seconds))
              (add_lists-bump _ ls as' ∙ unfold grow_once in rw (open', grow_once) refl))
]

-- n steps after m steps are m + n steps.
pub grow-add :
    (c : Config) (seed : ℕ → ℕ) (m n at : ℕ) (ls : List ℕ)
    → grow c seed n (at + m * c.spawn_interval_seconds) (grow c seed m at ls)
      ≡ grow c seed (m + n) at ls
unfolding grow
grow-add c seed zero n at ls =
    let e : at + 0 * c.spawn_interval_seconds ≡ at = omega arith in rw (e, zero-add)
grow-add c seed (suc m) n at ls =
    let k = c.spawn_interval_seconds in
    let e : at + suc m * k ≡ at + k + m * k = omega arith in
    let e' : suc m + n ≡ suc (m + n) = omega arith in
    rw (e, e') (grow-add c seed m n (at + k) (grow_once c.max_layers (seed at) ls))

-- How many layers the slots can still gain.
abbrev pub room : ℕ → List ℕ → ℕ
room max [] = 0
room max (l ∷ ls) = (max - l) + room max ls

-- An index of an open slot, counted from j, is that of a slot below max.
abbrev IsOpen : ℕ → ℕ → List ℕ → ℕ → Type 0
IsOpen max j ls p = (j ≤ p) × (get_or ls (p - j) max < max)

below_at : (max j l : ℕ) (ls : List ℕ) → l < max → get_or (l ∷ ls) (j - j) max < max
below_at max j l ls h = let e : j - j ≡ 0 = omega arith in rw e h

shift : (max j l : ℕ) (ls : List ℕ) (p : ℕ) → IsOpen max (suc j) ls p → IsOpen max j (l ∷ ls) p
shift max j l ls p h = let e : p - j ≡ suc (p - suc j) = omega arith in (omega arith, rw e h.1)

open_slots-IsOpen : (max j : ℕ) (ls : List ℕ) → All (IsOpen max j ls) (open_slots max j ls)
unfolding open_slots
open_slots-IsOpen max j [] = tt
open_slots-IsOpen max j (l ∷ ls) =
    let later = All-mono _ (shift max j l ls) (open_slots-IsOpen max (suc j) ls) in
    elim (Bool-cases (ltb l max)) [
      | inl e ↦ rw e ((omega arith, below_at max j l ls (ltb→lt l max e)), later)
      | inr e ↦ rw e later
    ]

sum-bump : (max p : ℕ) (ls : List ℕ) → get_or ls p max < max → sum (bump p ls) ≡ sum ls + 1
unfolding bump
sum-bump max p [] h = absurd (omega arith)
sum-bump max zero (l ∷ ls) h = omega arith
sum-bump max (suc p) (l ∷ ls) h = omega (arith, sum-bump max p ls h)

room-bump :
    (max p : ℕ) (ls : List ℕ) → get_or ls p max < max → room max (bump p ls) + 1 ≡ room max ls
unfolding bump
room-bump max p [] h = absurd (omega arith)
room-bump max zero (l ∷ ls) h = omega arith
room-bump max (suc p) (l ∷ ls) h = omega (arith, room-bump max p ls h)

bump-le :
    (max p : ℕ) (ls : List ℕ)
    → get_or ls p max < max
    → All (λ l. l ≤ max) ls
    → All (λ l. l ≤ max) (bump p ls)
unfolding bump
bump-le max p [] h b = tt
bump-le max zero (l ∷ ls) h b = (omega arith, b.1)
bump-le max (suc p) (l ∷ ls) h b = (b.0, bump-le max p ls h b.1)

-- The slot that a step takes is below max.
pick_below :
    (max s : ℕ) (ls : List ℕ) (p : ℕ) (ps : List ℕ)
    → open_slots max 0 ls ≡ p ∷ ps
    → get_or ls (pick (p ∷ ps) s) max < max
pick_below max s ls p ps e =
    let q = pick (p ∷ ps) s in
    let opened : All (IsOpen max 0 ls) (p ∷ ps) = rw e at (open_slots-IsOpen max 0 ls) in
    let fits : s % length (p ∷ ps) < length (p ∷ ps) = mod-lt s (omega arith) in
    let chosen = All-get_or (IsOpen max 0 ls) (p ∷ ps) (s % length (p ∷ ps)) 0 opened fits in
    let e' : q - 0 ≡ q = omega arith in rw e' at chosen.1

grow_once-sum :
    (max s : ℕ) (ls : List ℕ)
    → (open_slots max 0 ls ≡ [])
      ⊎ ((sum (grow_once max s ls) ≡ sum ls + 1)
          × (room max (grow_once max s ls) + 1 ≡ room max ls))
unfolding grow_once
grow_once-sum max s ls = elim (List-cases (open_slots max 0 ls)) [
  | inl e ↦ inl e
  | inr (p, ps, e) ↦
      let h = pick_below max s ls p ps e in
      inr (rw (e, grow_once) (sum-bump max _ ls h), rw (e, grow_once) (room-bump max _ ls h))
]

room_full : (max j : ℕ) (ls : List ℕ) → open_slots max j ls ≡ [] → room max ls ≡ 0
unfolding open_slots
room_full max j [] e = refl
room_full max j (l ∷ ls) e = ground (arith, room_full max (suc j) ls)

-- Of n steps each adds one layer, until all slots are full.
pub sum-grow :
    (c : Config) (seed : ℕ → ℕ) (n at : ℕ) (ls : List ℕ)
    → sum (grow c seed n at ls) ≡ sum ls + min n (room c.max_layers ls)
unfolding grow
sum-grow c seed zero at ls = omega arith
sum-grow c seed (suc n) at ls =
    let ls' = grow_once c.max_layers (seed at) ls in
    elim (grow_once-sum c.max_layers (seed at) ls) [
      | inl e ↦
          rw
            (
              grow_once_full c.max_layers (seed at) ls e,
              grow_full c seed n (at + c.spawn_interval_seconds) ls e,
            )
            (omega (arith, room_full c.max_layers 0 ls e))
      | inr (a, b) ↦ omega (arith, sum-grow c seed n (at + c.spawn_interval_seconds) ls')
    ]

grow_once-le :
    (max s : ℕ) (ls : List ℕ) → All (λ l. l ≤ max) ls → All (λ l. l ≤ max) (grow_once max s ls)
unfolding grow_once
grow_once-le max s ls b = elim (List-cases (open_slots max 0 ls)) [
  | inl e ↦ rw (grow_once_full max s ls e) b
  | inr (p, ps, e) ↦ rw (e, grow_once) (bump-le max _ ls (pick_below max s ls p ps e) b)
]

-- No slot passes the limit.
pub grow-le :
    (c : Config) (seed : ℕ → ℕ) (n at : ℕ) (ls : List ℕ)
    → All (λ l. l ≤ c.max_layers) ls
    → All (λ l. l ≤ c.max_layers) (grow c seed n at ls)
unfolding grow
grow-le c seed zero at ls b = b
grow-le c seed (suc n) at ls b =
    grow-le c seed n _ (grow_once c.max_layers (seed at) ls)
      (grow_once-le c.max_layers (seed at) ls b)

length-grow_once : (max s : ℕ) (ls : List ℕ) → length (grow_once max s ls) ≡ length ls
unfolding grow_once
length-grow_once max s ls = elim (List-cases (open_slots max 0 ls)) [
  | inl e ↦ rw (e, grow_once)
  | inr (p, ps, e) ↦ rw (e, grow_once) (length-bump _ ls)
]

pub length-grow :
    (c : Config) (seed : ℕ → ℕ) (n at : ℕ) (ls : List ℕ) → length (grow c seed n at ls) ≡ length ls
unfolding grow
length-grow c seed zero at ls = refl
length-grow c seed (suc n) at ls =
    length-grow c seed n _ (grow_once c.max_layers (seed at) ls)
    ∙ length-grow_once c.max_layers (seed at) ls
