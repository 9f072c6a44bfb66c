-- ===== src/Diag/Honest.antt =====
-- The audit of a ledger that the server itself has written.
use stone_server.Prelude.{
  ℕ, ◌+◌, ◌-◌, ◌≤◌, ◌<◌, ◌≡◌, refl, sym, true, some, List, [], ◌∷◌, String, ok, err, arith,
  Result-cases, inl, inr,
}
use stone_server.Tables.{PlayerState, PlayerRows, Env, Error, Charge, charge_points}
use stone_server.Cairn
use stone_server.Player.{sync}
use stone_server.Diag.Banked.{
  Banked, charge_points-identity, mul_mono, charge_points-Banked, Banked-later, sync-Banked,
}
use stone_server.Diag.Report.{audit}
use stone_server.Diag.{
  EventAudit, gacha, comes_before, insert_event, sort_events, check_row, check_rows, walk, walk_all,
  anomalies_of,
}

-- What a player does to the balance: a charge at its cost, with the key of its log row, or a sync.
-- A pull or a vow that fails after its charge is rolled back, which is no act.
pub data Act : Type 0 where
  spend : Env → ℕ → String → Act
  bank : Env → Act

abbrev pub event_of : Env → ℕ → String → Charge → EventAudit
event_of env cost id ch = record {
  kind = gacha;
  id = id;
  at = env.now;
  cost_points = cost;
  accrued_pts = ch.accrued_pts;
  balance_before = ch.balance_before;
  balance_after = ch.balance_after;
}

-- The acts one after another, and the rows that their charges write to the log.
abbrev pub ledger : Cairn.Config → (ℕ → ℕ) → List Act → PlayerRows → List EventAudit
ledger c seed [] db = []
ledger c seed (spend env cost id ∷ acts) db = elim (charge_points env cost db) [
  | err x ↦ ledger c seed acts db
  | ok (ch, db') ↦ event_of env cost id ch ∷ ledger c seed acts db'
]
ledger c seed (bank env ∷ acts) db = ledger c seed acts (sync c seed env db).0

-- No act is before time t or before the act before it, and each charge is in a second after e and
-- after that of the charge before it.
abbrev pub IsChronological : ℕ → ℕ → List Act → Type 0
IsChronological e t [] = Unit
IsChronological e t (spend env cost id ∷ acts) =
    (e < env.now) × (t ≤ env.now) × IsChronological env.now env.now acts
IsChronological e t (bank env ∷ acts) = (t ≤ env.now) × IsChronological e env.now acts

IsChronological-earlier :
    (e e' t : ℕ) (acts : List Act) → IsChronological e' t acts → e ≤ e' → IsChronological e t acts
IsChronological-earlier e e' t [] h k = tt
IsChronological-earlier e e' t (spend env cost id ∷ acts) (later, h, rest) k =
    (omega (arith, later, k), h, rest)
IsChronological-earlier e e' t (bank env ∷ acts) (h, rest) k =
    (h, IsChronological-earlier e e' env.now acts rest k)

-- The charges of a ledger, in seconds after e.
abbrev IsSorted : ℕ → List EventAudit → Type 0
IsSorted e [] = Unit
IsSorted e (x ∷ xs) =
    (e < x.at)
    × (x.balance_after + x.cost_points ≡ x.balance_before + x.accrued_pts)
    × IsSorted x.at xs

IsSorted-earlier : (e e' : ℕ) (xs : List EventAudit) → IsSorted e' xs → e ≤ e' → IsSorted e xs
IsSorted-earlier e e' [] h k = tt
IsSorted-earlier e e' (x ∷ xs) (later, same, h) k = (omega (arith, later, k), same, h)

spend-ok :
    (c : Cairn.Config) (seed : ℕ → ℕ) (env : Env) (cost : ℕ) (id : String) (acts : List Act)
    (db : PlayerRows) {ch : Charge} {db' : PlayerRows}
    → charge_points env cost db ≡ ok (ch, db')
    → ledger c seed (spend env cost id ∷ acts) db ≡ event_of env cost id ch ∷ ledger c seed acts db'
spend-ok c seed env cost id acts db q = ground (arith, q)

spend-err :
    (c : Cairn.Config) (seed : ℕ → ℕ) (env : Env) (cost : ℕ) (id : String) (acts : List Act)
    (db : PlayerRows) {x : Error}
    → charge_points env cost db ≡ err x
    → ledger c seed (spend env cost id ∷ acts) db ≡ ledger c seed acts db
spend-err c seed env cost id acts db q = ground (arith, q)

ledger-IsSorted :
    (c : Cairn.Config) (seed : ℕ → ℕ) (e t : ℕ) (acts : List Act) (db : PlayerRows)
    → IsChronological e t acts
    → IsSorted e (ledger c seed acts db)
ledger-IsSorted c seed e t [] db h = tt
ledger-IsSorted c seed e t (spend env cost id ∷ acts) db (later, h, rest) =
    elim (Result-cases (charge_points env cost db)) [
      | inl ((ch, db'), q) ↦ rw (spend-ok c seed env cost id acts db q) (
        later,
        charge_points-identity env cost db q,
        ledger-IsSorted c seed env.now env.now acts db' rest,
      )
      | inr (x, q) ↦ rw (spend-err c seed env cost id acts db q) (
          IsSorted-earlier e env.now (ledger c seed acts db)
            (ledger-IsSorted c seed env.now env.now acts db rest) (omega (arith, later)))
    ]
ledger-IsSorted c seed e t (bank env ∷ acts) db (h, rest) =
    ledger-IsSorted c seed e env.now acts (sync c seed env db).0 rest

sort_events-IsSorted : (e : ℕ) (xs : List EventAudit) → IsSorted e xs → sort_events xs ≡ xs
unfolding sort_events insert_event comes_before
sort_events-IsSorted e [] h = refl
sort_events-IsSorted e (x ∷ []) h = refl
sort_events-IsSorted e (x ∷ y ∷ xs) (later, same, h) =
    let ih = sort_events-IsSorted x.at (y ∷ xs) h in ground (arith, ih, h.0)

check_rows-IsSorted : (e : ℕ) (xs : List EventAudit) → IsSorted e xs → check_rows xs ≡ []
unfolding check_rows check_row
check_rows-IsSorted e [] h = refl
check_rows-IsSorted e (x ∷ xs) (later, same, h) =
    ground (arith, same, check_rows-IsSorted x.at xs h)

-- The events that follow one whose balance is `base`.
walk-ledger :
    (c : Cairn.Config) (seed : ℕ → ℕ) (rate t : ℕ) (prev : EventAudit) (acts : List Act)
    (db : PlayerRows)
    → Banked rate prev.at prev.balance_after t db
    → IsChronological prev.at t acts
    → (walk rate prev (ledger c seed acts db)).anomalies ≡ []
unfolding walk
walk-ledger c seed rate t prev [] db b h = refl
walk-ledger c seed rate t prev (bank env ∷ acts) db b (h, rest) =
    walk-ledger c seed rate env.now prev acts (sync c seed env db).0
      (sync-Banked c seed rate prev.at prev.balance_after t env db b h) rest
walk-ledger c seed rate t prev (spend env cost id ∷ acts) db b (later, h, rest) =
    elim (Result-cases (charge_points env cost db)) [
      | inl ((ch, db'), q) ↦
          let (least, most, b') =
            charge_points-Banked rate prev.at prev.balance_after t env cost db b q in
          let cur = event_of env cost id ch in
          let ih = walk-ledger c seed rate env.now cur acts db' b' rest in
          let wide = mul_mono (t - prev.at) (env.now - prev.at + 2) rate (omega (arith, h)) in
          rw (spend-ok c seed env cost id acts db q) (ground (arith, least, most, wide, later, ih))
      | inr (x, q) ↦
          let b' = Banked-later rate prev.at prev.balance_after t env.now db b h in
          let rest' =
            IsChronological-earlier prev.at env.now env.now acts rest (omega (arith, later)) in
          rw (spend-err c seed env cost id acts db q)
            (walk-ledger c seed rate env.now prev acts db b' rest')
    ]

walk_all-ledger :
    (c : Cairn.Config) (seed : ℕ → ℕ) (rate e e' base t : ℕ) (acts : List Act) (db : PlayerRows)
    → Banked rate e' base t db
    → IsChronological e t acts
    → (walk_all rate (ledger c seed acts db)).anomalies ≡ []
unfolding walk_all
walk_all-ledger c seed rate e e' base t [] db b h = refl
walk_all-ledger c seed rate e e' base t (bank env ∷ acts) db b (h, rest) =
    walk_all-ledger c seed rate e e' base env.now acts (sync c seed env db).0
      (sync-Banked c seed rate e' base t env db b h) rest
walk_all-ledger c seed rate e e' base t (spend env cost id ∷ acts) db b (later, h, rest) =
    elim (Result-cases (charge_points env cost db)) [
      | inl ((ch, db'), q) ↦
          let (_, _, b') = charge_points-Banked rate e' base t env cost db b q in
          rw (spend-ok c seed env cost id acts db q)
            (walk-ledger c seed rate env.now (event_of env cost id ch) acts db' b' rest)
      | inr (x, q) ↦ rw (spend-err c seed env cost id acts db q) (
          walk_all-ledger c seed rate env.now e' base env.now acts db
            (Banked-later rate e' base t env.now db b h) rest)
    ]

walk-le :
    (rate : ℕ) (prev : EventAudit) (es : List EventAudit)
    → (walk rate prev es).unlogged_accrual ≤ (walk rate prev es).max_plausible_accrual
unfolding walk
walk-le rate prev [] = omega arith
walk-le rate prev (cur ∷ es) = ground (arith, walk-le rate cur es)

walk_all-le :
    (rate : ℕ) (es : List EventAudit)
    → (walk_all rate es).unlogged_accrual ≤ (walk_all rate es).max_plausible_accrual
unfolding walk_all
walk_all-le rate [] = omega arith
walk_all-le rate (e ∷ es) = walk-le rate e es

-- The audit finds nothing in a ledger that the server has written: whatever charges and syncs a
-- player makes from a time t on, and whichever of them fail, if time does not run backwards and the
-- charges are each in a second of its own, after t, then the rows reconcile, and what was banked
-- without a row is no more than the audit holds plausible. The player has been synced by t, and the
-- rate of the audited state is still the rate.
pub audit-ledger :
    (c : Cairn.Config) (seed : ℕ → ℕ) (st now : PlayerState) (last t pulls vows : ℕ)
    (acts : List Act) (db : PlayerRows)
    → db.state ≡ some st
    → st.last_sync_at ≡ some last
    → last ≤ t
    → IsChronological t t acts
    → now.enlightenment_rate ≡ st.enlightenment_rate
    → ((audit now pulls vows (ledger c seed acts db)).reconciled ≡ true)
      × ((audit now pulls vows (ledger c seed acts db)).unlogged_accrual
          ≤ (audit now pulls vows (ledger c seed acts db)).max_plausible_accrual)
unfolding audit anomalies_of
audit-ledger c seed st now last t pulls vows acts db h l le chron rate =
    let es = ledger c seed acts db in
    let sorted = ledger-IsSorted c seed t t acts db chron in
    let order = sort_events-IsSorted t es sorted in
    let rows = check_rows-IsSorted t es sorted in
    let start : Banked now.enlightenment_rate last st.enlightenment_pts t db = record {
      st = st;
      last = last;
      has_state = h;
      has_rate = sym rate;
      has_last = l;
      since = omega arith;
      until = le;
      least = omega arith;
      most = omega arith;
    } in
    let gaps =
      walk_all-ledger c seed now.enlightenment_rate t last st.enlightenment_pts t acts db start
        chron in
    (ground (arith, order, rows, gaps), walk_all-le now.enlightenment_rate (sort_events es))
