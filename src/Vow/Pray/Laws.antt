-- ===== src/Vow/Pray/Laws.antt =====
-- What a vow that commits did to the player's rows.
use stone_server.Prelude.{
  ℕ, ◌+◌, ◌≡◌, refl, sym, ap, ◌∙◌, Bool, true, false, Option, none, some, List, [], ◌∷◌, ◌++◌, map,
  String, str_eq, if◌then◌else◌, ok, refuse_if, >>=-eq-ok, ok_pair, arith, All, some_eq,
  Result-cases, inl, inr,
}
use stone_server.Tables.{
  PlayerState, PlayerRows, VowLog, Rarity, Env, begin, commit, append_log, db_failed, rand_failed,
  no_reward_pool, Charge, charge_points, charged_state, accrued,
}
use stone_server.Gacha.Pool.{SkinPool, Seed, rarity_of, pick_by_rarity}
use stone_server.Gacha.Pool.Draw.{IsDrawable, pick_by_rarity-drawn}
use stone_server.Gacha.Grant.{
  RewardGrant, grant_item, item_type_stone_skin, source_vow_reward, count_of, count_of-upsert,
  new_item,
}
use stone_server.Gacha.Pull.Laws.{charge_inversion, grant_inversion}
use stone_server.Vow.Rates.{Material, is_positive, roll_success}
use stone_server.Vow.Pray.{
  Offer, Prayed, or_err, reward_rarity, vow_log, take_materials, consume_materials, finish_pray,
  pray_tx,
}
use stone_server.Vow.Pray.Stock.{IsStock, asked, consume_materials-count_of}

-- The rows between the steps, with what each step returned.
pub record PrayRun (pool : SkinPool) (o : Offer) (bits : Option ℕ) (seed : Option Seed) (env : Env)
    (db : PlayerRows) (p : Prayed) (after : PlayerRows) : Type 0 where
  pub paid : PlayerRows
  pub consumed : PlayerRows
  pub granted : PlayerRows
  pub ch : Charge
  pub won : Bool
  pub item : String
  pub g : RewardGrant
  pub by_charge : charge_points env o.cost db ≡ ok (ch, paid)
  pub by_consume : consume_materials env o.ignore_items o.materials paid ≡ ok consumed
  pub by_roll : roll_success o.debug o.rate bits ≡ some won
  pub by_pick : pick_by_rarity pool (reward_rarity o won) seed ≡ some item
  pub by_grant :
      grant_item env item (reward_rarity o won) item_type_stone_skin source_vow_reward consumed
      ≡ ok (g, granted)
  pub result : p ≡ record { won = won; reward_item = item; grant = g; charge = ch }
  pub rows :
      after ≡ record granted { vow_logs = granted.vow_logs ++ vow_log env o won item g ch ∷ [] }

or_err-ok : {A : Type 0} (o : Option A) (e : _) {a : A} → or_err o e ≡ ok a → o ≡ some a
or_err-ok none e h = absurd (cc h)
or_err-ok (some a) e h = cc h

pub pray_tx-PrayRun :
    (pool : SkinPool) (o : Offer) (bits : Option ℕ) (seed : Option Seed) (env : Env)
    (db : PlayerRows) {p : Prayed} {after : PlayerRows}
    → pray_tx pool o bits seed env db ≡ ok (p, after)
    → PrayRun pool o bits seed env db p after
unfolding pray_tx finish_pray
pray_tx-PrayRun pool o bits seed env db e =
    let (_, _, e₀) = >>=-eq-ok (refuse_if (env.fault begin) db_failed) _ e in
    let ((ch, paid), by_charge, e₁) = >>=-eq-ok (charge_points env o.cost db) _ e₀ in
    let (consumed, by_consume, e₂) =
      >>=-eq-ok (consume_materials env o.ignore_items o.materials paid) _ e₁ in
    let (won, by_roll, e₃) =
      >>=-eq-ok (or_err (roll_success o.debug o.rate bits) rand_failed) _ e₂ in
    let (item, by_pick, e₄) =
      >>=-eq-ok (or_err (pick_by_rarity pool (reward_rarity o won) seed) no_reward_pool) _ e₃ in
    let ((g, granted), by_grant, e₅) =
      >>=-eq-ok (grant_item env item (reward_rarity o won) _ _ consumed) _ e₄ in
    let (_, _, e₆) = >>=-eq-ok (refuse_if (env.fault append_log) db_failed) _ e₅ in
    let (_, _, e₇) = >>=-eq-ok (refuse_if (env.fault commit) db_failed) _ e₆ in
    record {
      paid = paid;
      consumed = consumed;
      granted = granted;
      ch = ch;
      won = won;
      item = item;
      g = g;
      by_charge = by_charge;
      by_consume = by_consume;
      by_roll = or_err-ok (roll_success o.debug o.rate bits) rand_failed by_roll;
      by_pick = or_err-ok (pick_by_rarity pool (reward_rarity o won) seed) no_reward_pool by_pick;
      by_grant = by_grant;
      result = (ok_pair e₇).0;
      rows = (ok_pair e₇).1;
    }

pub consume_frame :
    (env : Env) (ignored : Bool) (ms : List Material) (db : PlayerRows) {db' : PlayerRows}
    → consume_materials env ignored ms db ≡ ok db'
    → db' ≡ record db { inventories = db'.inventories }
unfolding consume_materials
consume_frame env true ms db e = ground arith
consume_frame env false ms db e = elim (Result-cases (take_materials env ms db.inventories)) [
  | inl (rows, q) ↦ ground (arith, q)
  | inr (x, q) ↦ ground (arith, q)
]

-- What one vow does to the balance, the accrual and the log of the player.
pub record Vowed (o : Offer) (env : Env) (db : PlayerRows) (p : Prayed) (after : PlayerRows)
    : Type 0 where
  pub before_state : PlayerState
  pub after_state : PlayerState
  pub had : db.state ≡ some before_state
  pub has : after.state ≡ some after_state
  pub balance :
      after_state.enlightenment_pts + o.cost
      ≡ before_state.enlightenment_pts + accrued env.now before_state
  pub synced : after_state.last_sync_at ≡ some env.now
  pub same_next : after_state.next_gacha_at ≡ before_state.next_gacha_at
  pub reported : p.charge.balance_after ≡ after_state.enlightenment_pts
  pub same_slots : after.slots ≡ db.slots
  pub logged :
      (log : VowLog) × (after.vow_logs ≡ db.vow_logs ++ log ∷ [])
      × (log.success ≡ p.won)
      × (log.reward_item_id ≡ p.reward_item)
      × (log.reward_rarity ≡ (if p.won then o.target else o.base))
      × (log.materials ≡ map (λ m. (m.item_id, m.count)) o.materials)
      × (log.balance_before ≡ before_state.enlightenment_pts)
      × (log.balance_after ≡ after_state.enlightenment_pts)
      × (log.balance_after + log.cost_points ≡ log.balance_before + log.accrued_pts)

-- A vow that commits deducts its cost from the balance with the pending accrual, restarts the
-- accrual, leaves the slots and the cooldown, and logs its outcome and the balances that it moved between.
pub pray_tx-Vowed :
    (pool : SkinPool) (o : Offer) (bits : Option ℕ) (seed : Option Seed) (env : Env)
    (db : PlayerRows) {p : Prayed} {after : PlayerRows}
    → pray_tx pool o bits seed env db ≡ ok (p, after)
    → Vowed o env db p after
pray_tx-Vowed pool o bits seed env db e =
    let run = pray_tx-PrayRun pool o bits seed env db e in
    let (st, had, enough, paid, charge) = charge_inversion env o.cost db run.by_charge in
    let consumed = consume_frame env o.ignore_items o.materials run.paid run.by_consume in
    let granted =
      grant_inversion env run.item (reward_rarity o run.won) _ _ run.consumed run.by_grant in
    let log = vow_log env o run.won run.item run.g run.ch in
    record {
      before_state = st;
      after_state = charged_state env.now o.cost st;
      had = had;
      has =
          ap (λ d. d.state) run.rows
          ∙ ap (λ d. d.state) granted
          ∙ ap (λ d. d.state) consumed
          ∙ ap (λ d. d.state) paid;
      balance = omega (arith, enough);
      synced = refl;
      same_next = refl;
      reported = ap (λ r. r.charge.balance_after) run.result ∙ ap (λ c. c.balance_after) charge;
      same_slots =
          ap (λ d. d.slots) run.rows
          ∙ ap (λ d. d.slots) granted
          ∙ ap (λ d. d.slots) consumed
          ∙ ap (λ d. d.slots) paid;
      logged = (
        log,
        ap (λ d. d.vow_logs) run.rows
            ∙ ap (λ l. l ++ log ∷ [])
                (ap (λ d. d.vow_logs) granted
                  ∙ ap (λ d. d.vow_logs) consumed
                  ∙ ap (λ d. d.vow_logs) paid),
        sym (ap (λ r. r.won) run.result),
        sym (ap (λ r. r.reward_item) run.result),
        rw run.result refl,
        refl,
        ap (λ c. c.balance_before) charge,
        ap (λ c. c.balance_after) charge,
        rw charge (omega (arith, enough)),
      );
    }

picked_rarity :
    (pool : SkinPool) (r : Rarity) (seed : Option Seed) {item : String}
    → IsDrawable pool
    → pick_by_rarity pool r seed ≡ some item
    → rarity_of pool item ≡ some r
unfolding pick_by_rarity
picked_rarity pool r none v e = absurd (cc e)
picked_rarity pool r (some seed) v e =
    let (s, e', typed) = pick_by_rarity-drawn pool r seed v in
    let same = some_eq (sym e' ∙ e) in ap (rarity_of pool) (sym same) ∙ typed

-- A vow that commits rewards a skin of the pool of the target rarity if it won, and of the base
-- rarity if it did not; whether it won is what `rollSuccess` said.
pub pray_tx-rarity_of :
    (pool : SkinPool) (o : Offer) (bits : Option ℕ) (seed : Option Seed) (env : Env)
    (db : PlayerRows) {p : Prayed} {after : PlayerRows}
    → IsDrawable pool
    → pray_tx pool o bits seed env db ≡ ok (p, after)
    → (roll_success o.debug o.rate bits ≡ some p.won)
      × (rarity_of pool p.reward_item ≡ some (if p.won then o.target else o.base))
pray_tx-rarity_of pool o bits seed env db v e =
    let run = pray_tx-PrayRun pool o bits seed env db e in
    rw run.result (run.by_roll, picked_rarity pool (reward_rarity o run.won) seed v run.by_pick)

one_added :
    (b : Bool) (consumed asked_for : ℕ) {after before : ℕ}
    → after ≡ (if b then consumed + 1 else consumed)
    → consumed + asked_for ≡ before
    → after + asked_for ≡ before + (if b then 1 else 0)
one_added b consumed asked_for h k = ground arith

-- A vow that commits takes from the stack of every item what the materials ask for, and adds the
-- rewarded skin: no item is lost or made otherwise. The vow is not one of those that ignore the
-- items, which only the debug options ask for; the materials are counted by positive numbers, and
-- the player has one row for an item.
pub pray_tx-count_of :
    (pool : SkinPool) (o : Offer) (bits : Option ℕ) (seed : Option Seed) (env : Env)
    (db : PlayerRows) (id : String) {p : Prayed} {after : PlayerRows}
    → All (λ m. is_positive m.count ≡ true) o.materials
    → IsStock db.inventories
    → o.ignore_items ≡ false
    → pray_tx pool o bits seed env db ≡ ok (p, after)
    → count_of id after.inventories + asked id o.materials
      ≡ count_of id db.inventories + (if str_eq p.reward_item id then 1 else 0)
pray_tx-count_of pool o bits seed env db id a stock kept e =
    let run = pray_tx-PrayRun pool o bits seed env db e in
    let (st, had, enough, paid, charge) = charge_inversion env o.cost db run.by_charge in
    let granted =
      grant_inversion env run.item (reward_rarity o run.won) _ _ run.consumed run.by_grant in
    let new =
      new_item env.now run.item (reward_rarity o run.won) item_type_stone_skin source_vow_reward in
    let taken =
      consume_materials-count_of env o.materials id run.paid a (rw paid stock)
        (rw kept at run.by_consume) in
    let before = ap (λ d. count_of id d.inventories) paid in
    let after' =
      ap (λ d. count_of id d.inventories) run.rows
      ∙ ap (λ d. count_of id d.inventories) granted
      ∙ count_of-upsert new id run.consumed.inventories refl in
    rw run.result (one_added (str_eq run.item id) _ _ after' (taken ∙ before))
