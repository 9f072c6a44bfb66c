-- ===== src/Gacha/Pull/Laws.antt =====
-- What a successful `execPull` did to the player's rows.
use stone_server.Prelude.{
  ℕ, ◌+◌, ◌-◌, ◌≤◌, ◌≡◌, refl, sym, ap, ◌∙◌, true, Option, some, List, [], ◌∷◌, ◌++◌, leb→le,
  if◌then◌else◌, ok, Option-cases, some_eq, str_eq, String, inl, inr, arith,
}
use stone_server.Tables.{
  PlayerState, PlayerRows, GachaLog, Env, Slot, Charge, charge_points, charged_state, with_state,
  accrued, Rarity,
}
use stone_server.Cairn
use stone_server.Cairn.{apply_growth}
use stone_server.Cairn.Frame.{purse, purse_of, SameEconomy, apply_growth-SameEconomy}
use stone_server.Gacha.Pool.{SkinPool, Seed}
use stone_server.Gacha.Grant.{
  RewardGrant, grant_item, upsert, find_item, count_of, count_of-upsert, new_item,
  item_type_stone_skin, source_wish_cairn,
}
use stone_server.Gacha.Pull.{
  GameConfig, PullResponse, cooled_down, claimed_cooldown, claim_cooldown, claim_rows,
  claim_complete_slot, gacha_log, exec_pull,
}
use stone_server.Gacha.Pull.Run.{exec_pull-PullRun}

pub gate_inversion :
    (cfg : GameConfig) (env : Env) (db : PlayerRows) {db' : PlayerRows}
    → claim_cooldown cfg env db ≡ ok db'
    → (st : PlayerState) × (db.state ≡ some st)
      × (cooled_down env.now st ≡ true)
      × (db' ≡ with_state (claimed_cooldown env.now cfg.cooldown st) db)
unfolding claim_cooldown
gate_inversion cfg env db e = elim (Option-cases db.state) [
  | inl q ↦ absurd (ground (arith, q))
  | inr (st, q) ↦ (st, q, ground (arith, q), ground (arith, q))
]

pub claim_slot-frame :
    (cairn : Cairn.Config) (env : Env) (i : ℕ) (db : PlayerRows) {db' : PlayerRows}
    → claim_complete_slot cairn env i db ≡ ok db'
    → db' ≡ record db { slots = (claim_rows env.now i cairn.max_layers db.slots).0 }
unfolding claim_complete_slot
claim_slot-frame cairn env i db e = ground arith

pub charge_inversion :
    (env : Env) (cost : ℕ) (db : PlayerRows) {ch : Charge} {db' : PlayerRows}
    → charge_points env cost db ≡ ok (ch, db')
    → (st : PlayerState) × (db.state ≡ some st)
      × (cost ≤ st.enlightenment_pts + accrued env.now st)
      × (db' ≡ with_state (charged_state env.now cost st) db)
      × (ch ≡ record {
        balance_before = st.enlightenment_pts;
        balance_after = st.enlightenment_pts + accrued env.now st - cost;
        accrued_pts = accrued env.now st;
        last_sync_at = env.now;
      })
unfolding charge_points
charge_inversion env cost db e = elim (Option-cases db.state) [
  | inl q ↦ absurd (ground (arith, q))
  | inr (st, q) ↦ (st, q, ground (arith, q), ground (arith, q), ground (arith, q))
]

pub grant_inversion :
    (env : Env) (id : String) (rarity : Rarity) (item_type source : String) (db : PlayerRows)
    {g : RewardGrant} {db' : PlayerRows}
    → grant_item env id rarity item_type source db ≡ ok (g, db')
    → db' ≡ record db {
      inventories = upsert (new_item env.now id rarity item_type source) db.inventories;
    }
unfolding grant_item
grant_inversion env id rarity item_type source db e =
    elim (Option-cases
      (find_item id (upsert (new_item env.now id rarity item_type source) db.inventories))) [
        | inl q ↦ absurd (ground (arith, q))
        | inr (it, q) ↦ ground (arith, q)
      ]

pub accrued_cong :
    (now : ℕ) (a b : PlayerState)
    → a.last_sync_at ≡ b.last_sync_at
    → a.enlightenment_rate ≡ b.enlightenment_rate
    → accrued now a ≡ accrued now b
unfolding accrued
accrued_cong now a b e e' = ground arith

-- Growth and the claim of a slot leave the purse that the gate left.
economy_kept :
    (cfg : GameConfig) (env : Env) (st : PlayerState) (db gated grew claimed : PlayerRows)
    (st' : PlayerState) {rows : List Slot}
    → gated ≡ with_state (claimed_cooldown env.now cfg.cooldown st) db
    → SameEconomy gated grew
    → claimed ≡ record grew { slots = rows }
    → claimed.state ≡ some st'
    → purse_of st' ≡ purse_of (claimed_cooldown env.now cfg.cooldown st)
economy_kept cfg env st db gated grew claimed st' g same c h =
    let here : purse claimed ≡ some (purse_of st') = rw h refl in
    let there : purse claimed ≡ some (purse_of (claimed_cooldown env.now cfg.cooldown st)) =
      ap purse c ∙ same.same_purse ∙ ap purse g in
    some_eq (sym here ∙ there)

-- What one pull does to the balance, the clocks and the log of the player.
pub record Settled (cfg : GameConfig) (env : Env) (db : PlayerRows) (r : PullResponse)
    (after : PlayerRows) : Type 0 where
  pub before_state : PlayerState
  pub after_state : PlayerState
  pub had : db.state ≡ some before_state
  pub has : after.state ≡ some after_state
  pub cooled : cooled_down env.now before_state ≡ true
  pub balance :
      after_state.enlightenment_pts + cfg.pull_cost
      ≡ before_state.enlightenment_pts + accrued env.now before_state
  pub synced : after_state.last_sync_at ≡ some env.now
  pub next : after_state.next_gacha_at ≡ some (env.now + cfg.cooldown)
  pub reported : r.balance_after ≡ after_state.enlightenment_pts
  pub logged :
      (log : GachaLog) × (after.gacha_logs ≡ db.gacha_logs ++ log ∷ [])
      × (log.item_id ≡ r.item_id)
      × (log.balance_before ≡ before_state.enlightenment_pts)
      × (log.balance_after ≡ after_state.enlightenment_pts)
      × (log.balance_after + log.cost_points ≡ log.balance_before + log.accrued_pts)

-- A pull that succeeds deducts the cost from the balance with the pending accrual, restarts the
-- accrual and the cooldown, and logs the balances that it moved between.
pub exec_pull-Settled :
    (cfg : GameConfig) (cairn : Cairn.Config) (pool : SkinPool) (seed : ℕ → ℕ)
    (random : Option Seed) (env : Env) (slot_index : ℕ) (db : PlayerRows) {r : PullResponse}
    {after : PlayerRows}
    → exec_pull cfg cairn pool seed random env slot_index db ≡ ok (r, after)
    → Settled cfg env db r after
exec_pull-Settled cfg cairn pool seed random env slot_index db {r} {after} e =
    let run = exec_pull-PullRun cfg cairn pool seed random env slot_index db e in
    let (st, had, cooled, gated) = gate_inversion cfg env db run.by_gate in
    let same = apply_growth-SameEconomy cairn seed env run.gated run.by_growth in
    let claimed = claim_slot-frame cairn env slot_index run.grew run.by_claim in
    let (st', had', enough, paid, charge) =
      charge_inversion env cfg.pull_cost run.claimed run.by_charge in
    let granted = grant_inversion env run.res.item_id run.res.rarity _ _ run.paid run.by_grant in
    let state' = ap (λ d. d.state) run.rows ∙ ap (λ d. d.state) granted ∙ ap (λ d. d.state) paid in
    let purses =
      economy_kept cfg env st db run.gated run.grew run.claimed st' gated same claimed had' in
    let accrues =
      accrued_cong env.now st' st (ap (λ p. p.synced) purses) (ap (λ p. p.rate) purses) in
    let moved : st'.enlightenment_pts + accrued env.now st' - cfg.pull_cost + cfg.pull_cost
        ≡ st.enlightenment_pts + accrued env.now st =
      omega (arith, enough, ap (λ p. p.points) purses, accrues) in
    record {
      before_state = st;
      after_state = charged_state env.now cfg.pull_cost st';
      had = had;
      has = state';
      cooled = cooled;
      balance = moved;
      synced = refl;
      next = ap (λ p. p.next) purses;
      reported = ap (λ r. r.balance_after) run.response ∙ ap (λ c. c.balance_after) charge;
      logged = (
        gacha_log env cfg run.res run.g.is_duplicate run.ch,
        ap (λ d. d.gacha_logs) run.rows
            ∙ ap (λ l. l ++ gacha_log env cfg run.res run.g.is_duplicate run.ch ∷ [])
                (ap (λ d. d.gacha_logs) granted
                  ∙ ap (λ d. d.gacha_logs) paid
                  ∙ ap (λ d. d.gacha_logs) claimed
                  ∙ same.same_gacha_logs
                  ∙ ap (λ d. d.gacha_logs) gated),
        sym (ap (λ r. r.item_id) run.response),
        ap (λ c. c.balance_before) charge ∙ ap (λ p. p.points) purses,
        ap (λ c. c.balance_after) charge,
        rw charge (omega (arith, enough)),
      );
    }

pub cooled_after :
    (now t : ℕ) (st : PlayerState) → st.next_gacha_at ≡ some t → cooled_down now st ≡ true → t ≤ now
cooled_after now t st e h = leb→le t now (ground arith)

-- A pull that succeeds adds one to the stack of the skin that it returns, and to no other.
pub exec_pull-count_of :
    (cfg : GameConfig) (cairn : Cairn.Config) (pool : SkinPool) (seed : ℕ → ℕ)
    (random : Option Seed) (env : Env) (slot_index : ℕ) (db : PlayerRows) (id : String)
    {r : PullResponse} {after : PlayerRows}
    → exec_pull cfg cairn pool seed random env slot_index db ≡ ok (r, after)
    → count_of id after.inventories
      ≡ (if str_eq r.item_id id then count_of id db.inventories + 1 else count_of id db.inventories)
exec_pull-count_of cfg cairn pool seed random env slot_index db id e =
    let run = exec_pull-PullRun cfg cairn pool seed random env slot_index db e in
    let (st, had, cooled, gated) = gate_inversion cfg env db run.by_gate in
    let same = apply_growth-SameEconomy cairn seed env run.gated run.by_growth in
    let claimed = claim_slot-frame cairn env slot_index run.grew run.by_claim in
    let (st', had', enough, paid, charge) =
      charge_inversion env cfg.pull_cost run.claimed run.by_charge in
    let granted = grant_inversion env run.res.item_id run.res.rarity _ _ run.paid run.by_grant in
    let new =
      new_item env.now run.res.item_id run.res.rarity item_type_stone_skin source_wish_cairn in
    let items =
      ap (λ d. d.inventories) paid
      ∙ ap (λ d. d.inventories) claimed
      ∙ same.same_items
      ∙ ap (λ d. d.inventories) gated in
    ap (λ d. count_of id d.inventories) run.rows
    ∙ ap (λ d. count_of id d.inventories) granted
    ∙ count_of-upsert new id run.paid.inventories refl
    ∙ rw (items, run.response) refl
