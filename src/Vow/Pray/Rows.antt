-- ===== src/Vow/Pray/Rows.antt =====
-- The rows that a vow that commits leaves: the items and the other log.
use stone_server.Prelude.{ℕ, ◌≡◌, sym, ap, ◌∙◌, Option, ok}
use stone_server.Tables.{PlayerRows, Env}
use stone_server.Gacha.Pool.{SkinPool, Seed}
use stone_server.Gacha.Grant.{upsert, new_item, item_type_stone_skin, source_vow_reward}
use stone_server.Gacha.Pull.Laws.{charge_inversion, grant_inversion}
use stone_server.Vow.Pray.{Offer, Prayed, reward_rarity, consume_materials, pray_tx}
use stone_server.Vow.Pray.Laws.{pray_tx-PrayRun, consume_frame}

-- `paid` has the items of before, and `consumed` those that the materials leave.
pub record PrayedRows (o : Offer) (env : Env) (db : PlayerRows) (p : Prayed) (after : PlayerRows)
    : Type 0 where
  pub paid : PlayerRows
  pub consumed : PlayerRows
  pub from_items : paid.inventories ≡ db.inventories
  pub consumption : consume_materials env o.ignore_items o.materials paid ≡ ok consumed
  pub items :
      after.inventories
      ≡ upsert
          (new_item env.now p.reward_item
            (reward_rarity o p.won)
            item_type_stone_skin
            source_vow_reward)
          consumed.inventories
  pub gacha_logs : after.gacha_logs ≡ db.gacha_logs

pub pray_tx-PrayedRows :
    (pool : SkinPool) (o : Offer) (bits : Option ℕ) (seed : Option Seed) (env : Env)
    (db : PlayerRows) {p : Prayed} {after : PlayerRows}
    → pray_tx pool o bits seed env db ≡ ok (p, after)
    → PrayedRows o env db p after
pray_tx-PrayedRows pool o bits seed env db {p} e =
    let run = pray_tx-PrayRun pool o bits seed env db e in
    let (st, had, enough, paid, charge) = charge_inversion env o.cost db run.by_charge in
    let consumed = consume_frame env o.ignore_items o.materials run.paid run.by_consume in
    let granted =
      grant_inversion env run.item (reward_rarity o run.won) _ _ run.consumed run.by_grant in
    let new = λ (x : Prayed).
      new_item env.now x.reward_item (reward_rarity o x.won) item_type_stone_skin
        source_vow_reward in
    record {
      paid = run.paid;
      consumed = run.consumed;
      from_items = ap (λ d. d.inventories) paid;
      consumption = run.by_consume;
      items =
          ap (λ d. d.inventories) run.rows
          ∙ ap (λ d. d.inventories) granted
          ∙ ap (λ x. upsert (new x) run.consumed.inventories) (sym run.result);
      gacha_logs =
          ap (λ d. d.gacha_logs) run.rows
          ∙ ap (λ d. d.gacha_logs) granted
          ∙ ap (λ d. d.gacha_logs) consumed
          ∙ ap (λ d. d.gacha_logs) paid;
    }
