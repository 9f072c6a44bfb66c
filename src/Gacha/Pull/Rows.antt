-- ===== src/Gacha/Pull/Rows.antt =====
-- The rows that a successful `execPull` leaves: the slots, the items and the other log.
use stone_server.Prelude.{ℕ, ◌≡◌, sym, ap, ◌∙◌, Option, ok}
use stone_server.Tables.{PlayerRows, Env}
use stone_server.Cairn
use stone_server.Cairn.{apply_growth}
use stone_server.Cairn.Frame.{apply_growth-SameEconomy}
use stone_server.Gacha.Pool.{SkinPool, Seed}
use stone_server.Gacha.Grant.{upsert, new_item, item_type_stone_skin, source_wish_cairn}
use stone_server.Gacha.Pull.{GameConfig, PullResponse, claim_rows, exec_pull}
use stone_server.Gacha.Pull.Run.{exec_pull-PullRun}
use stone_server.Gacha.Pull.Laws.{
  gate_inversion, claim_slot-frame, charge_inversion, grant_inversion,
}

-- `gated` has the slots of before, and the growth that is due is given to them.
pub record PulledRows (cairn : Cairn.Config) (seed : ℕ → ℕ) (env : Env) (i : ℕ) (db : PlayerRows)
    (r : PullResponse) (after : PlayerRows) : Type 0 where
  pub gated : PlayerRows
  pub grew : PlayerRows
  pub from_slots : gated.slots ≡ db.slots
  pub growth : apply_growth cairn seed env gated ≡ ok grew
  pub slots : after.slots ≡ (claim_rows env.now i cairn.max_layers grew.slots).0
  pub items :
      after.inventories
      ≡ upsert
          (new_item env.now r.item_id r.rarity item_type_stone_skin source_wish_cairn)
          db.inventories
  pub vow_logs : after.vow_logs ≡ db.vow_logs

pub exec_pull-PulledRows :
    (cfg : GameConfig) (cairn : Cairn.Config) (pool : SkinPool) (seed : ℕ → ℕ)
    (random : Option Seed) (env : Env) (i : ℕ) (db : PlayerRows) {r : PullResponse}
    {after : PlayerRows}
    → exec_pull cfg cairn pool seed random env i db ≡ ok (r, after)
    → PulledRows cairn seed env i db r after
exec_pull-PulledRows cfg cairn pool seed random env i db {r} {after} e =
    let run = exec_pull-PullRun cfg cairn pool seed random env i db e in
    let (st, had, cooled, gated) = gate_inversion cfg env db run.by_gate in
    let same = apply_growth-SameEconomy cairn seed env run.gated run.by_growth in
    let claimed = claim_slot-frame cairn env i run.grew run.by_claim in
    let (st', had', enough, paid, charge) =
      charge_inversion env cfg.pull_cost run.claimed run.by_charge in
    let granted = grant_inversion env run.res.item_id run.res.rarity _ _ run.paid run.by_grant in
    let had_items : run.paid.inventories ≡ db.inventories =
      ap (λ d. d.inventories) paid
      ∙ ap (λ d. d.inventories) claimed
      ∙ same.same_items
      ∙ ap (λ d. d.inventories) gated in
    let new = λ (x : PullResponse).
      new_item env.now x.item_id x.rarity item_type_stone_skin source_wish_cairn in
    record {
      gated = run.gated;
      grew = run.grew;
      from_slots = ap (λ d. d.slots) gated;
      growth = run.by_growth;
      slots =
          ap (λ d. d.slots) run.rows
          ∙ ap (λ d. d.slots) granted
          ∙ ap (λ d. d.slots) paid
          ∙ ap (λ d. d.slots) claimed;
      items =
          ap (λ d. d.inventories) run.rows
          ∙ ap (λ d. d.inventories) granted
          ∙ ap (upsert (new_item env.now run.res.item_id run.res.rarity _ _)) had_items
          ∙ ap (λ x. upsert (new x) db.inventories) (sym run.response);
      vow_logs =
          ap (λ d. d.vow_logs) run.rows
          ∙ ap (λ d. d.vow_logs) granted
          ∙ ap (λ d. d.vow_logs) paid
          ∙ ap (λ d. d.vow_logs) claimed
          ∙ same.same_vow_logs
          ∙ ap (λ d. d.vow_logs) gated;
    }
