-- ===== src/Server/Sound.antt =====
-- The invariant of a player's rows, in every world that the server reaches.
use stone_server.Prelude.{ℕ, ◌+◌, ◌≡◌, refl, ap, Option, String, [], ◌∷◌, ok, All, All-append}
use stone_server.Kv.{KvStore}
use stone_server.Tables.{PlayerRows, Env}
use stone_server.Cairn
use stone_server.Gacha.Pool.{SkinPool, Seed}
use stone_server.Gacha.Grant.{new_item, item_type_stone_skin, source_wish_cairn, source_vow_reward}
use stone_server.Gacha.Pull.{GameConfig, PullResponse, exec_pull}
use stone_server.Gacha.Pull.Laws.{exec_pull-Settled}
use stone_server.Gacha.Pull.Rows.{exec_pull-PulledRows}
use stone_server.Vow.Pray.{Offer, Prayed, reward_rarity, pray_tx}
use stone_server.Vow.Pray.Stock.{IsStock}
use stone_server.Vow.Pray.Kept.{IsHeld, upsert-IsStock, consume_materials-IsStock}
use stone_server.Vow.Pray.Laws.{pray_tx-Vowed}
use stone_server.Vow.Pray.Rows.{pray_tx-PrayedRows}
use stone_server.Server.{World, Reach}
use stone_server.Routes.{Settings, Outside}
use stone_server.Server.Slots.{Fits, apply_growth-Fits, claim_rows-Fits}
use stone_server.Server.Frame.{
  Framed, get_state-Framed, sync-Framed, init_player_state-Framed, update_login_streak-Framed,
  reset_accrual_anchor-Framed, reopened-Framed,
}
use stone_server.Server.Rule.{Kept}
use stone_server.Server.Rule.Worlds.{Reach-Everyone}

-- A line of a log accounts for the balance.
abbrev pub Balances : (before after cost accrued : ℕ) → Type 0
Balances before after cost accrued = after + cost ≡ before + accrued

pub record WellFormed (c : Cairn.Config) (db : PlayerRows) : Type 0 where
  pub fits : Fits c.max_layers db.slots
  pub stock : IsStock db.inventories
  pub held : IsHeld db.inventories
  pub pulls :
      All (λ l. Balances l.balance_before l.balance_after l.cost_points l.accrued_pts) db.gacha_logs
  pub vows :
      All (λ l. Balances l.balance_before l.balance_after l.cost_points l.accrued_pts) db.vow_logs

pub Framed-WellFormed :
    {c : Cairn.Config} {a b : PlayerRows} → Framed c a b → WellFormed c a → WellFormed c b
Framed-WellFormed {b = b} f w =
    let items : b.inventories ≡ _ = ap (λ g. g.0) f.same_goods in
    let gacha : b.gacha_logs ≡ _ = ap (λ g. g.1) f.same_goods in
    let vow : b.vow_logs ≡ _ = ap (λ g. g.2) f.same_goods in
    record {
      fits = f.fit w.fits;
      stock = rw items w.stock;
      held = rw items w.held;
      pulls = rw gacha w.pulls;
      vows = rw vow w.vows;
    }

pub exec_pull-WellFormed :
    (cfg : GameConfig) (cairn : Cairn.Config) (pool : SkinPool) (seed : ℕ → ℕ)
    (random : Option Seed) (env : Env) (i : ℕ) (db : PlayerRows) {r : PullResponse}
    {after : PlayerRows}
    → exec_pull cfg cairn pool seed random env i db ≡ ok (r, after)
    → WellFormed cairn db
    → WellFormed cairn after
exec_pull-WellFormed cfg cairn pool seed random env i db {r} e w =
    let settled = exec_pull-Settled cfg cairn pool seed random env i db e in
    let rows = exec_pull-PulledRows cfg cairn pool seed random env i db e in
    let (log, appended, _, _, _, balances) = settled.logged in
    let start : Fits cairn.max_layers rows.gated.slots = rw rows.from_slots w.fits in
    let grown = apply_growth-Fits cairn seed env rows.gated start rows.growth in
    let new = new_item env.now r.item_id r.rarity item_type_stone_skin source_wish_cairn in
    let (stock, held) = upsert-IsStock new db.inventories refl (w.stock, w.held) in
    record {
      fits = rw rows.slots (claim_rows-Fits env.now i cairn.max_layers rows.grew.slots grown);
      stock = rw rows.items stock;
      held = rw rows.items held;
      pulls = rw appended (All-append _ db.gacha_logs (log ∷ []) w.pulls (balances, tt));
      vows = rw rows.vow_logs w.vows;
    }

pub pray_tx-WellFormed :
    (c : Cairn.Config) (pool : SkinPool) (o : Offer) (bits : Option ℕ) (seed : Option Seed)
    (env : Env) (db : PlayerRows) {p : Prayed} {after : PlayerRows}
    → pray_tx pool o bits seed env db ≡ ok (p, after)
    → WellFormed c db
    → WellFormed c after
pray_tx-WellFormed c pool o bits seed env db {p} e w =
    let vowed = pray_tx-Vowed pool o bits seed env db e in
    let rows = pray_tx-PrayedRows pool o bits seed env db e in
    let (log, appended, _, _, _, _, _, _, balances) = vowed.logged in
    let start : IsStock rows.paid.inventories × IsHeld rows.paid.inventories =
      rw rows.from_items (w.stock, w.held) in
    let left =
      consume_materials-IsStock env o.ignore_items o.materials rows.paid start rows.consumption in
    let new =
      new_item env.now p.reward_item (reward_rarity o p.won) item_type_stone_skin
        source_vow_reward in
    let (stock, held) = upsert-IsStock new rows.consumed.inventories refl left in
    record {
      fits = rw vowed.same_slots w.fits;
      stock = rw rows.items stock;
      held = rw rows.items held;
      pulls = rw rows.gacha_logs w.pulls;
      vows = rw appended (All-append _ db.vow_logs (log ∷ []) w.vows (balances, tt));
    }

kept : (cfg : Settings) → Kept cfg (λ q. WellFormed cfg.cairn)
kept cfg = record {
  by_state = λ q seed env db. Framed-WellFormed (get_state-Framed cfg.cairn seed env db);
  by_sync = λ q seed env db. Framed-WellFormed (sync-Framed cfg.cairn seed env db);
  by_pull = λ q seed random env i db r after e.
      exec_pull-WellFormed cfg.gacha cfg.cairn cfg.pool seed random env i db e;
  by_pray = λ q bits random env req o db p after accepted e.
      pray_tx-WellFormed cfg.cairn cfg.pool o bits random env db e;
  by_init = λ q env db. Framed-WellFormed (init_player_state-Framed cfg.cairn cfg.one env db);
  by_streak = λ q env db. Framed-WellFormed (update_login_streak-Framed cfg.cairn env db);
  by_reset = λ q env db. Framed-WellFormed (reset_accrual_anchor-Framed cfg.cairn env db);
  by_reopen = λ q env db. Framed-WellFormed (reopened-Framed cfg.cairn env db);
}

-- In every world that the server reaches, by whatever requests, ticks of the worker and restarts,
-- with whatever statements failing, the rows of every player are well-formed if they were at
-- first: the slots stand in the order of their key and none has more layers than are configured;
-- there is one row for an item, and none counts nothing; and every line of the logs accounts for
-- the balance.
pub Reach-WellFormed :
    (kv : KvStore) (cfg : Settings) (out : Outside) {w v : World kv}
    → ((q : String) → WellFormed cfg.cairn (w.0.rows q))
    → Reach kv cfg out w v
    → (q : String) → WellFormed cfg.cairn (v.0.rows q)
Reach-WellFormed kv cfg out h r =
    Reach-Everyone kv cfg out (λ q. WellFormed cfg.cairn) (kept cfg) h r
