-- ===== src/Cairn/Frame.antt =====
-- What `ApplyGrowth` leaves alone.
use stone_server.Prelude.{ℕ, ◌≡◌, Option, none, some, ok, >>=-eq-ok, Result-cases, inl, inr, arith}
use stone_server.Tables.{PlayerState, PlayerRows, Env}
use stone_server.Cairn.{
  Config, Growth, write_layers, plan_growth, heal_null, commit_growth, apply_growth,
}

-- The columns of a state that the economy lives on.
pub record Purse : Type 0 where
  pub points : ℕ
  pub rate : ℕ
  pub synced : Option ℕ
  pub next : Option ℕ

abbrev pub purse_of : PlayerState → Purse
purse_of st = record {
  points = st.enlightenment_pts;
  rate = st.enlightenment_rate;
  synced = st.last_sync_at;
  next = st.next_gacha_at;
}

abbrev pub purse : PlayerRows → Option Purse
purse db = elim db.state [ none ↦ none | some st ↦ some (purse_of st) ]

-- The rows outside the cairn are those of before.
pub record SameEconomy (a b : PlayerRows) : Type 0 where
  pub same_purse : purse b ≡ purse a
  pub same_items : b.inventories ≡ a.inventories
  pub same_gacha_logs : b.gacha_logs ≡ a.gacha_logs
  pub same_vow_logs : b.vow_logs ≡ a.vow_logs

commit_growth-SameEconomy :
    (env : Env) (g : Growth) (db : PlayerRows) {db' : PlayerRows}
    → commit_growth env g db ≡ ok db'
    → SameEconomy db db'
unfolding commit_growth heal_null
commit_growth-SameEconomy env Growth.heal db e = ground arith
commit_growth-SameEconomy env Growth.nothing db e = ground arith
commit_growth-SameEconomy env (Growth.advance old new incs) db e =
    elim (Result-cases (write_layers env incs db.slots)) [
      | inl (rows, w) ↦ ground (arith, w)
      | inr (x, w) ↦ ground (arith, w)
    ]

-- Growth that succeeds leaves the balance, its clocks, the items and the logs as they were.
pub apply_growth-SameEconomy :
    (c : Config) (seed : ℕ → ℕ) (env : Env) (db : PlayerRows) {db' : PlayerRows}
    → apply_growth c seed env db ≡ ok db'
    → SameEconomy db db'
unfolding apply_growth
apply_growth-SameEconomy c seed env db e =
    let (g, planned, e') = >>=-eq-ok (plan_growth c seed env db) _ e in
    commit_growth-SameEconomy env g db e'
