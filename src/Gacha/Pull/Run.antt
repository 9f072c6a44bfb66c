-- ===== src/Gacha/Pull/Run.antt =====
-- A pull that succeeded, step by step.
use stone_server.Prelude.{ℕ, ◌≡◌, Option, [], ◌∷◌, ◌++◌, ok, refuse_if, >>=-eq-ok, ok_pair, arith}
use stone_server.Tables.{
  PlayerRows, Env, begin, commit, append_log, db_failed, Charge, charge_points,
}
use stone_server.Cairn
use stone_server.Cairn.{apply_growth}
use stone_server.Gacha.Pool.{SkinPool, Seed, RollResult, Drawn, drawn, roll}
use stone_server.Gacha.Grant.{RewardGrant, grant_item, item_type_stone_skin, source_wish_cairn}
use stone_server.Gacha.Pull.{
  GameConfig, PullResponse, claim_cooldown, claim_complete_slot, drawn_result, gacha_log,
  pull_response, finish_pull, exec_pull,
}

module _ (cfg : GameConfig) (cairn : Cairn.Config) (pool : SkinPool) (seed : ℕ → ℕ)
    (random : Option Seed) (env : Env) (slot_index : ℕ) (db : PlayerRows) where
  -- The rows between the steps, with what each step returned.
  pub record PullRun (r : PullResponse) (after : PlayerRows) : Type 0 where
    pub gated : PlayerRows
    pub grew : PlayerRows
    pub claimed : PlayerRows
    pub paid : PlayerRows
    pub granted : PlayerRows
    pub ch : Charge
    pub res : RollResult
    pub g : RewardGrant
    pub by_gate : claim_cooldown cfg env db ≡ ok gated
    pub by_growth : apply_growth cairn seed env gated ≡ ok grew
    pub by_claim : claim_complete_slot cairn env slot_index grew ≡ ok claimed
    pub by_charge : charge_points env cfg.pull_cost claimed ≡ ok (ch, paid)
    pub by_roll : roll pool random ≡ drawn res
    pub by_grant :
        grant_item env res.item_id res.rarity item_type_stone_skin source_wish_cairn paid
        ≡ ok (g, granted)
    pub response : r ≡ pull_response env cfg res g ch
    pub rows : after ≡ record granted {
      gacha_logs = granted.gacha_logs ++ gacha_log env cfg res g.is_duplicate ch ∷ [];
    }

drawn_result-ok : (d : Drawn RollResult) {r : RollResult} → drawn_result d ≡ ok r → d ≡ drawn r
unfolding drawn_result
drawn_result-ok d e = ground arith

pub exec_pull-PullRun :
    (cfg : GameConfig) (cairn : Cairn.Config) (pool : SkinPool) (seed : ℕ → ℕ)
    (random : Option Seed) (env : Env) (slot_index : ℕ) (db : PlayerRows) {r : PullResponse}
    {after : PlayerRows}
    → exec_pull cfg cairn pool seed random env slot_index db ≡ ok (r, after)
    → PullRun cfg cairn pool seed random env slot_index db r after
unfolding exec_pull finish_pull
exec_pull-PullRun cfg cairn pool seed random env slot_index db e =
    let (_, _, e₀) = >>=-eq-ok (refuse_if (env.fault begin) db_failed) _ e in
    let (gated, by_gate, e₁) = >>=-eq-ok (claim_cooldown cfg env db) _ e₀ in
    let (grew, by_growth, e₂) = >>=-eq-ok (apply_growth cairn seed env gated) _ e₁ in
    let (claimed, by_claim, e₃) = >>=-eq-ok (claim_complete_slot cairn env slot_index grew) _ e₂ in
    let ((ch, paid), by_charge, e₄) = >>=-eq-ok (charge_points env cfg.pull_cost claimed) _ e₃ in
    let (res, by_roll, e₅) = >>=-eq-ok (drawn_result (roll pool random)) _ e₄ in
    let ((g, granted), by_grant, e₆) =
      >>=-eq-ok (grant_item env res.item_id res.rarity _ _ paid) _ e₅ in
    let (_, _, e₇) = >>=-eq-ok (refuse_if (env.fault append_log) db_failed) _ e₆ in
    let (_, _, e₈) = >>=-eq-ok (refuse_if (env.fault commit) db_failed) _ e₇ in
    record {
      gated = gated;
      grew = grew;
      claimed = claimed;
      paid = paid;
      granted = granted;
      ch = ch;
      res = res;
      g = g;
      by_gate = by_gate;
      by_growth = by_growth;
      by_claim = by_claim;
      by_charge = by_charge;
      by_roll = drawn_result-ok (roll pool random) by_roll;
      by_grant = by_grant;
      response = (ok_pair e₈).0;
      rows = (ok_pair e₈).1;
    }
