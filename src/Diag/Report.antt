-- ===== src/Diag/Report.antt =====
-- internal/diag/economy.go: the report of the audit, and its handler.

use stone_server.Prelude.{
  ℕ, ℤ, ◌+◌, Bool, true, false, Option, none, some, List, [], ◌∷◌, ◌++◌, map, length, String,
  str_eq, if◌then◌else◌,
}
use stone_server.Tables.{GachaLog, VowLog, PlayerState, PlayerRows, Env, read_state, load_ledger}
use stone_server.Diag.{
  gacha, vow, EventAudit, Anomaly, difference, sort_events, walk_all, anomalies_of,
}

unfoldable pub sum_of : (EventAudit → ℕ) → List EventAudit → ℕ
sum_of f [] = 0
sum_of f (e ∷ es) = f e + sum_of f es

abbrev pub last_balance : Option ℕ → List EventAudit → Option ℕ
last_balance found [] = found
last_balance found (e ∷ es) = last_balance (some e.balance_after) es

abbrev pub first_balance : List EventAudit → Option ℕ
first_balance [] = none
first_balance (e ∷ es) = some e.balance_before

pub record EconomyAudit : Type 0 where
  pub current_balance : ℕ
  pub enlightenment_rate : ℕ
  pub last_sync_at : Option ℕ
  pub gacha_pulls : ℕ
  pub vow_count : ℕ
  pub total_events : ℕ
  pub total_accrued : ℕ
  pub total_cost : ℕ
  pub net_logged : ℤ
  pub first_balance_before : Option ℕ
  pub last_balance_after : Option ℕ
  pub unlogged_accrual : ℕ
  pub max_plausible_accrual : ℕ
  pub same_second_events : Bool
  pub reconciled : Bool
  pub anomalies : List Anomaly

abbrev pub is_empty {ℓ} : {A : Type ℓ} → List A → Bool
is_empty [] = true
is_empty (x ∷ xs) = false

unfoldable pub audit : PlayerState → ℕ → ℕ → List EventAudit → EconomyAudit
unfolding anomalies_of sort_events walk_all sum_of
audit st pulls vows events =
    let sorted = sort_events events in
    let walked = walk_all st.enlightenment_rate sorted in
    let accrued = sum_of (λ e. e.accrued_pts) events in
    let cost = sum_of (λ e. e.cost_points) events in
    let found = anomalies_of st.enlightenment_rate events in
    record {
      current_balance = st.enlightenment_pts;
      enlightenment_rate = st.enlightenment_rate;
      last_sync_at = st.last_sync_at;
      gacha_pulls = pulls;
      vow_count = vows;
      total_events = length sorted;
      total_accrued = accrued;
      total_cost = cost;
      net_logged = difference accrued cost;
      first_balance_before = first_balance sorted;
      last_balance_after = last_balance none sorted;
      unlogged_accrual = walked.unlogged_accrual;
      max_plausible_accrual = walked.max_plausible_accrual;
      same_second_events = walked.same_second;
      reconciled = is_empty found;
      anomalies = found;
    }

pub data EconomyReply : Type 0 where
  audited : EconomyAudit → EconomyReply
  player_id_required state_not_found economy_failed : EconomyReply

module _ (gacha_id : GachaLog → String) (vow_id : VowLog → String) where
  abbrev pub gacha_event : GachaLog → EventAudit
  gacha_event r = record {
    kind = gacha;
    id = gacha_id r;
    at = r.pulled_at;
    cost_points = r.cost_points;
    accrued_pts = r.accrued_pts;
    balance_before = r.balance_before;
    balance_after = r.balance_after;
  }

  abbrev pub vow_event : VowLog → EventAudit
  vow_event r = record {
    kind = vow;
    id = vow_id r;
    at = r.prayed_at;
    cost_points = r.cost_points;
    accrued_pts = r.accrued_pts;
    balance_before = r.balance_before;
    balance_after = r.balance_after;
  }

  unfoldable pub economy_handler : Env → String → PlayerRows → EconomyReply
  unfolding audit
  economy_handler env player_id db =
      let events = map gacha_event db.gacha_logs ++ map vow_event db.vow_logs in
      if str_eq player_id ""
      then player_id_required
      else if env.fault read_state
      then economy_failed
      else elim db.state [
        | none ↦ state_not_found
        | some st ↦
            if env.fault load_ledger
            then economy_failed
            else audited (audit st (length db.gacha_logs) (length db.vow_logs) events)
      ]
