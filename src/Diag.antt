-- ===== src/Diag.antt =====
-- internal/diag/economy.go: the audit of a player's ledger, from the logs of the pulls and the
-- vows. Points are exact here, so the tolerances that absorb the rounding of float64 are 0; the
-- texts of the details and the notes are left out.
--
-- The random keys of the log rows are not in the rows of Tables: `gacha_id` and `vow_id` give them.
pub mod Report
pub mod Banked
pub mod Honest
use Prim.Native.String.{compare}
use text.Mathlib.Text.{is_lt}
use stone_server.Prelude.{
  ℕ, ℤ, pos, negsuc, ◌+◌, ◌-◌, ◌*◌, Bool, true, false, not, ◌&&◌, ◌||◌, Option, none, some, List,
  [], ◌∷◌, ◌++◌, map, length, String, str_eq, ltb, leb, ◌==◌, if◌then◌else◌,
}
use stone_server.Tables.{GachaLog, VowLog, PlayerState, PlayerRows, Env, read_state, load_ledger}

pub data EventKind : Type 0 where
  gacha vow : EventKind

pub record EventAudit : Type 0 where
  pub kind : EventKind
  pub id : String
  pub at : ℕ
  pub cost_points : ℕ
  pub accrued_pts : ℕ
  pub balance_before : ℕ
  pub balance_after : ℕ

pub data AnomalyType : Type 0 where
  row_identity negative_continuity excess_accrual : AnomalyType

pub record Anomaly : Type 0 where
  pub anomaly_type : AnomalyType
  pub event : EventAudit
  pub delta : ℤ

abbrev pub difference : ℕ → ℕ → ℤ
difference a b = if leb b a then pos (a - b) else negsuc (b - a - 1)

abbrev pub accrual_margin_secs : ℕ
accrual_margin_secs = 2

-- Whether a comes before b in the reconstructed order.
unfoldable pub comes_before : EventAudit → EventAudit → Bool
comes_before a b =
    if not (a.at == b.at)
    then ltb a.at b.at
    else if not (a.balance_before == b.balance_before)
    then ltb b.balance_before a.balance_before
    else if not (a.balance_after == b.balance_after)
    then ltb b.balance_after a.balance_after
    else is_lt (compare a.id b.id)

unfoldable pub insert_event : EventAudit → List EventAudit → List EventAudit
unfolding comes_before
insert_event e [] = e ∷ []
insert_event e (x ∷ xs) =
    let rest = insert_event e xs in if comes_before x e then x ∷ rest else e ∷ x ∷ xs

-- sort.SliceStable
unfoldable pub sort_events : List EventAudit → List EventAudit
unfolding insert_event
sort_events [] = []
sort_events (e ∷ es) = insert_event e (sort_events es)

-- The anomaly of a row, if it has one.
unfoldable pub check_row : EventAudit → List Anomaly
check_row e =
    if e.balance_after + e.cost_points == e.balance_before + e.accrued_pts
    then []
    else record {
      anomaly_type = row_identity;
      event = e;
      delta = difference (e.balance_after + e.cost_points) (e.balance_before + e.accrued_pts);
    }
      ∷ []

unfoldable pub check_rows : List EventAudit → List Anomaly
unfolding check_row
check_rows [] = []
check_rows (e ∷ es) = check_row e ++ check_rows es

pub record Walk : Type 0 where
  pub unlogged_accrual : ℕ
  pub max_plausible_accrual : ℕ
  pub same_second : Bool
  pub anomalies : List Anomaly

abbrev pub empty_walk : Walk
empty_walk = record {
  unlogged_accrual = 0;
  max_plausible_accrual = 0;
  same_second = false;
  anomalies = [];
}

-- 0 <= next - last <= ceiling
abbrev pub in_bounds : ℕ → ℕ → ℕ → Bool
in_bounds last next ceiling = leb last next && leb next (last + ceiling)

-- The anomaly of a pair that no order explains.
abbrev pub gap_anomaly : ℕ → EventAudit → EventAudit → Anomaly
gap_anomaly ceiling prev cur =
    if ltb cur.balance_before prev.balance_after
    then record {
      anomaly_type = negative_continuity;
      event = cur;
      delta = difference cur.balance_before prev.balance_after;
    }
    else record {
      anomaly_type = excess_accrual;
      event = cur;
      delta = difference cur.balance_before (prev.balance_after + ceiling);
    }

-- The loop over the pairs, from the event before.
unfoldable pub walk : ℕ → EventAudit → List EventAudit → Walk
walk rate prev [] = empty_walk
walk rate prev (cur ∷ es) =
    let rest = walk rate cur es in
    let elapsed = cur.at - prev.at in
    let ceiling = (elapsed + accrual_margin_secs) * rate in
    let fits = in_bounds prev.balance_after cur.balance_before ceiling in
    let turned = in_bounds cur.balance_after prev.balance_before ceiling in
    let flagged = gap_anomaly ceiling prev cur ∷ rest.anomalies in
    if elapsed == 0
    then (if fits || turned
        then record rest { same_second = true }
        else record rest { same_second = true; anomalies = flagged })
    else if fits
    then record rest {
      unlogged_accrual = (cur.balance_before - prev.balance_after) + rest.unlogged_accrual;
      max_plausible_accrual = ceiling + rest.max_plausible_accrual;
    }
    else record rest {
      max_plausible_accrual = ceiling + rest.max_plausible_accrual;
      anomalies = flagged;
    }

unfoldable pub walk_all : ℕ → List EventAudit → Walk
unfolding walk
walk_all rate [] = empty_walk
walk_all rate (e ∷ es) = walk rate e es

-- What is found in the events.
unfoldable pub anomalies_of : ℕ → List EventAudit → List Anomaly
unfolding sort_events check_rows walk_all
anomalies_of rate events =
    let sorted = sort_events events in check_rows sorted ++ (walk_all rate sorted).anomalies
