-- ===== src/Examples/DiagRuns.antt =====
-- The audit of a ledger, and a ledger that it does not reconcile although the server wrote it.
use stone_server.Prelude.{◌≤◌, ◌≡◌, refl, true, false, List, [], ◌∷◌, arith}
use stone_server.Tables.{charge_points}
use stone_server.Diag.Report.{audit}
use stone_server.Diag.Honest.{Act, spend, bank, ledger, audit-ledger}
use stone_server.Examples.Sample.{cairn, seed, env_at, state, rows}

abbrev acts : List Act
acts = spend (env_at 130) 30 "a" ∷ bank (env_at 150) ∷ spend (env_at 160) 45 "b" ∷ []

audit-ledger_example :
    ((audit state 2 0 (ledger cairn seed acts rows)).reconciled ≡ true)
    × ((audit state 2 0 (ledger cairn seed acts rows)).unlogged_accrual
        ≤ (audit state 2 0 (ledger cairn seed acts rows)).max_plausible_accrual)
audit-ledger_example =
    audit-ledger cairn seed state state 100 100 2 0 acts rows refl refl (omega arith)
      (omega arith, omega arith, (omega arith, (omega arith, omega arith, tt))) refl

-- Two charges in one second, the first of which accrues more than it costs, and one later.
abbrev one_second : List Act
one_second = spend (env_at 130) 30 "a" ∷ spend (env_at 130) 30 "b" ∷ spend (env_at 131) 20 "c" ∷ []

-- The reconstructed order is not that of the server, and the audit flags a drain that is none.
one_second-flagged : (audit state 3 0 (ledger cairn seed one_second rows)).reconciled ≡ false
unfolding audit charge_points
one_second-flagged = refl
