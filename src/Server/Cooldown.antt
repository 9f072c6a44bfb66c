-- ===== src/Server/Cooldown.antt =====
-- The cooldown between two pulls, whatever the server does in between.

use stone_server.Prelude.{
  ℕ, ◌+◌, ◌≤◌, ◌≡◌, refl, sym, ap, ◌∙◌, Option, some, String, eq_iff, ok, arith, some_eq,
}
use stone_server.Kv.{KvStore}
use stone_server.Tables.{PlayerState, PlayerRows, Env}
use stone_server.Cairn
use stone_server.Gacha.Pool.{Seed}
use stone_server.Gacha.Pull.{PullResponse, exec_pull}
use stone_server.Gacha.Pull.Laws.{exec_pull-Settled, cooled_after}
use stone_server.Vow.Pray.Laws.{pray_tx-Vowed}
use stone_server.Auth.{Accounts, with_rows}
use stone_server.Routes.{Settings, Outside}
use stone_server.Server.{World, Reach}
use stone_server.Server.Frame.{
  next_of, Framed, get_state-Framed, sync-Framed, init_player_state-Framed,
  update_login_streak-Framed, reset_accrual_anchor-Framed, reopened-Framed,
}
use stone_server.Server.Rule.{Kept}
use stone_server.Server.Rule.Worlds.{Reach-Everyone}

-- The next pull is not allowed before t.
abbrev Cooling : ℕ → PlayerRows → Type 0
Cooling t db = (n : ℕ) × (next_of db ≡ some (some n)) × (t ≤ n)

Framed-Cooling :
    {c : Cairn.Config} {a b : PlayerRows} (t : ℕ) → Framed c a b → Cooling t a → Cooling t b
Framed-Cooling t f (n, next, le) = (n, f.next n next, le)

next_of-state :
    (db : PlayerRows) (st : PlayerState) → db.state ≡ some st → next_of db ≡ some st.next_gacha_at
next_of-state db st e = ground (arith, e)

next-Cooling :
    (db : PlayerRows) (st : PlayerState) (t : ℕ)
    → db.state ≡ some st
    → Cooling t db
    → (n : ℕ) × (st.next_gacha_at ≡ some n) × (t ≤ n)
next-Cooling db st t e (n, next, le) = (n, some_eq (sym (next_of-state db st e) ∙ next), le)

module _ (cfg : Settings) (q : String) (t : ℕ) where
  abbrev Waits : String → PlayerRows → Type 0
  Waits p db = p ≡ q → Cooling t db

  -- Another pull is possible only once the cooldown has ended, and makes a later one.
  kept : Kept cfg Waits
  kept = record {
    by_state =
        λ p seed env db h same. Framed-Cooling t (get_state-Framed cfg.cairn seed env db) (h same);
    by_sync = λ p seed env db h same. Framed-Cooling t (sync-Framed cfg.cairn seed env db) (h same);
    by_pull = λ p seed random env i db r after e h same.
        let settled = exec_pull-Settled cfg.gacha cfg.cairn cfg.pool seed random env i db e in
        let (n, next, le) = next-Cooling db settled.before_state t settled.had (h same) in
        let past = cooled_after env.now n settled.before_state next settled.cooled in
        (
          env.now + cfg.gacha.cooldown,
          next_of-state after settled.after_state settled.has ∙ ap some settled.next,
          omega (arith, le, past),
        );
    by_pray = λ p bits random env req o db prayed after accepted e h same.
        let vowed = pray_tx-Vowed cfg.pool o bits random env db e in
        let (n, next, le) = next-Cooling db vowed.before_state t vowed.had (h same) in
        (n, next_of-state after vowed.after_state vowed.has ∙ ap some (vowed.same_next ∙ next), le);
    by_init = λ p env db h same.
        Framed-Cooling t (init_player_state-Framed cfg.cairn cfg.one env db) (h same);
    by_streak =
        λ p env db h same. Framed-Cooling t (update_login_streak-Framed cfg.cairn env db) (h same);
    by_reset =
        λ p env db h same. Framed-Cooling t (reset_accrual_anchor-Framed cfg.cairn env db) (h same);
    by_reopen = λ p env db h same. Framed-Cooling t (reopened-Framed cfg.cairn env db) (h same);
  }

-- Two pulls of a player that both succeed, on whatever slots, lie a cooldown apart, whatever
-- requests of whichever players, ticks of the worker and restarts come between them, with whatever
-- statements failing.
pub exec_pull-cooldown :
    (kv : KvStore) (cfg : Settings) (out : Outside) (acc : Accounts) {v : World kv} (s : kv.State)
    (q : String) (seed seed' : ℕ → ℕ) (random random' : Option Seed) (env env' : Env) (i j : ℕ)
    {r r' : PullResponse} {after after' : PlayerRows}
    → exec_pull cfg.gacha cfg.cairn cfg.pool seed random env i (acc.rows q) ≡ ok (r, after)
    → Reach kv cfg out (with_rows q after acc, s) v
    → exec_pull cfg.gacha cfg.cairn cfg.pool seed' random' env' j (v.0.rows q) ≡ ok (r', after')
    → env.now + cfg.gacha.cooldown ≤ env'.now
exec_pull-cooldown kv cfg out acc {v} s q seed seed' random random' env env' i j {after = after} e
      reached e' =
    let t = env.now + cfg.gacha.cooldown in
    let first = exec_pull-Settled cfg.gacha cfg.cairn cfg.pool seed random env i (acc.rows q) e in
    let second =
      exec_pull-Settled cfg.gacha cfg.cairn cfg.pool seed' random' env' j (v.0.rows q) e' in
    let begun : Cooling t after =
      (t, next_of-state after first.after_state first.has ∙ ap some first.next, omega arith) in
    let starts : (p : String) → p ≡ q → Cooling t ((with_rows q after acc).rows p) =
      λ p same. rw (same, (eq_iff q q).1 refl) begun in
    let waits = Reach-Everyone kv cfg out (Waits cfg q t) (kept cfg q t) starts reached q refl in
    let (n, next, le) = next-Cooling (v.0.rows q) second.before_state t second.had waits in
    let past = cooled_after env'.now n second.before_state next second.cooled in
    omega (arith, le, past)
