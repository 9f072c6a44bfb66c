-- ===== src/Server/Goods.antt =====
-- The items of a player against the logs, in every world that the server reaches.
use mathlib.Core.Path.{subst}
use stone_server.Prelude.{
  ℕ, ℤ, pos, negsuc, ◌+◌, ◌≡◌, refl, sym, ap, ◌∙◌, true, false, Option, String, str_eq, List, [],
  ◌∷◌, ◌++◌, map, ok, arith, All, if◌then◌else◌,
}
use stone_server.Kv.{KvStore}
use stone_server.Tables.{PlayerRows, Env, GachaLog, VowLog}
use stone_server.Cairn
use stone_server.Gacha.Pool.{SkinPool, Seed}
use stone_server.Gacha.Grant.{count_of}
use stone_server.Gacha.Pull.{GameConfig, PullResponse, exec_pull}
use stone_server.Gacha.Pull.Laws.{exec_pull-Settled, exec_pull-count_of}
use stone_server.Gacha.Pull.Rows.{exec_pull-PulledRows}
use stone_server.Vow.Rates.{Material, is_positive}
use stone_server.Vow.Pray.{Offer, Prayed, pray_tx}
use stone_server.Vow.Pray.Handler.{offer_of-checked}
use stone_server.Vow.Pray.Materials.{offer_of-materials}
use stone_server.Vow.Pray.Stock.{asked}
use stone_server.Vow.Pray.Laws.{pray_tx-Vowed, pray_tx-count_of}
use stone_server.Vow.Pray.Rows.{pray_tx-PrayedRows}
use stone_server.Server.{World, Reach}
use stone_server.Routes.{Settings, Outside}
use stone_server.Server.Frame.{
  Framed, get_state-Framed, sync-Framed, init_player_state-Framed, update_login_streak-Framed,
  reset_accrual_anchor-Framed, reopened-Framed,
}
use stone_server.Server.Sound.{
  WellFormed, Framed-WellFormed, exec_pull-WellFormed, pray_tx-WellFormed,
}
use stone_server.Server.Rule.{Kept}
use stone_server.Server.Rule.Worlds.{Reach-Everyone}

-- 1 where two items are the same.
abbrev one_if : String → String → ℕ
one_if item id = if str_eq item id then 1 else 0

-- How often the pulls of a log have given the item.
abbrev pub pulled : String → List GachaLog → ℕ
pulled id [] = 0
pulled id (l ∷ logs) = one_if l.item_id id + pulled id logs

-- How often the vows of a log have given it.
abbrev pub rewarded : String → List VowLog → ℕ
rewarded id [] = 0
rewarded id (l ∷ logs) = one_if l.reward_item_id id + rewarded id logs

-- How many of it the materials of a line were.
abbrev pub listed : String → List (String × ℤ) → ℕ
listed id [] = 0
listed id ((item, n) ∷ ms) =
    (if str_eq item id then elim n [ pos k ↦ k | negsuc k ↦ 0 ] else 0) + listed id ms

-- How many the vows of a log have taken.
abbrev pub offered : String → List VowLog → ℕ
offered id [] = 0
offered id (l ∷ logs) = listed id l.materials + offered id logs

listed-asked :
    (id : String) (ms : List Material)
    → listed id (map (λ m. (m.item_id, m.count)) ms) ≡ asked id ms
listed-asked id [] = refl
listed-asked id (m ∷ ms) = ground (arith, listed-asked id ms)

pulled-append :
    (id : String) (logs : List GachaLog) (l : GachaLog)
    → pulled id (logs ++ l ∷ []) ≡ pulled id logs + one_if l.item_id id
pulled-append id [] l = omega arith
pulled-append id (x ∷ logs) l = omega (arith, pulled-append id logs l)

rewarded-append :
    (id : String) (logs : List VowLog) (l : VowLog)
    → rewarded id (logs ++ l ∷ []) ≡ rewarded id logs + one_if l.reward_item_id id
rewarded-append id [] l = omega arith
rewarded-append id (x ∷ logs) l = omega (arith, rewarded-append id logs l)

offered-append :
    (id : String) (logs : List VowLog) (l : VowLog)
    → offered id (logs ++ l ∷ []) ≡ offered id logs + listed id l.materials
offered-append id [] l = omega arith
offered-append id (x ∷ logs) l = omega (arith, offered-append id logs l)

-- What a player holds of the item, and what was offered of it, came from the pulls and the vows
-- of the logs.
abbrev pub Accounted : String → PlayerRows → Type 0
Accounted id db =
    count_of id db.inventories + offered id db.vow_logs
    ≡ pulled id db.gacha_logs + rewarded id db.vow_logs

exec_pull-Accounted :
    (cfg : GameConfig) (cairn : Cairn.Config) (pool : SkinPool) (seed : ℕ → ℕ)
    (random : Option Seed) (env : Env) (i : ℕ) (db : PlayerRows) (id : String) {r : PullResponse}
    {after : PlayerRows}
    → exec_pull cfg cairn pool seed random env i db ≡ ok (r, after)
    → Accounted id db
    → Accounted id after
exec_pull-Accounted cfg cairn pool seed random env i db id {r} {after} e h =
    let settled = exec_pull-Settled cfg cairn pool seed random env i db e in
    let rows = exec_pull-PulledRows cfg cairn pool seed random env i db e in
    let (log, appended, item, _, _, _) = settled.logged in
    let stack : count_of id after.inventories ≡ count_of id db.inventories + one_if r.item_id id =
      ground (arith, exec_pull-count_of cfg cairn pool seed random env i db id e) in
    let logged : pulled id after.gacha_logs ≡ pulled id db.gacha_logs + one_if r.item_id id =
      ap (pulled id) appended
      ∙ pulled-append id db.gacha_logs log
      ∙ ap (λ x. pulled id db.gacha_logs + one_if x id) item in
    let vows = ap (offered id) rows.vow_logs in
    let vows' = ap (rewarded id) rows.vow_logs in omega (arith, stack, logged, vows, vows', h)

pray_tx-Accounted :
    (pool : SkinPool) (o : Offer) (bits : Option ℕ) (seed : Option Seed) (env : Env)
    (c : Cairn.Config) (db : PlayerRows) (id : String) {p : Prayed} {after : PlayerRows}
    → All (λ m. is_positive m.count ≡ true) o.materials
    → o.ignore_items ≡ false
    → WellFormed c db
    → pray_tx pool o bits seed env db ≡ ok (p, after)
    → Accounted id db
    → Accounted id after
pray_tx-Accounted pool o bits seed env c db id {p} {after} a taken w e h =
    let vowed = pray_tx-Vowed pool o bits seed env db e in
    let rows = pray_tx-PrayedRows pool o bits seed env db e in
    let (log, appended, _, item, _, materials, _, _, _) = vowed.logged in
    let stack = pray_tx-count_of pool o bits seed env db id a w.stock taken e in
    let given : rewarded id after.vow_logs ≡ rewarded id db.vow_logs + one_if p.reward_item id =
      ap (rewarded id) appended
      ∙ rewarded-append id db.vow_logs log
      ∙ ap (λ x. rewarded id db.vow_logs + one_if x id) item in
    let spent : offered id after.vow_logs ≡ offered id db.vow_logs + asked id o.materials =
      ap (offered id) appended
      ∙ offered-append id db.vow_logs log
      ∙ ap (λ x. offered id db.vow_logs + x)
          (ap (listed id) materials ∙ listed-asked id o.materials) in
    let pulls = ap (pulled id) rows.gacha_logs in omega (arith, stack, given, spent, pulls, h)

-- The two invariants together: the count of a vow needs one row for an item.
abbrev Sorted : Cairn.Config → PlayerRows → Type 0
Sorted c db = WellFormed c db × ((id : String) → Accounted id db)

Framed-Sorted : {c : Cairn.Config} {a b : PlayerRows} → Framed c a b → Sorted c a → Sorted c b
Framed-Sorted {a = a} {b = b} f (w, h) = (
  Framed-WellFormed f w,
  λ id.
      subst (λ g. count_of id g.0 + offered id g.2 ≡ pulled id g.1 + rewarded id g.2)
        (sym f.same_goods) (h id),
)

kept : (cfg : Settings) → cfg.vow.allow_debug ≡ false → Kept cfg (λ q. Sorted cfg.cairn)
kept cfg plain = record {
  by_state = λ q seed env db. Framed-Sorted (get_state-Framed cfg.cairn seed env db);
  by_sync = λ q seed env db. Framed-Sorted (sync-Framed cfg.cairn seed env db);
  by_pull = λ q seed random env i db r after e h. (
    exec_pull-WellFormed cfg.gacha cfg.cairn cfg.pool seed random env i db e h.0,
    λ id. exec_pull-Accounted cfg.gacha cfg.cairn cfg.pool seed random env i db id e (h.1 id),
  );
  by_pray = λ q bits random env req o db p after accepted e h.
      let (same, positive) = offer_of-materials cfg.vow cfg.pool req accepted in
      let (_, _, _, _, _, _, _, _, taken, _) =
        offer_of-checked cfg.vow cfg.pool req plain accepted in
      (
        pray_tx-WellFormed cfg.cairn cfg.pool o bits random env db e h.0,
        λ id.
            pray_tx-Accounted cfg.pool o bits random env cfg.cairn db id (rw same positive) taken
              h.0 e (h.1 id),
      );
  by_init = λ q env db. Framed-Sorted (init_player_state-Framed cfg.cairn cfg.one env db);
  by_streak = λ q env db. Framed-Sorted (update_login_streak-Framed cfg.cairn env db);
  by_reset = λ q env db. Framed-Sorted (reset_accrual_anchor-Framed cfg.cairn env db);
  by_reopen = λ q env db. Framed-Sorted (reopened-Framed cfg.cairn env db);
}

-- In every world that a server without debug options reaches, by whatever requests, ticks of the
-- worker and restarts, with whatever statements failing, the items of every player add up with
-- the logs: what is held of an item, with what the vows took of it, is what the pulls and the
-- vows gave. The rows of the players were well-formed and added up at first.
pub Reach-Accounted :
    (kv : KvStore) (cfg : Settings) (out : Outside) {w v : World kv}
    → cfg.vow.allow_debug ≡ false
    → ((q : String) → WellFormed cfg.cairn (w.0.rows q))
    → ((q id : String) → Accounted id (w.0.rows q))
    → Reach kv cfg out w v
    → (q id : String) → Accounted id (v.0.rows q)
Reach-Accounted kv cfg out plain w h r q id =
    (Reach-Everyone kv cfg out (λ q. Sorted cfg.cairn) (kept cfg plain) (λ j. (w j, h j)) r q).1 id
