-- ===== src/Server/Rule.antt =====
-- The rule for what holds of the rows of every player: it holds in every world that is reached,
-- if the transactions and the single statements of the handlers keep it.
pub mod Logins
pub mod Worlds
use stone_server.Prelude.{
  ℕ, ℤ, pos, negsuc, ◌≡◌, refl, Bool, true, false, Option, none, some, String, str_eq, eq_iff, ltb,
  leb, ok, err, ◌⊎◌, inl, inr, arith, Bool-cases, Option-cases, Result-cases, Result, sym,
}
use stone_server.Kv.{KvStore, Reply-cases}
use stone_server.Tables.{PlayerRows, Env, Error, read_next}
use stone_server.Cairn
use stone_server.Gacha.Pool.{SkinPool, Seed}
use stone_server.Gacha.Pull.{GameConfig, PullResponse, exec_pull}
use stone_server.Gacha.Handlers.{
  TimeText, PullReply, is_cooling, get_next_gacha_at, refuse_pull, pull_slot, pull,
}
use stone_server.Vow.Pray.{PrayRequest, Offer, Prayed, pray_tx, exec_pray}
use stone_server.Vow.Pray.Handler.{VowConfig, offer_of, pray}
use stone_server.Player.{get_state, sync}
use stone_server.Auth.Account.{init_player_state, update_login_streak, reset_accrual_anchor}
use stone_server.Server.{reopened}
use stone_server.Routes.{Settings, Outside}

-- A pull leaves the rows, or those of the transaction.
module _ (kv : KvStore) (text : TimeText) (q : String) (g : GameConfig) (c : Cairn.Config)
    (pool : SkinPool) (seed : ℕ → ℕ) (random : Option Seed) (env : Env) (db : PlayerRows) where
  abbrev Pulled : PlayerRows → Type 0
  Pulled db' =
      (db' ≡ db)
      ⊎ ((i : ℕ) × (r : PullResponse) × (exec_pull g c pool seed random env i db ≡ ok (r, db')))

  pull_slot-Pulled :
      (i : ℕ) (s : kv.State) → Pulled (pull_slot kv text q g c pool seed random env i db s).1
  unfolding pull_slot
  pull_slot-Pulled i s =
      let (next, s') = get_next_gacha_at kv text q read_next env db s in
      elim (Result-cases next) [
        | inr (x, e) ↦ inl (ground (arith, e))
        | inl (at, e) ↦ elim (Bool-cases (is_cooling env.now at)) [
          | inl cooling ↦ inl (ground (arith, e, cooling))
          | inr cooled ↦ elim (Result-cases (exec_pull g c pool seed random env i db)) [
            | inr (x, e') ↦ inl (ground (arith, e, cooled, e'))
            | inl ((r, after), e') ↦ inr (i, r, ground (arith, e, cooled, e'))
          ]
        ]
      ]

  pub pull-Pulled :
      (body : Option ℤ) (s : kv.State)
      → Pulled (pull kv text q g c pool seed random env body db s).1
  unfolding pull
  pull-Pulled none s = inl refl
  pull-Pulled (some (negsuc n)) s = inl refl
  pull-Pulled (some (pos i)) s = elim (Bool-cases (leb c.slot_count i)) [
    | inl out ↦ inl (rw out refl)
    | inr within ↦ rw within (pull_slot-Pulled i s)
  ]

-- A vow leaves the rows, or those of the transaction of an offer that was accepted.
module _ (cfg : VowConfig) (pool : SkinPool) (bits : Option ℕ) (random : Option Seed) (env : Env)
    (db : PlayerRows) where
  abbrev Prays : PlayerRows → Type 0
  Prays db' =
      (db' ≡ db)
      ⊎ ((req : PrayRequest) × (o : Offer) × (p : Prayed) × (offer_of cfg pool req ≡ ok o)
          × (pray_tx pool o bits random env db ≡ ok (p, db')))

  pub pray-Prays : (body : Option PrayRequest) → Prays (pray cfg pool bits random env body db).0
  unfolding pray exec_pray
  pray-Prays none = inl refl
  pray-Prays (some req) = elim (Result-cases (offer_of cfg pool req)) [
    | inr (reply, e) ↦ inl (ground (arith, e))
    | inl (o, e) ↦ elim (Result-cases (pray_tx pool o bits random env db)) [
      | inr (x, e') ↦ inl (ground (arith, e, e'))
      | inl ((p, after), e') ↦ inr (req, o, p, e, ground (arith, e, e'))
    ]
  ]

-- What has to be kept, and by what.
pub record Kept (cfg : Settings) (I : String → PlayerRows → Type 0) : Type 1 where
  pub by_state :
      (q : String) (seed : ℕ → ℕ) (env : Env) (db : PlayerRows)
      → I q db
      → I q (get_state cfg.cairn seed env db).0
  pub by_sync :
      (q : String) (seed : ℕ → ℕ) (env : Env) (db : PlayerRows)
      → I q db
      → I q (sync cfg.cairn seed env db).0
  pub by_pull :
      (q : String) (seed : ℕ → ℕ) (random : Option Seed) (env : Env) (i : ℕ) (db : PlayerRows)
      (r : PullResponse) (after : PlayerRows)
      → exec_pull cfg.gacha cfg.cairn cfg.pool seed random env i db ≡ ok (r, after)
      → I q db
      → I q after
  pub by_pray :
      (q : String) (bits : Option ℕ) (random : Option Seed) (env : Env) (req : PrayRequest)
      (o : Offer) (db : PlayerRows) (p : Prayed) (after : PlayerRows)
      → offer_of cfg.vow cfg.pool req ≡ ok o
      → pray_tx cfg.pool o bits random env db ≡ ok (p, after)
      → I q db
      → I q after
  pub by_init :
      (q : String) (env : Env) (db : PlayerRows)
      → I q db
      → I q (init_player_state cfg.one cfg.cairn env db).0
  pub by_streak :
      (q : String) (env : Env) (db : PlayerRows) → I q db → I q (update_login_streak env db).0
  pub by_reset :
      (q : String) (env : Env) (db : PlayerRows) → I q db → I q (reset_accrual_anchor env db).0
  pub by_reopen :
      (q : String) (env : Env) (db : PlayerRows) → I q db → I q (reopened cfg.cairn env db)
