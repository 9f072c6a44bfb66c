-- ===== src/Server/Frame.antt =====
-- What the handlers that are neither a pull nor a vow leave of a player's rows: the goods, the logs
-- and a cooldown as they were, and slots that fit.
use stone_server.Cairn.Frame.{purse}
use stone_server.Prelude.{
  Option, none, some, ap, ℕ, ◌≡◌, refl, ◌∙◌, List, arith, Bool-cases, Option-cases, Result-cases,
  inl, inr,
}
use stone_server.Tables.{
  PlayerRows, Env, Item, GachaLog, VowLog, with_state, sync_state, read_state, load_items,
  load_slots_first,
}
use stone_server.Cairn
use stone_server.Cairn.{SlotState, initialize_slots, load_slot_states, apply_growth_tx, set_state}
use stone_server.Player.{synced_state, ensure_slots, refresh_cairn, get_state, sync}
use stone_server.Player.Laws.{apply_growth_tx-SameEconomy}
use stone_server.Auth.Account.{
  state_or_new, init_player_state, update_login_streak, reset_accrual_anchor,
}
use stone_server.Server.{reopened}
use stone_server.Server.Slots.{
  Fits, apply_growth_tx-Fits, initialize_slots-Fits, backfill_cairn_slots-Fits,
}

-- The items and the logs.
abbrev pub Goods : Type 0
Goods = List Item × List GachaLog × List VowLog

abbrev pub goods : PlayerRows → Goods
goods db = (db.inventories, db.gacha_logs, db.vow_logs)

-- When the next pull is allowed; `none` for a player without a state.
abbrev pub next_of : PlayerRows → Option (Option ℕ)
next_of db = elim (purse db) [ none ↦ none | some p ↦ some p.next ]

-- The goods are those of before, the slots fit as they did, and a cooldown stays.
pub record Framed (c : Cairn.Config) (a b : PlayerRows) : Type 0 where
  pub same_goods : goods b ≡ goods a
  pub fit : Fits c.max_layers a.slots → Fits c.max_layers b.slots
  pub next : (n : ℕ) → next_of a ≡ some (some n) → next_of b ≡ some (some n)

Framed-trans : {c : Cairn.Config} {a b d : PlayerRows} → Framed c a b → Framed c b d → Framed c a d
Framed-trans p q = record {
  same_goods = q.same_goods ∙ p.same_goods;
  fit = λ f. q.fit (p.fit f);
  next = λ n h. q.next n (p.next n h);
}

Framed-same : {c : Cairn.Config} {a b : PlayerRows} → b ≡ a → Framed c a b
Framed-same {a = a} e = rw e (record { same_goods = refl; fit = λ f. f; next = λ n h. h })

module _ (c : Cairn.Config) where
  pub init_player_state-Framed :
      (one : ℕ) (env : Env) (db : PlayerRows) → Framed c db (init_player_state one c env db).0
  unfolding init_player_state
  init_player_state-Framed one env db = record {
    same_goods = ground arith;
    fit = λ f.
        let same : (state_or_new one env.now db).slots ≡ db.slots = ground arith in
        let made = initialize_slots-Fits c env db.slots f in ground (arith, f.0, f.1, made, same);
    next = λ n h. ground (arith, h);
  }

  pub update_login_streak-Framed :
      (env : Env) (db : PlayerRows) → Framed c db (update_login_streak env db).0
  unfolding update_login_streak
  update_login_streak-Framed env db = record {
    same_goods = ground arith;
    fit = λ f. ground (arith, f.0, f.1);
    next = λ n h. ground (arith, h);
  }

  pub reset_accrual_anchor-Framed :
      (env : Env) (db : PlayerRows) → Framed c db (reset_accrual_anchor env db).0
  unfolding reset_accrual_anchor
  reset_accrual_anchor-Framed env db = record {
    same_goods = ground arith;
    fit = λ f. ground (arith, f.0, f.1);
    next = λ n h. ground (arith, h);
  }

  pub reopened-Framed : (env : Env) (db : PlayerRows) → Framed c db (reopened c env db)
  unfolding reopened
  reopened-Framed env db = record {
    same_goods = refl;
    fit = λ f. backfill_cairn_slots-Fits c env db.slots f;
    next = λ n h. ground (arith, h);
  }

  module _ (seed : ℕ → ℕ) where
    apply_growth_tx-Framed :
        (env : Env) (db : PlayerRows) → Framed c db (apply_growth_tx c seed env db).0
    apply_growth_tx-Framed env db =
        let same = apply_growth_tx-SameEconomy c seed env db in
        record {
          same_goods = ground (arith, same);
          fit = apply_growth_tx-Fits c seed env db;
          next =
              λ n h. ap (λ p. elim p [ none ↦ none | some p' ↦ some p'.next ]) same.same_purse ∙ h;
        }

    pub sync-Framed : (env : Env) (db : PlayerRows) → Framed c db (sync c seed env db).0
    unfolding sync
    sync-Framed env db = elim (Bool-cases (env.fault sync_state)) [
      | inl e ↦ Framed-same (ground (arith, e))
      | inr e ↦ elim (Option-cases db.state) [
        | inl e' ↦ Framed-same (ground (arith, e, e'))
        | inr (st, e') ↦
            let grown = apply_growth_tx-Framed env (with_state (synced_state env.now st) db) in
            rw (e, e', sync)
              (record {
                same_goods = grown.same_goods;
                fit = grown.fit;
                next = λ n h. grown.next n (ground (arith, h, e'));
              })
      ]
    ]

    ensure_slots-Framed :
        (env : Env) (slots : List SlotState) (db : PlayerRows)
        → Framed c db (ensure_slots c env slots db).0
    unfolding ensure_slots
    ensure_slots-Framed env slots db = record {
      same_goods = ground arith;
      fit = λ f. ground (arith, f.0, f.1, initialize_slots-Fits c env db.slots f);
      next = λ n h. ground (arith, h);
    }

    refresh_cairn-Framed :
        (env : Env) (db : PlayerRows) → Framed c db (refresh_cairn c seed env db).0
    unfolding refresh_cairn
    refresh_cairn-Framed env db = elim (Result-cases (load_slot_states c load_slots_first env db)) [
      | inr (x, e) ↦ Framed-same (ground (arith, e))
      | inl (slots, e) ↦
          let db₁ = (ensure_slots c env slots db).0 in
          let first = ensure_slots-Framed env slots db in
          let second = Framed-trans first (apply_growth_tx-Framed env db₁) in
          elim (Result-cases (ensure_slots c env slots db).1) [
            | inr (x, e₁) ↦ rw (e, e₁, refresh_cairn) first
            | inl (u, e₁) ↦ elim (Result-cases (apply_growth_tx c seed env db₁).1) [
              | inr (x, e₂) ↦ rw (e, e₁, e₂, refresh_cairn) second
              | inl (u', e₂) ↦ rw (e, e₁, e₂, refresh_cairn) second
            ]
          ]
    ]

    pub get_state-Framed : (env : Env) (db : PlayerRows) → Framed c db (get_state c seed env db).0
    unfolding get_state
    get_state-Framed env db = elim (Bool-cases (env.fault read_state)) [
      | inl e ↦ Framed-same (ground (arith, e))
      | inr e ↦ elim (Option-cases db.state) [
        | inl e₁ ↦ Framed-same (ground (arith, e, e₁))
        | inr (st, e₁) ↦ elim (Bool-cases (env.fault load_items)) [
          | inl e₂ ↦ Framed-same (ground (arith, e, e₁, e₂))
          | inr e₂ ↦
              let whole = refresh_cairn-Framed env db in
              let cairn = Result-cases (refresh_cairn c seed env db).1 in
              Framed-trans whole (Framed-same (ground (arith, e, e₁, e₂, cairn)))
        ]
      ]
    ]
