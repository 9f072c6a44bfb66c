-- ===== src/Player/Laws.antt =====
-- What `Sync` and `GetState` do to a player's rows.
use stone_server.Prelude.{
  ℕ, ◌+◌, ◌-◌, ◌*◌, ◌≤◌, ◌≡◌, false, some, Result, ok, err, arith, Result-cases, if◌then◌else◌, sym,
  ap, ◌∙◌, Option-cases, some_eq, inl, inr,
}
use stone_server.Tables.{
  PlayerState, PlayerRows, Env, accrued, with_state, sync_state, Error, Charge, charge_points,
}
use stone_server.Cairn
use stone_server.Cairn.{apply_growth, apply_growth_tx}
use stone_server.Cairn.Frame.{Purse, purse_of, purse, SameEconomy, apply_growth-SameEconomy}
use stone_server.Player.{SyncReply, synced, sync_failed, synced_state, sync}

-- The outcome of a charge, with its balance alone.
abbrev pub balance_left : Result Error (Charge × PlayerRows) → Result Error ℕ
balance_left (ok (ch, db)) = ok ch.balance_after
balance_left (err e) = err e

module _ (c : Cairn.Config) (seed : ℕ → ℕ) where
  pub apply_growth_tx-SameEconomy :
      (env : Env) (db : PlayerRows) → SameEconomy db (apply_growth_tx c seed env db).0
  unfolding apply_growth_tx
  apply_growth_tx-SameEconomy env db = elim (Result-cases (apply_growth c seed env db)) [
    | inl (db', e) ↦ let same = apply_growth-SameEconomy c seed env db e in ground (arith, e, same)
    | inr (x, e) ↦ ground (arith, e)
  ]

  -- What a reader of the balance finds after a sync, whatever becomes of the growth.
  pub sync-purse :
      (env : Env) (st : PlayerState) (db : PlayerRows)
      → env.fault sync_state ≡ false
      → db.state ≡ some st
      → purse (sync c seed env db).0 ≡ some (purse_of (synced_state env.now st))
  unfolding sync
  sync-purse env st db f h = ground (
    arith,
    f,
    h,
    (apply_growth_tx-SameEconomy env (with_state (synced_state env.now st) db)).same_purse,
  )

  -- The reply to a player that has a state.
  abbrev sync_reply : Env → PlayerState → SyncReply
  sync_reply env st =
      if env.fault sync_state
      then sync_failed
      else synced (record {
        enlightenment_pts = st.enlightenment_pts + accrued env.now st;
        last_sync_at = env.now;
      })

  sync-reply :
      (env : Env) (st : PlayerState) (db : PlayerRows)
      → db.state ≡ some st
      → (sync c seed env db).1 ≡ sync_reply env st
  unfolding sync
  sync-reply env st db h = ground (arith, h)

  pub purse-state :
      (db : PlayerRows) (p : Purse)
      → purse db ≡ some p
      → (st : PlayerState) × (db.state ≡ some st) × (purse_of st ≡ p)
  purse-state db p h = elim (Option-cases db.state) [
    | inl e ↦ absurd (cc (rw e at h))
    | inr (st, e) ↦ (st, e, some_eq (rw e at h))
  ]

  accrued-accrued :
      (a b t rate : ℕ) → t ≤ a → a ≤ b → (a - t) * rate + (b - a) * rate ≡ (b - t) * rate
  accrued-accrued a b t rate h k =
      let e : (a - t) + (b - a) ≡ b - t = omega arith in
      let cut : ((a - t) + (b - a)) * rate ≡ (a - t) * rate + (b - a) * rate = grind arith in
      sym cut ∙ ap (λ d. d * rate) e

  -- What is there to spend, at a time.
  abbrev funds : ℕ → PlayerState → ℕ
  funds now st = st.enlightenment_pts + accrued now st

  funds-sync :
      (env env' : Env) (st st' : PlayerState) (last : ℕ)
      → st.last_sync_at ≡ some last
      → last ≤ env.now
      → env.now ≤ env'.now
      → purse_of st' ≡ purse_of (synced_state env.now st)
      → funds env'.now st' ≡ funds env'.now st
  unfolding accrued
  funds-sync env env' st st' last l le le' p =
      let w = accrued-accrued env.now env'.now last st.enlightenment_rate le le' in
      let points : st'.enlightenment_pts ≡ funds env.now st = ap (λ q. q.points) p in
      let rate : st'.enlightenment_rate ≡ st.enlightenment_rate = ap (λ q. q.rate) p in
      let anchor : st'.last_sync_at ≡ some env.now = ap (λ q. q.synced) p in
      ground (arith, points, rate, anchor, l, w)

  charge_points-balance_left :
      (env : Env) (cost : ℕ) (st st' : PlayerState) (db db' : PlayerRows)
      → db.state ≡ some st
      → db'.state ≡ some st'
      → funds env.now st ≡ funds env.now st'
      → balance_left (charge_points env cost db) ≡ balance_left (charge_points env cost db')
  unfolding charge_points
  charge_points-balance_left env cost st st' db db' h h' e = ground (arith, h, h', e)

  -- Syncing on the way does not change what a later sync replies: the gain of a window does not
  -- depend on where the window is cut, nor on whether the growth of the cairn succeeds. The UPDATEs
  -- of the syncs do not fail, and the last sync is not in the future.
  pub sync-sync :
      (env env' : Env) (st : PlayerState) (last : ℕ) (db : PlayerRows)
      → env.fault sync_state ≡ false
      → db.state ≡ some st
      → st.last_sync_at ≡ some last
      → last ≤ env.now
      → env.now ≤ env'.now
      → (sync c seed env' (sync c seed env db).0).1 ≡ (sync c seed env' db).1
  unfolding accrued
  sync-sync env env' st last db f h l le le' =
      let (st', e, p) = purse-state (sync c seed env db).0 _ (sync-purse env st db f h) in
      let same = funds-sync env env' st st' last l le le' p in
      rw (sync-reply env' st' (sync c seed env db).0 e, sync-reply env' st db h)
        (ground (arith, same))

  -- A later charge of points goes the same way whether or not the player has synced before it: it
  -- fails with the same error, or leaves the same balance. The UPDATE of the sync does not fail,
  -- and the last sync is not in the future.
  pub charge_points-sync :
      (env env' : Env) (st : PlayerState) (last cost : ℕ) (db : PlayerRows)
      → env.fault sync_state ≡ false
      → db.state ≡ some st
      → st.last_sync_at ≡ some last
      → last ≤ env.now
      → env.now ≤ env'.now
      → balance_left (charge_points env' cost (sync c seed env db).0)
        ≡ balance_left (charge_points env' cost db)
  charge_points-sync env env' st last cost db f h l le le' =
      let (st', e, p) = purse-state (sync c seed env db).0 _ (sync-purse env st db f h) in
      charge_points-balance_left env' cost st' st _ db e h
        (funds-sync env env' st st' last l le le' p)
