-- ===== src/Auth/Login/Laws.antt =====
-- What a login that does not succeed leaves of the clocks of the players.
use stone_server.Prelude.{
  ℕ, ◌≡◌, refl, ap, ◌∙◌, Bool, true, false, Option, none, some, String, str_eq, eq_iff, ◌⊎◌, ok,
  arith, Option-cases, Result-cases, Bool-cases, inl, inr,
}
use stone_server.Kv.{KvStore, Reply-cases}
use stone_server.Tables.{PlayerRows, Env}
use stone_server.Cairn
use stone_server.Cairn.Frame.{Purse, purse_of}
use stone_server.Session.{
  claim_ticket, Enforced, enforced, session_in_flight, store_failed, enforce_single_session,
  store_refresh_token,
}
use stone_server.Auth.{new_token, Sign, Accounts, NewIds, with_rows}
use stone_server.Auth.Steam.{Steam, authenticate_ticket}
use stone_server.Auth.Account.{
  reset_accrual_anchor, upsert_player, init_player_state, update_login_streak, prepare_player,
}
use stone_server.Auth.Login.{
  AuthReply, unavailable, establish, log_in, log_in_steam, auth_steam, is_logged_in,
}

-- The balance, its clocks, and the clock of the cairn.
abbrev pub clocks : PlayerRows → Option (Purse × Option ℕ)
clocks db = elim db.state [ none ↦ none | some st ↦ some (purse_of st, st.cairn_last_growth_at) ]

module _ (one : ℕ) (c : Cairn.Config) where
  init_player_state-clocks :
      (env : Env) (db : PlayerRows) (p : Purse × Option ℕ)
      → clocks db ≡ some p
      → clocks (init_player_state one c env db).0 ≡ some p
  unfolding init_player_state
  init_player_state-clocks env db p h = elim (Option-cases db.state) [
    | inl e ↦ absurd (ground (arith, e, h))
    | inr (st, e) ↦ ground (arith, e, h)
  ]

  update_login_streak-clocks :
      (env : Env) (db : PlayerRows) → clocks (update_login_streak env db).0 ≡ clocks db
  unfolding update_login_streak
  update_login_streak-clocks env db = ground arith

  pub upsert_player-rows :
      (env : Env) (fresh steam_id : String) (acc : Accounts)
      → (upsert_player env fresh steam_id acc).0.rows ≡ acc.rows
  unfolding upsert_player
  upsert_player-rows env fresh steam_id acc = ground arith

  with_rows-clocks :
      (player_id q : String) (db : PlayerRows) (acc : Accounts) (p : Purse × Option ℕ)
      → clocks (acc.rows q) ≡ some p
      → (clocks (acc.rows player_id) ≡ some p → clocks db ≡ some p)
      → clocks ((with_rows player_id db acc).rows q) ≡ some p
  with_rows-clocks player_id q db acc p h k = ground (arith, h, k, eq_iff player_id q)

  prepare_player-clocks :
      (streak : Bool) (env : Env) (fresh steam_id q : String) (acc : Accounts)
      (p : Purse × Option ℕ)
      → clocks (acc.rows q) ≡ some p
      → clocks ((prepare_player one c streak env fresh steam_id acc).0.rows q) ≡ some p
  unfolding prepare_player
  prepare_player-clocks streak env fresh steam_id q acc p h =
      let acc₁ = (upsert_player env fresh steam_id acc).0 in
      let h₁ : clocks (acc₁.rows q) ≡ some p =
        ap (λ r. clocks (r q)) (upsert_player-rows env fresh steam_id acc) ∙ h in
      elim (Result-cases (upsert_player env fresh steam_id acc).1) [
        | inr (x, e) ↦ ground (arith, e, h₁)
        | inl (player_id, e) ↦
            let db = (init_player_state one c env (acc₁.rows player_id)).0 in
            let db' = (update_login_streak env db).0 in
            let made = init_player_state-clocks env (acc₁.rows player_id) p in
            let kept = with_rows-clocks player_id q db acc₁ p h₁ made in
            let kept' =
              with_rows-clocks player_id q db' acc₁ p h₁
                (λ k. update_login_streak-clocks env db ∙ made k) in
            ground (arith, e, kept, kept')
      ]

-- The clocks of a player whose session has begun at this time.
abbrev pub reanchored : ℕ → Purse × Option ℕ → Purse × Option ℕ
reanchored now (p, anchor) = (record p { synced = some now }, some now)

-- The clocks are those of before, or the login has succeeded and they stand at its time.
abbrev pub ClocksAfter : ℕ → AuthReply → Purse × Option ℕ → PlayerRows → Type 0
ClocksAfter now reply p db =
    (clocks db ≡ some p) ⊎ ((is_logged_in reply ≡ true) × (clocks db ≡ some (reanchored now p)))

Enforced-cases : (e : Enforced) → (e ≡ enforced) ⊎ ((e ≡ session_in_flight) ⊎ (e ≡ store_failed))
Enforced-cases enforced = inl refl
Enforced-cases session_in_flight = inr (inl refl)
Enforced-cases store_failed = inr (inr refl)

module _ (kv : KvStore) (sign : Sign) where
  reset_accrual_anchor-clocks :
      (env : Env) (db : PlayerRows) (p : Purse × Option ℕ)
      → clocks db ≡ some p
      → (reset_accrual_anchor env db).1 ≡ ok tt
      → clocks (reset_accrual_anchor env db).0 ≡ some (reanchored env.now p)
  unfolding reset_accrual_anchor
  reset_accrual_anchor-clocks env db p h e = ground (arith, h, e)

  -- A login changes the rows of its player only when everything has succeeded.
  pub establish-accounts :
      (down : AuthReply) (env : Env) (ids : NewIds) (player_id : String) (acc : Accounts)
      (s : kv.State)
      → ((establish kv sign down env ids player_id acc s).1.0 ≡ acc)
        ⊎ ((is_logged_in (establish kv sign down env ids player_id acc s).0 ≡ true)
            × ((reset_accrual_anchor env (acc.rows player_id)).1 ≡ ok tt)
            × ((establish kv sign down env ids player_id acc s).1.0
                ≡ with_rows player_id (reset_accrual_anchor env (acc.rows player_id)).0 acc))
  unfolding establish
  establish-accounts down env ids player_id acc s =
      let (session, s₁) = enforce_single_session kv env.now player_id ids.jti s in
      let (stored, s₂) = store_refresh_token kv env.now player_id ids.refresh_token s₁ in
      elim (Option-cases (new_token sign env.now player_id ids.jti)) [
        | inl e ↦ inl (ground (arith, e))
        | inr (token, e) ↦ elim (Enforced-cases session) [
          | inr e₁ ↦ inl (ground (arith, e, e₁))
          | inl e₁ ↦ elim (Enforced-cases stored) [
            | inr e₂ ↦ inl (ground (arith, e, e₁, e₂))
            | inl e₂ ↦ elim (Result-cases (reset_accrual_anchor env (acc.rows player_id)).1) [
              | inr (x, e₃) ↦ inl (ground (arith, e, e₁, e₂, e₃))
              | inl (done, e₃) ↦
                  inr (ground (arith, e, e₁, e₂, e₃), e₃, ground (arith, e, e₁, e₂, e₃))
            ]
          ]
        ]
      ]

  establish-clocks :
      (down : AuthReply) (env : Env) (ids : NewIds) (player_id q : String) (acc : Accounts)
      (s : kv.State) (p : Purse × Option ℕ)
      → clocks (acc.rows q) ≡ some p
      → ClocksAfter env.now
          (establish kv sign down env ids player_id acc s).0
          p
          ((establish kv sign down env ids player_id acc s).1.0.rows q)
  establish-clocks down env ids player_id q acc s p h =
      elim (establish-accounts down env ids player_id acc s) [
        | inl e ↦ inl (ap (λ a. clocks (a.rows q)) e ∙ h)
        | inr (won, e, after) ↦
            let moved = reset_accrual_anchor-clocks env (acc.rows player_id) p in
            elim (Bool-cases (str_eq player_id q)) [
              | inr other ↦ inl (ground (arith, after, other, h))
              | inl same ↦ inr (won, ground (arith, after, same, eq_iff player_id q, h, e, moved))
            ]
      ]

  module _ (one : ℕ) (c : Cairn.Config) where
    log_in-clocks :
        (down : AuthReply) (streak : Bool) (env : Env) (ids : NewIds) (steam_id q : String)
        (acc : Accounts) (s : kv.State) (p : Purse × Option ℕ)
        → clocks (acc.rows q) ≡ some p
        → ClocksAfter env.now
            (log_in kv sign one c down streak env ids steam_id acc s).0
            p
            ((log_in kv sign one c down streak env ids steam_id acc s).1.0.rows q)
    unfolding log_in
    log_in-clocks down streak env ids steam_id q acc s p h =
        let (acc', prepared) = prepare_player one c streak env ids.player_id steam_id acc in
        let h' = prepare_player-clocks one c streak env ids.player_id steam_id q acc p h in
        elim (Result-cases prepared) [
          | inr (x, e) ↦ inl (ground (arith, e, h'))
          | inl (player_id, e) ↦ elim (establish-clocks down env ids player_id q acc' s p h') [
            | inl kept ↦ inl (ground (arith, e, kept))
            | inr (won, moved) ↦ inr (ground (arith, e, won), ground (arith, e, moved))
          ]
        ]

    log_in_steam-clocks :
        (hash : String → String) (steam : Steam) (env : Env) (ids : NewIds) (ticket q : String)
        (acc : Accounts) (s : kv.State) (p : Purse × Option ℕ)
        → clocks (acc.rows q) ≡ some p
        → ClocksAfter env.now
            (log_in_steam kv sign one c hash steam env ids ticket acc s).0
            p
            ((log_in_steam kv sign one c hash steam env ids ticket acc s).1.0.rows q)
    unfolding log_in_steam
    log_in_steam-clocks hash steam env ids ticket q acc s p h =
        elim (Result-cases (authenticate_ticket steam ticket)) [
          | inl (steam_id, e) ↦ elim (log_in-clocks unavailable true env ids steam_id q acc s p h) [
            | inl kept ↦ inl (ground (arith, e, kept))
            | inr (won, moved) ↦ inr (ground (arith, e, won), ground (arith, e, moved))
          ]
          | inr (x, e) ↦ inl (ground (arith, e, h))
        ]

    -- Whatever becomes of a login with a Steam ticket, no player's balance, rate or cooldown
    -- changes, and no clock moves, unless the login has succeeded: then the clocks of the balance
    -- and of the cairn may stand at its time, which drops what had not been credited.
    pub auth_steam-clocks :
        (hash : String → String) (steam : Steam) (env : Env) (ids : NewIds) (ticket : Option String)
        (q : String) (acc : Accounts) (s : kv.State) (p : Purse × Option ℕ)
        → clocks (acc.rows q) ≡ some p
        → ClocksAfter env.now
            (auth_steam kv sign one c hash steam env ids ticket acc s).0
            p
            ((auth_steam kv sign one c hash steam env ids ticket acc s).1.0.rows q)
    unfolding auth_steam
    auth_steam-clocks hash steam env ids none q acc s p h = inl h
    auth_steam-clocks hash steam env ids (some ticket) q acc s p h =
        let (claimed, s₁) = claim_ticket kv env.now (hash ticket) s in
        let reply = (log_in_steam kv sign one c hash steam env ids ticket acc s₁).0 in
        elim (Reply-cases claimed) [
          | inr (inl e) ↦ inl (ground (arith, e, h))
          | inr (inr e) ↦ inl (ground (arith, e, h))
          | inl (false, e) ↦ inl (ground (arith, e, h))
          | inl (true, e) ↦ elim (log_in_steam-clocks hash steam env ids ticket q acc s₁ p h) [
            | inl kept ↦ inl (ground (arith, e, kept, Bool-cases (is_logged_in reply)))
            | inr (won, moved) ↦ inr (ground (arith, e, won), ground (arith, e, won, moved))
          ]
        ]
