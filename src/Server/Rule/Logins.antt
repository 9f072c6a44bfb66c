-- ===== src/Server/Rule/Logins.antt =====
-- The rule, for the handlers and the logins.
use mathlib.Core.Path.{subst}
use stone_server.Prelude.{
  eq_iff, ◌≡◌, Bool, true, false, Option, none, some, List, String, str_eq, arith, Bool-cases,
  Result-cases, inl, inr,
}
use stone_server.Kv.{KvStore, Reply-cases}
use stone_server.Tables.{PlayerRows, Env}
use stone_server.Session.{claim_ticket}
use stone_server.Auth.{Accounts, NewIds, with_rows}
use stone_server.Auth.Steam.{authenticate_ticket}
use stone_server.Auth.Account.{
  upsert_player, init_player_state, update_login_streak, reset_accrual_anchor, prepare_player,
}
use stone_server.Auth.Login.{
  AuthReply, internal_error, unavailable, establish, log_in, log_in_steam, auth_steam, auth_dev,
  dev_token, is_logged_in,
}
use stone_server.Auth.Login.Laws.{establish-accounts, upsert_player-rows}
use stone_server.Server.Rule.{Kept, pull-Pulled, pray-Prays}
use stone_server.Server.{act}
use stone_server.Routes.{
  Settings, Outside, Action, get_player_state, post_player_sync, get_gacha_status, post_gacha_pull,
  post_vow_pray, get_gacha_logs, post_achievement_unlock, get_achievement_list,
}

module _ (kv : KvStore) (cfg : Settings) (out : Outside) (I : String → PlayerRows → Type 0)
    (kept : Kept cfg I) where
  -- It holds of every player.
  abbrev pub Everyone : Accounts → Type 0
  Everyone acc = (q : String) → I q (acc.rows q)

  pub act-Kept :
      (env : Env) (players : List (String × String)) (q : String) (action : Action)
      (db : PlayerRows) (s : kv.State)
      → I q db
      → I q (act kv cfg out env players q action db s).1.0
  unfolding act
  act-Kept env players q get_player_state db s h = kept.by_state q (out.seed q) env db h
  act-Kept env players q post_player_sync db s h = kept.by_sync q (out.seed q) env db h
  act-Kept env players q get_gacha_status db s h = h
  act-Kept env players q (post_gacha_pull random body) db s h =
      elim (pull-Pulled kv out.text q cfg.gacha cfg.cairn cfg.pool (out.seed q) random env db body
        s) [
          | inl same ↦ rw same h
          | inr (i, r, e) ↦ kept.by_pull q (out.seed q) random env i db r _ e h
        ]
  act-Kept env players q (post_vow_pray bits random body) db s h =
      elim (pray-Prays cfg.vow cfg.pool bits random env db body) [
        | inl same ↦ rw same h
        | inr (req, o, p, e, e') ↦ kept.by_pray q bits random env req o db p _ e e' h
      ]
  act-Kept env players q (get_gacha_logs page limit) db s h = h
  act-Kept env players q (post_achievement_unlock e t id) db s h = h
  act-Kept env players q (get_achievement_list e t) db s h = h

  pub with_rows-Everyone :
      (q : String) (db : PlayerRows) (acc : Accounts)
      → Everyone acc
      → I q db
      → Everyone (with_rows q db acc)
  with_rows-Everyone q db acc h k j = elim (Bool-cases (str_eq q j)) [
    | inl e ↦ rw e (subst (λ x. I x db) ((eq_iff q j).0 e) k)
    | inr e ↦ rw e (h j)
  ]

  prepare_player-Everyone :
      (streak : Bool) (env : Env) (fresh steam_id : String) (acc : Accounts)
      → Everyone acc
      → Everyone (prepare_player cfg.one cfg.cairn streak env fresh steam_id acc).0
  unfolding prepare_player
  prepare_player-Everyone streak env fresh steam_id acc h j =
      let acc₁ = (upsert_player env fresh steam_id acc).0 in
      let h₁ : Everyone acc₁ =
        λ i. rw (upsert_player-rows cfg.one cfg.cairn env fresh steam_id acc) (h i) in
      elim (Result-cases (upsert_player env fresh steam_id acc).1) [
        | inr (x, e) ↦ rw (e, prepare_player) (h₁ j)
        | inl (id, e) ↦
            let db = (init_player_state cfg.one cfg.cairn env (acc₁.rows id)).0 in
            let made = kept.by_init id env (acc₁.rows id) (h₁ id) in
            let alone = with_rows-Everyone id db acc₁ h₁ made j in
            let two =
              with_rows-Everyone id (update_login_streak env db).0 acc₁ h₁
                (kept.by_streak id env db made) j in
            elim (Result-cases (init_player_state cfg.one cfg.cairn env (acc₁.rows id)).1) [
              | inr (x, e₁) ↦ rw (e, e₁, prepare_player) alone
              | inl (u, e₁) ↦ elim (Bool-cases streak) [
                | inr e₂ ↦ rw (e, e₁, e₂, prepare_player) alone
                | inl e₂ ↦ elim (Result-cases (update_login_streak env db).1) [
                  | inr (x, e₃) ↦ rw (e, e₁, e₂, e₃, prepare_player) two
                  | inl (u', e₃) ↦ rw (e, e₁, e₂, e₃, prepare_player) two
                ]
              ]
            ]
      ]

  establish-Everyone :
      (down : AuthReply) (env : Env) (ids : NewIds) (id : String) (acc : Accounts) (s : kv.State)
      → Everyone acc
      → Everyone (establish kv out.sign down env ids id acc s).1.0
  establish-Everyone down env ids id acc s h =
      elim (establish-accounts kv out.sign down env ids id acc s) [
        | inl same ↦ rw same h
        | inr (won, e, same) ↦ rw same (
            with_rows-Everyone id (reset_accrual_anchor env (acc.rows id)).0 acc h
              (kept.by_reset id env (acc.rows id) (h id)))
      ]

  pub log_in-Everyone :
      (down : AuthReply) (streak : Bool) (env : Env) (ids : NewIds) (steam_id : String)
      (acc : Accounts) (s : kv.State)
      → Everyone acc
      → Everyone (log_in kv out.sign cfg.one cfg.cairn down streak env ids steam_id acc s).1.0
  unfolding log_in
  log_in-Everyone down streak env ids steam_id acc s h =
      let (acc', prepared) =
        prepare_player cfg.one cfg.cairn streak env ids.player_id steam_id acc in
      let h' = prepare_player-Everyone streak env ids.player_id steam_id acc h in
      elim (Result-cases prepared) [
        | inr (x, e) ↦ rw (e, log_in) h'
        | inl (id, e) ↦ rw (e, log_in) (establish-Everyone down env ids id acc' s h')
      ]

  pub auth_dev-Everyone :
      (env : Env) (ids : NewIds) (uuid : Option String) (acc : Accounts) (s : kv.State)
      → Everyone acc
      → Everyone (auth_dev kv out.sign cfg.one cfg.cairn env ids uuid acc s).1.0
  unfolding auth_dev
  auth_dev-Everyone env ids none acc s h = h
  auth_dev-Everyone env ids (some uuid) acc s h =
      log_in-Everyone internal_error true env ids uuid acc s h

  pub dev_token-Everyone :
      (env : Env) (ids : NewIds) (steam_id : String) (acc : Accounts) (s : kv.State)
      → Everyone acc
      → Everyone (dev_token kv out.sign cfg.one cfg.cairn env ids steam_id acc s).1.0
  unfolding dev_token
  dev_token-Everyone env ids steam_id acc s h = elim (Bool-cases (str_eq steam_id "")) [
    | inl e ↦ rw e h
    | inr e ↦ rw e (log_in-Everyone internal_error false env ids steam_id acc s h)
  ]

  log_in_steam-Everyone :
      (env : Env) (ids : NewIds) (ticket : String) (acc : Accounts) (s : kv.State)
      → Everyone acc
      → Everyone
          (log_in_steam kv out.sign cfg.one cfg.cairn out.hash out.steam env ids ticket acc s).1.0
  unfolding log_in_steam
  log_in_steam-Everyone env ids ticket acc s h =
      elim (Result-cases (authenticate_ticket out.steam ticket)) [
        | inl (id, e) ↦ rw (e, log_in_steam) (log_in-Everyone unavailable true env ids id acc s h)
        | inr (x, e) ↦
            let same : (log_in_steam kv out.sign cfg.one cfg.cairn out.hash out.steam env ids ticket
                  acc s).1.0
                ≡ acc =
              ground (arith, e) in
            rw same h
      ]

  pub auth_steam-Everyone :
      (env : Env) (ids : NewIds) (ticket : Option String) (acc : Accounts) (s : kv.State)
      → Everyone acc
      → Everyone
          (auth_steam kv out.sign cfg.one cfg.cairn out.hash out.steam env ids ticket acc s).1.0
  unfolding auth_steam
  auth_steam-Everyone env ids none acc s h = h
  auth_steam-Everyone env ids (some ticket) acc s h =
      let (claimed, s₁) = claim_ticket kv env.now (out.hash ticket) s in
      let later = log_in_steam-Everyone env ids ticket acc s₁ h in
      let reply =
        (log_in_steam kv out.sign cfg.one cfg.cairn out.hash out.steam env ids ticket acc s₁).0 in
      elim (Reply-cases claimed) [
        | inr (inl e) ↦ rw (e, auth_steam) h
        | inr (inr e) ↦ rw (e, auth_steam) h
        | inl (false, e) ↦ rw (e, auth_steam) h
        | inl (true, e) ↦ elim (Bool-cases (is_logged_in reply)) [
          | inl won ↦ rw (e, won, auth_steam) later
          | inr lost ↦ rw (e, lost, auth_steam) later
        ]
      ]
