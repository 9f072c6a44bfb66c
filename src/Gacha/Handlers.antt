-- ===== src/Gacha/Handlers.antt =====
-- internal/gacha/gacha.go: the handlers `Status`, `Pull` and `Logs`, and the cooldown in the
-- key-value store. A reply stands for the status and the body of the response.
use stone_server.Prelude.{
  ℕ, ℤ, pos, negsuc, ◌-◌, Bool, true, false, Option, none, some, String, ltb, leb, if◌then◌else◌,
  Result, ok, err,
}
use stone_server.Tables.{
  PlayerRows, Env, Error, Statement, read_next, read_next_again, db_failed, kv_failed,
  cairn_incomplete, cairn_slot_not_found, cooldown_active, insufficient_points,
}
use stone_server.Kv
use stone_server.Kv.{Key, KvStore}
use stone_server.Cairn
use stone_server.Gacha.Pool.{SkinPool, Seed}
use stone_server.Gacha.Pull.{GameConfig, PullResponse, exec_pull}

-- time.RFC3339 texts.
pub record TimeText : Type 0 where
  pub parse_time : String → Option ℕ
  pub format_time : ℕ → String

abbrev pub cooldown_key : String → Key
cooldown_key player_id = record { format = "gacha:cooldown:"; name = player_id }

pub data PullReply : Type 0 where
  pulled : PullResponse → PullReply
  invalid_request invalid_slot : PullReply
  cooldown_reply : Option ℕ → PullReply
  insufficient_points_reply cairn_incomplete_reply cairn_slot_not_found_reply : PullReply
  internal_error : PullReply

abbrev pub status_code : PullReply → ℕ
status_code (pulled r) = 200
status_code invalid_request = 400
status_code invalid_slot = 400
status_code (cooldown_reply t) = 429
status_code insufficient_points_reply = 409
status_code cairn_incomplete_reply = 403
status_code cairn_slot_not_found_reply = 404
status_code internal_error = 500

pub data StatusReply : Type 0 where
  status : Bool → Option ℕ → StatusReply
  status_failed : StatusReply

-- nextAt != nil && time.Now().Before(*nextAt)
abbrev pub is_cooling : ℕ → Option ℕ → Bool
is_cooling now none = false
is_cooling now (some t) = ltb now t

unfoldable pub stored_next_gacha_at : Statement → Env → PlayerRows → Result Error (Option ℕ)
stored_next_gacha_at query env db =
    if env.fault query
    then err db_failed
    else elim db.state [ none ↦ ok none | some st ↦ ok st.next_gacha_at ]

module _ (kv : KvStore) (text : TimeText) (player_id : String) where
  -- The fallback to the database, which writes a running cooldown back to the store.
  unfoldable pub cache_next : ℕ → Option ℕ → kv.State → kv.State
  cache_next now none s = s
  cache_next now (some t) s =
      if ltb now t
      then (kv.set now (cooldown_key player_id) (text.format_time t) (t - now) s).1
      else s

  unfoldable pub next_from_db :
      Statement → Env → PlayerRows → kv.State → Result Error (Option ℕ) × kv.State
  unfolding cache_next stored_next_gacha_at
  next_from_db query env db s = elim (stored_next_gacha_at query env db) [
    | err e ↦ (err e, s)
    | ok next_at ↦ (ok next_at, cache_next env.now next_at s)
  ]

  unfoldable pub get_next_gacha_at :
      Statement → Env → PlayerRows → kv.State → Result Error (Option ℕ) × kv.State
  unfolding next_from_db
  get_next_gacha_at query env db s =
      let (reply, s') = kv.get env.now (cooldown_key player_id) s in
      elim reply [
        | Kv.ok val ↦ elim (text.parse_time val) [
          | some t ↦ (ok (some t), s')
          | none ↦ next_from_db query env db s'
        ]
        | Kv.not_found ↦ next_from_db query env db s'
        | Kv.failed ↦ (err kv_failed, s')
      ]

  unfoldable pub set_cooldown : GameConfig → ℕ → ℕ → kv.State → kv.State
  set_cooldown cfg now next_at s =
      (kv.set now (cooldown_key player_id) (text.format_time next_at) cfg.cooldown s).1

  unfoldable pub get_status : Env → PlayerRows → kv.State → StatusReply × kv.State
  unfolding get_next_gacha_at
  get_status env db s =
      let (next, s') = get_next_gacha_at read_next env db s in
      elim next [
        | err e ↦ (status_failed, s')
        | ok next_at ↦
            if is_cooling env.now next_at
            then (status false next_at, s')
            else (status true none, s')
      ]

  -- The reply to an error of `execPull`.
  unfoldable pub refuse_pull : Env → PlayerRows → Error → kv.State → PullReply × kv.State
  unfolding get_next_gacha_at
  refuse_pull env db cooldown_active s =
      let (next, s') = get_next_gacha_at read_next_again env db s in
      elim next [ err e ↦ (cooldown_reply none, s') | ok next_at ↦ (cooldown_reply next_at, s') ]
  refuse_pull env db insufficient_points s = (insufficient_points_reply, s)
  refuse_pull env db cairn_incomplete s = (cairn_incomplete_reply, s)
  refuse_pull env db cairn_slot_not_found s = (cairn_slot_not_found_reply, s)
  refuse_pull env db e s = (internal_error, s)

  module _ (cfg : GameConfig) (cairn : Cairn.Config) (pool : SkinPool) (seed : ℕ → ℕ)
      (random : Option Seed) where
    -- What follows the check of the request.
    unfoldable pub pull_slot : Env → ℕ → PlayerRows → kv.State → PullReply × PlayerRows × kv.State
    unfolding get_next_gacha_at set_cooldown refuse_pull
    pull_slot env slot_index db s =
        let (next, s') = get_next_gacha_at read_next env db s in
        elim next [
          | err e ↦ (internal_error, db, s')
          | ok next_at ↦
              if is_cooling env.now next_at
              then (cooldown_reply next_at, db, s')
              else elim (exec_pull cfg cairn pool seed random env slot_index db) [
                | ok (res, db') ↦ (pulled res, db', set_cooldown cfg env.now res.next_gacha_at s')
                | err e ↦ let (reply, s'') = refuse_pull env db e s' in (reply, db, s'')
              ]
        ]

    -- `none` is a body without a slot_index.
    unfoldable pub pull : Env → Option ℤ → PlayerRows → kv.State → PullReply × PlayerRows × kv.State
    unfolding pull_slot
    pull env none db s = (invalid_request, db, s)
    pull env (some (negsuc n)) db s = (invalid_slot, db, s)
    pull env (some (pos i)) db s =
        if leb cairn.slot_count i then (invalid_slot, db, s) else pull_slot env i db s
