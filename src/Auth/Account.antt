-- ===== src/Auth/Account.antt =====
-- internal/auth/handler.go: the steps of a login on the tables. Steps that are no transaction leave
-- what they have done when a later one fails.
use stone_server.Prelude.{
  ℕ, ◌+◌, ◌/◌, Bool, Option, none, some, List, [], ◌∷◌, ◌++◌, String, str_eq, ◌==◌, if◌then◌else◌,
  Result, ok, err,
}
use stone_server.Tables.{
  PlayerState, PlayerRows, Env, Error, db_failed, upsert, insert_state, update_streak, reset_anchor,
  with_state,
}
use stone_server.Cairn
use stone_server.Cairn.{initialize_slots, set_state}
use stone_server.Auth.{Accounts, with_rows}

unfoldable pub find_player : String → List (String × String) → Option String
find_player steam_id [] = none
find_player steam_id ((id, steam) ∷ players) =
    if str_eq steam steam_id then some id else find_player steam_id players

-- INSERT ... ON CONFLICT (steam_id) DO UPDATE ... RETURNING id
unfoldable pub upsert_player : Env → String → String → Accounts → Accounts × Result Error String
unfolding find_player
upsert_player env fresh steam_id acc =
    if env.fault upsert then (acc, err db_failed) else elim (find_player steam_id acc.players) [
      | some id ↦ (acc, ok id)
      | none ↦ (record acc { players = acc.players ++ (fresh, steam_id) ∷ [] }, ok fresh)
    ]

-- The defaults of the columns; `one` is the number of units of a point.
abbrev pub new_state : ℕ → ℕ → PlayerState
new_state one now = record {
  enlightenment_pts = 0;
  time_stone_count = 0;
  streak_days = 0;
  last_login_date = none;
  next_gacha_at = none;
  enlightenment_rate = one;
  last_sync_at = some now;
  cairn_last_growth_at = none;
  updated_at = now;
}

-- ON CONFLICT (player_id) DO NOTHING
abbrev pub state_or_new : ℕ → ℕ → PlayerRows → PlayerRows
state_or_new one now db = elim db.state [ none ↦ with_state (new_state one now) db | some st ↦ db ]

unfoldable pub init_player_state :
    ℕ → Cairn.Config → Env → PlayerRows → PlayerRows × Result Error (Unit {0})
unfolding initialize_slots
init_player_state one c env db =
    let db' = state_or_new one env.now db in
    let (rows, done) = initialize_slots c env db'.slots in
    if env.fault insert_state then (db, err db_failed) else (record db' { slots = rows }, done)

-- date('now')
abbrev pub day_of : ℕ → ℕ
day_of now = now / 86400

abbrev pub next_streak : ℕ → PlayerState → ℕ
next_streak today st = elim st.last_login_date [
  | none ↦ 1
  | some day ↦
      if day == today then st.streak_days else if day + 1 == today then st.streak_days + 1 else 1
]

abbrev pub streaked : ℕ → PlayerState → PlayerState
streaked now st = record st {
  streak_days = next_streak (day_of now) st;
  last_login_date = some (day_of now);
  updated_at = now;
}

unfoldable pub update_login_streak : Env → PlayerRows → PlayerRows × Result Error (Unit {0})
update_login_streak env db =
    if env.fault update_streak
    then (db, err db_failed)
    else (set_state (streaked env.now) db, ok tt)

abbrev pub anchored : ℕ → PlayerState → PlayerState
anchored now st = record st {
  last_sync_at = some now;
  cairn_last_growth_at = some now;
  updated_at = now;
}

unfoldable pub reset_accrual_anchor : Env → PlayerRows → PlayerRows × Result Error (Unit {0})
reset_accrual_anchor env db =
    if env.fault reset_anchor then (db, err db_failed) else (set_state (anchored env.now) db, ok tt)

-- The steps on the database before the session; `streak` is whether the login counts for the
-- streak. The id of the player.
unfoldable pub prepare_player :
    ℕ → Cairn.Config → Bool → Env → String → String → Accounts → Accounts × Result Error String
unfolding upsert_player init_player_state update_login_streak
prepare_player one c streak env fresh steam_id acc =
    let (acc₁, upserted) = upsert_player env fresh steam_id acc in
    elim upserted [
      | err e ↦ (acc₁, err e)
      | ok player_id ↦
          let (db, made) = init_player_state one c env (acc₁.rows player_id) in
          let (db', counted) = update_login_streak env db in
          elim made [
            | err e ↦ (with_rows player_id db acc₁, err e)
            | ok _ ↦
                if streak
                then elim counted [
                  | err e ↦ (with_rows player_id db' acc₁, err e)
                  | ok _ ↦ (with_rows player_id db' acc₁, ok player_id)
                ]
                else (with_rows player_id db acc₁, ok player_id)
          ]
    ]
