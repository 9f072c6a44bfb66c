-- ===== src/Achievement/Steam.antt =====
-- internal/achievement/steam.go: the client of Steam, which is the `set_achievement` of an
-- environment, and what it makes of an unlock.
use Prim.Native.String.{◌++◌ as ◌+++◌}
use stone_server.Prelude.{
  ℕ, ◌≡◌, ◌↔◌, ◌⊎◌, inl, inr, true, false, Option, none, some, List, [], ◌∷◌, ◌++◌, String, str_eq,
  eq_iff, ◌==◌, if◌then◌else◌, Result, ok, err, arith, Result-cases,
}
use stone_server.Kv.{KvStore}
use stone_server.Achievement.{Database, Env, mark_synced}
use stone_server.Achievement.Unlock.{
  UnlockResponse, unlocked, find_unlocked, sync_steam, insert_unlock, check_unlock, unlock,
  find_steam_id, new_unlocked,
}
use stone_server.Achievement.Unlock.Rows.{check_unlock-err}

-- net/http: the error of building a POST of a form, and its status or the error of sending it.
pub record HttpClient : Type 0 where
  pub build : String → List (String × String) → Option String
  pub send : String → List (String × String) → Result String ℕ
  pub status_text : ℕ → String

abbrev pub steam_url : String
steam_url = "https://partner.steam-api.com/ISteamUserStats/SetUserStatsForGame/v1/"

abbrev pub form : String → String → String → String → List (String × String)
form api_key app_id steam_id id =
    ("key", api_key)
    ∷ ("steamid", steam_id)
    ∷ ("appid", app_id)
    ∷ ("count", "1")
    ∷ ("name[0]", id)
    ∷ ("value[0]", "1")
    ∷ []

unfoldable pub set_achievement : HttpClient → String → String → String → String → Option String
set_achievement http api_key app_id steam_id id =
    let params = form api_key app_id steam_id id in
    elim (http.build steam_url params) [
      | some e ↦ some ("build steam achievement request: " +++ e)
      | none ↦ elim (http.send steam_url params) [
        | err e ↦ some ("steam achievement api: " +++ e)
        | ok status ↦
            if status == 200
            then none
            else some ("steam achievement api: status " +++ http.status_text status)
      ]
    ]

abbrev pub mock_set_achievement : String → String → Option String
mock_set_achievement steam_id id = none

unfoldable pub steam_client_for_env :
    HttpClient → String → String → String → String → String → Option String
unfolding set_achievement
steam_client_for_env http app_env api_key app_id =
    if str_eq app_env "development"
    then mock_set_achievement
    else set_achievement http api_key app_id

-- Steam is not asked on a development server, and elsewhere the form was sent and answered with 200.
abbrev pub Answered : HttpClient → String → String → String → String → String → Type 0
Answered http app_env api_key app_id steam_id id =
    (app_env ≡ "development")
    ⊎ ((http.build steam_url (form api_key app_id steam_id id) ≡ none)
        × (http.send steam_url (form api_key app_id steam_id id) ≡ ok 200))

steam_client_for_env-Answered :
    (http : HttpClient) (app_env api_key app_id steam_id id : String)
    → (steam_client_for_env http app_env api_key app_id steam_id id ≡ none)
      ↔ Answered http app_env api_key app_id steam_id id
unfolding steam_client_for_env set_achievement
steam_client_for_env-Answered http app_env api_key app_id steam_id id =
    ground (arith, eq_iff app_env "development")

abbrev pub with_client : HttpClient → String → String → String → Env → Env
with_client http app_env api_key app_id env = record env {
  set_achievement = steam_client_for_env http app_env api_key app_id;
}

module _ (kv : KvStore) where
  sync_steam-none :
      (env : Env) (p id steam_id : String) (db : Database) (s : kv.State)
      → env.fault mark_synced ≡ false
      → ((sync_steam kv env p id steam_id db s).0 ≡ true) ↔ (env.set_achievement steam_id id ≡ none)
  unfolding sync_steam
  sync_steam-none env p id steam_id db s f = ground (arith, f)

  check_unlock-steam_id :
      (env : Env) (p id : String) (db : Database) {steam_id : String}
      → check_unlock env p id db ≡ ok steam_id
      → find_steam_id p db.steam_ids ≡ some steam_id
  unfolding check_unlock
  check_unlock-steam_id env p id db e = ground (arith, e)

  -- An achievement that was not unlocked before is reported as synced just when Steam has taken
  -- it: on a development server, which does not ask it, or where the form with the player's Steam
  -- id was sent and answered with 200. The UPDATE that records it does not fail.
  pub unlock-Answered :
      (http : HttpClient) (app_env api_key app_id : String) (env : Env) (p id : String)
      (db : Database) (s : kv.State) {resp : UnlockResponse}
      → find_unlocked p id db.achievements ≡ none
      → (unlock kv (with_client http app_env api_key app_id env) p (some id) db s).0 ≡ unlocked resp
      → env.fault mark_synced ≡ false
      → (steam_id : String) × (find_steam_id p db.steam_ids ≡ some steam_id)
        × ((resp.steam_synced ≡ true) ↔ Answered http app_env api_key app_id steam_id id)
  unfolding unlock insert_unlock
  unlock-Answered http app_env api_key app_id env p id db s {resp} q e f =
      let env' = with_client http app_env api_key app_id env in
      elim (Result-cases (check_unlock env' p id db)) [
        | inr (reply, c) ↦
            absurd (check_unlock-err kv env' p id db {resp = resp} q (ground (arith, c, e)))
        | inl (steam_id, c) ↦
            let row = new_unlocked env.now p id in
            let db' = record db { achievements = db.achievements ++ row ∷ [] } in
            (
              steam_id,
              check_unlock-steam_id env' p id db c,
              ground (
                arith,
                c,
                q,
                e,
                sync_steam-none env' p id steam_id db' s f,
                steam_client_for_env-Answered http app_env api_key app_id steam_id id,
              ),
            )
      ]
