-- ===== src/Examples/AuthRuns.antt =====
-- The theorems on logging in, on refreshing and on the tokens of requests, for one player.

use stone_server.Prelude.{
  ℕ, ◌+◌, ◌-◌, ◌≡◌, ◌≢◌, refl, false, Option, some, [], ◌∷◌, String, str_eq, eq_iff, arith, leb,
  inl, inr,
}
use stone_server.Kv.{key_eq, is_some}
use stone_server.Kv.Memory.{Entry, MemStore, value_at}
use stone_server.Session.{
  session_key, current_key, refresh_key, refresh_lookup_key, ticket_key, enforce_single_session,
}
use stone_server.Achievement.Conditions.{check_streak_days}
use stone_server.Auth.{Claims, Accounts, NewIds}
use stone_server.Auth.Steam.{TicketParams}
use stone_server.Auth.Login.{auth_steam, is_logged_in}
use stone_server.Auth.Login.Laws.{ClocksAfter, auth_steam-clocks}
use stone_server.Auth.Login.Ticket.{auth_steam-ticket}
use stone_server.Auth.Login.Streak.{streak_logins, last_day, check_streak_days-logins}
use stone_server.Auth.Logout.{auth_logout, auth_logout-revoked}
use stone_server.Auth.Refresh.{refreshed, invalid_refresh_token, auth_refresh}
use stone_server.Auth.Refresh.Laws.{auth_refresh-replayed}
use stone_server.Auth.Refresh.Rotation.{Refreshable, response, auth_refresh-Refreshable}
use stone_server.Auth.Bearer.{
  bearer, session_revoked, next, jwt_auth, jwt_auth-enforce_single_session,
}
use stone_server.Cairn.Frame.{purse_of}
use stone_server.Examples.Sample.{cairn, env_at, state, rows}
use stone_server.Examples.Tally.{tally_kv, tally_laws}

abbrev sign : String → String → Option String
sign player_id jti = some jti

abbrev ids : NewIds
ids = record { player_id = "q"; jti = "new"; refresh_token = "r2" }

abbrev later_ids : NewIds
later_ids = record { player_id = "q"; jti = "newer"; refresh_token = "r3" }

abbrev accounts : Accounts
accounts = record { players = ("p", "76") ∷ []; rows = λ _. rows }

abbrev steam : String → Option (Option TicketParams)
steam ticket = some (
    some (record {
      outcome = "OK";
      steam_id = "76";
      owner_steam_id = "76";
      vac_banned = false;
      publisher_banned = false;
    }))

abbrev hash : String → String
hash ticket = ticket

abbrev entry : String → ℕ → Entry
entry v t = record { val = v; expires_at = some t }

-- The player has a session and a refresh token.
abbrev store : MemStore
store = record {
  kv =
      (current_key "p", entry "old" 500)
      ∷ (session_key "old", entry "1" 500)
      ∷ (refresh_key "p", entry "r1" 900)
      ∷ (refresh_lookup_key "r1", entry "p" 900)
      ∷ [];
  lists = [];
}

distinct : (a b : String) → str_eq a b ≡ false → a ≢ b
distinct a b h e = ground (arith, h, eq_iff a b, e)

auth_steam-clocks_example :
    ClocksAfter 160
      (auth_steam tally_kv sign 1 cairn hash steam (env_at 160) ids (some "t") accounts store).0
      (purse_of state, some 100)
      ((auth_steam tally_kv sign 1 cairn hash steam
          (env_at 160)
          ids
          (some "t")
          accounts
          store).1.0.rows
        "p")
auth_steam-clocks_example =
    auth_steam-clocks tally_kv sign 1 cairn hash steam (env_at 160) ids (some "t") "p" accounts
      store (purse_of state, some 100) refl

auth_steam-ticket_example :
    is_some (
      tally_kv.value_at
        (auth_steam tally_kv sign 1 cairn hash steam (env_at 160) ids (some "t") accounts store).1.1
        200
        (ticket_key "t"))
    ≡ is_logged_in
        (auth_steam tally_kv sign 1 cairn hash steam (env_at 160) ids (some "t") accounts store).0
unfolding value_at key_eq
auth_steam-ticket_example =
    auth_steam-ticket tally_kv tally_laws sign 1 cairn hash steam (env_at 160) ids "t" accounts
      store 200 (omega arith) (omega arith) refl

-- Two logins on the day after, and one two days after.
check_streak_days-logins_example :
    check_streak_days 7 (
      streak_logins
        (env_at 90000 ∷ env_at 91000 ∷ env_at 180000 ∷ [])
        (record rows { state = some (record state { last_login_date = some 0 }) }))
    ≡ leb 7 (1 + (last_day 0 (env_at 90000 ∷ env_at 91000 ∷ env_at 180000 ∷ []) - 0))
check_streak_days-logins_example =
    check_streak_days-logins (env_at 90000 ∷ env_at 91000 ∷ env_at 180000 ∷ [])
      (record state { last_login_date = some 0 }) 0 7
      (record rows { state = some (record state { last_login_date = some 0 }) }) refl refl
      (inr refl, refl, (inl refl, refl, (inr refl, refl, tt)))

refreshable : Refreshable tally_kv 200 "p" "r1" store
unfolding value_at key_eq
refreshable = record {
  looked_up = refl;
  is_stored = refl;
  not_refreshing = refl;
  not_cooling = refl;
  not_locked = refl;
}

auth_refresh-Refreshable_example :
    ((auth_refresh tally_kv sign 200 ids (some "r1") store).0 ≡ refreshed (response ids 200 "new"))
    × Refreshable tally_kv 300 "p" "r2" (auth_refresh tally_kv sign 200 ids (some "r1") store).1
auth_refresh-Refreshable_example =
    auth_refresh-Refreshable tally_kv tally_laws sign 200 300 ids "p" "r1" "new" store refreshable
      refl (distinct "r1" "r2" refl) (omega arith) (omega arith)

auth_refresh-replayed_example :
    (auth_refresh tally_kv sign 300 later_ids
      (some "r1")
      (auth_refresh tally_kv sign 200 ids (some "r1") store).1).0
    ≡ invalid_refresh_token
auth_refresh-replayed_example =
    auth_refresh-replayed tally_kv sign tally_laws 200 300 ids later_ids "r1" store
      (auth_refresh-Refreshable tally_kv tally_laws sign 200 300 ids "p" "r1" "new" store
        refreshable refl (distinct "r1" "r2" refl) (omega arith) (omega arith)).0
      (omega arith)

-- The tokens of this player, by their sessions.
abbrev read_claims : ℕ → String → Option Claims
read_claims now jti = some (record { player_id = "p"; jti = jti })

jwt_auth-enforce_single_session_example :
    ((jwt_auth read_claims tally_kv 250
        (bearer "old")
        (enforce_single_session tally_kv 200 "p" "new" store).1).0
      ≡ session_revoked)
    × ((jwt_auth read_claims tally_kv 250
          (bearer "new")
          (enforce_single_session tally_kv 200 "p" "new" store).1).0
        ≡ next (record { player_id = "p"; jti = "new" }))
unfolding value_at key_eq
jwt_auth-enforce_single_session_example =
    jwt_auth-enforce_single_session read_claims tally_kv tally_laws 200 250 "p" "new" "old" "old"
      "new" store (omega arith) (omega arith) refl refl (distinct "old" "" refl)
      (distinct "old" "new" refl) (distinct "old" "" refl) (distinct "new" "" refl) refl refl

auth_logout-revoked_example :
    ((jwt_auth read_claims tally_kv 250
        (bearer "old")
        (auth_logout tally_kv 200 (record { player_id = "p"; jti = "old" }) store).1).0
      ≡ session_revoked)
    × ((auth_refresh tally_kv sign 250 ids
          (some "r1")
          (auth_logout tally_kv 200 (record { player_id = "p"; jti = "old" }) store).1).0
        ≢ refreshed (response ids 250 "new"))
unfolding value_at key_eq
auth_logout-revoked_example =
    auth_logout-revoked tally_kv tally_laws sign read_claims 200 250 ids
      (record { player_id = "p"; jti = "old" }) "old" "r1" store (response ids 250 "new")
      (omega arith) refl refl (distinct "old" "" refl) refl
