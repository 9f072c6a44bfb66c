-- ===== src/Auth.antt =====
-- internal/auth and internal/middleware/jwt.go: logging in, the rotation of refresh tokens, and
-- the check of the token of a request.
--
-- Not under this repository, and so parameters: `sign` is the JWT library with the private key, it
-- gives the text of a token for a player and a session; `read_claims` is its parser with the
-- public key, which knows the time; `hash` is SHA-256. New UUIDs are arguments.
pub mod Steam
pub mod Account
pub mod Login
pub mod Refresh
pub mod Bearer
pub mod Logout
use stone_server.Prelude.{ℕ, ◌+◌, Option, none, some, List, String, str_eq, if◌then◌else◌}
use stone_server.Tables.{PlayerRows}

abbrev pub jwt_expiry : ℕ
jwt_expiry = 86400

pub record Claims : Type 0 where
  pub player_id : String
  pub jti : String

pub record AuthResponse : Type 0 where
  pub jwt : String
  pub refresh_token : String
  pub expires_at : ℕ

abbrev pub Sign : Type 0
Sign = String → String → Option String

-- The token and its expiry, at the time of the request.
unfoldable pub new_token : Sign → ℕ → String → String → Option (String × ℕ)
new_token sign now player_id jti = elim (sign player_id jti) [
  | none ↦ none
  | some token ↦ some (token, now + jwt_expiry)
]

-- `players` are the columns `id` and `steam_id`; `rows` are the rows of each player.
pub record Accounts : Type 0 where
  pub players : List (String × String)
  pub rows : String → PlayerRows

abbrev pub with_rows : String → PlayerRows → Accounts → Accounts
with_rows player_id db acc = record acc {
  rows = λ q. if str_eq player_id q then db else acc.rows q;
}

-- The identifiers that a request makes up.
pub record NewIds : Type 0 where
  pub player_id : String
  pub jti : String
  pub refresh_token : String
