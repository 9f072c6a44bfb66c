-- ===== src/Auth/Steam.antt =====
-- internal/auth/steam.go: what Steam answers to a ticket, and who may log in with it.
use stone_server.Prelude.{
  Bool, not, ◌||◌, Option, none, some, String, str_eq, if◌then◌else◌, Result, ok, err,
}

pub record TicketParams : Type 0 where
  pub outcome : String
  pub steam_id : String
  pub owner_steam_id : String
  pub vac_banned : Bool
  pub publisher_banned : Bool

-- The first three wrap `ErrInvalidTicket`; the last is a call that fails.
pub data TicketError : Type 0 where
  invalid_ticket account_banned ticket_not_owned steam_failed : TicketError

unfoldable pub validate_ticket_params : Option TicketParams → Result TicketError String
validate_ticket_params none = err invalid_ticket
validate_ticket_params (some p) =
    if not (str_eq p.outcome "OK")
    then err invalid_ticket
    else if p.vac_banned || p.publisher_banned
    then err account_banned
    else if str_eq p.owner_steam_id "" || not (str_eq p.owner_steam_id p.steam_id)
    then err ticket_not_owned
    else ok p.steam_id

-- `answer` is the decoded answer of Steam to a ticket, if the call does not fail.
abbrev pub Steam : Type 0
Steam = String → Option (Option TicketParams)

unfoldable pub authenticate_ticket : Steam → String → Result TicketError String
unfolding validate_ticket_params
authenticate_ticket answer ticket = elim (answer ticket) [
  | none ↦ err steam_failed
  | some params ↦ validate_ticket_params params
]
