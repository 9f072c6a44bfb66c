-- ===== src/Middleware.antt =====
-- internal/middleware/recovery.go and logging.go: the two middlewares before every handler.
--
-- A handler returns or panics, with a writer that it may have begun to write to. The lines that the
-- middlewares log stand for the events of the logger, less the stack and the latency.
use mathlib.Core.List.{Memᴰ}
use stone_server.Prelude.{
  ◌≤◌, ℕ, ◌≡◌, ◌⊎◌, Bool, true, false, ◌||◌, Option, none, some, List, [], ◌∷◌, String, str_eq, leb,
  if◌then◌else◌,
}

-- gin's writer: the status, the code of the body, and whether any of it has been sent.
pub record Writer : Type 0 where
  pub status : ℕ
  pub code : String
  pub written : Bool

-- The errors that an error is, along its chain.
pub data Sentinel : Type 0 where
  epipe econnreset abort_handler other_error : Sentinel

-- What a panic carries: an error with its chain, or any other value.
pub data PanicValue : Type 0 where
  an_error : List Sentinel → PanicValue
  a_value : String → PanicValue

pub data Outcome : Type 0 where
  returned : Writer → Outcome
  panicked : PanicValue → Writer → Outcome

pub data Level : Type 0 where
  debug info warn error : Level

abbrev pub is_dead_connection : Sentinel → Bool
is_dead_connection epipe = true
is_dead_connection econnreset = true
is_dead_connection abort_handler = true
is_dead_connection other_error = false

unfoldable pub any_dead : List Sentinel → Bool
any_dead [] = false
any_dead (e ∷ chain) = is_dead_connection e || any_dead chain

unfoldable pub is_broken_pipe : PanicValue → Bool
unfolding any_dead
is_broken_pipe (an_error chain) = any_dead chain
is_broken_pipe (a_value v) = false

-- AbortWithStatusJSON(500, ...)
abbrev pub internal_error : Writer
internal_error = record { status = 500; code = "INTERNAL_ERROR"; written = true }

-- The writer that is left, and the level of the line that is logged, if one is.
unfoldable pub recovery : Outcome → Writer × Option Level
unfolding is_broken_pipe
recovery (returned w) = (w, none)
recovery (panicked v w) =
    if is_broken_pipe v
    then (w, some debug)
    else if w.written
    then (w, some error)
    else (internal_error, some error)

unfoldable pub level_of : ℕ → Level
level_of status = if leb 500 status then error else if leb 400 status then warn else info

-- What the context of gin holds after the handlers.
pub record Context : Type 0 where
  pub player_id : Option String
  pub reject_code : String

pub record RequestLine : Type 0 where
  pub level : Level
  pub request_id : String
  pub method : String
  pub path : String
  pub status : ℕ
  pub player_id : Option String
  pub reject_code : Option String

abbrev pub non_empty : String → Option String
non_empty s = if str_eq s "" then none else some s

unfoldable pub request_line : String → String → String → Context → Writer → RequestLine
unfolding level_of
request_line request_id method path c w = record {
  level = level_of w.status;
  request_id = request_id;
  method = method;
  path = path;
  status = w.status;
  player_id = elim c.player_id [ none ↦ none | some id ↦ non_empty id ];
  reject_code = non_empty c.reject_code;
}

-- RequestLogger before Recovery: the panic line, if there is one, and then the request line.
unfoldable pub logged :
    String → String → String → Context → Outcome → Writer × List Level × RequestLine
unfolding recovery request_line
logged request_id method path c outcome =
    let (w, line) = recovery outcome in
    (w, elim line [ none ↦ [] | some l ↦ l ∷ [] ], request_line request_id method path c w)

-- The client is gone, or the handler gave up: one of the three errors is in the chain.
abbrev pub IsDisconnect : PanicValue → Type 0
IsDisconnect v =
    (chain : List Sentinel) × (v ≡ an_error chain)
    × (Memᴰ epipe chain ⊎ (Memᴰ econnreset chain ⊎ Memᴰ abort_handler chain))

-- A line at error level is logged.
abbrev pub IsAlarmed : List Level → RequestLine → Type 0
IsAlarmed lines line = Memᴰ error lines ⊎ (line.level ≡ error)

-- A response of the server's fault, or a panic that is no disconnect.
abbrev pub IsFault : Outcome → Writer → Type 0
IsFault outcome w =
    (500 ≤ w.status)
    ⊎ ((v : PanicValue) × (w' : Writer) × (outcome ≡ panicked v w') × (IsDisconnect v → ⊥))

module _ (request_id method path : String) (c : Context) where
  abbrev line_of : Writer → RequestLine
  line_of w = request_line request_id method path c w
