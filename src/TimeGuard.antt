-- ===== src/TimeGuard.antt =====
-- internal/timeguard/timeguard.go: the drift of a client's clock, in nanoseconds. `convert` is
-- time.Duration(x) of a float64: exact as far as float64 has every integer, and left to the
-- machine beyond the int64.
use stone_server.Prelude.{
  ℕ, ℤ, pos, negsuc, suc, ◌+◌, ◌-◌, ◌*◌, ◌/◌, ◌^◌, ◌≤◌, ◌≡◌, refl, min, Bool, false, Option, none,
  some, ltb, leb, ◌==◌, if◌then◌else◌, arith,
}

abbrev pub second : ℕ
second = 1000000000

abbrev pub drift_warning_threshold : ℕ
drift_warning_threshold = 300 * second

pub record SyncResponse : Type 0 where
  pub server_time : ℕ
  pub drift_seconds : ℤ
  pub warning : Bool

pub data SyncReply : Type 0 where
  synced : SyncResponse → SyncReply
  invalid_request : SyncReply

-- The absolute value of server.Sub(client), which stops at the ends of the int64.
unfoldable pub magnitude : ℕ → ℕ → ℕ
magnitude server client =
    if leb client server then min (server - client) (2 ^ 63 - 1) else min (client - server) (2 ^ 63)

-- int64(drift.Seconds())
abbrev pub seconds_of : ℤ → ℤ
seconds_of (pos n) = pos (n / second)
seconds_of (negsuc n) = let q = suc n / second in if q == 0 then pos 0 else negsuc (q - 1)

abbrev pub exceeds : ℤ → Bool
exceeds (pos n) = ltb drift_warning_threshold n
exceeds (negsuc n) = false

-- `none` is a body that does not bind.
unfoldable pub sync_time : (ℕ → ℤ) → ℕ → Option ℕ → SyncReply
unfolding magnitude
sync_time convert server none = invalid_request
sync_time convert server (some client) =
    let drift = convert (magnitude server client) in
    synced
      (record { server_time = server; drift_seconds = seconds_of drift; warning = exceeds drift })

-- How far apart two instants are.
abbrev pub distance : ℕ → ℕ → ℕ
distance a b = (a - b) + (b - a)

magnitude-distance :
    (server client : ℕ)
    → distance server client ≤ 2 ^ 53
    → magnitude server client ≡ distance server client
unfolding magnitude
magnitude-distance server client h = ground (arith, h)

-- A clock that is at most 2^53 nanoseconds off, ahead or behind, gets the drift in whole seconds,
-- and the warning just when it is more than 300 seconds off. The conversion is exact up to there.
pub sync_time_lem :
    (convert : ℕ → ℤ) (server client : ℕ)
    → ((n : ℕ) → n ≤ 2 ^ 53 → convert n ≡ pos n)
    → distance server client ≤ 2 ^ 53
    → sync_time convert server (some client)
      ≡ synced (record {
        server_time = server;
        drift_seconds = pos (distance server client / second);
        warning = ltb drift_warning_threshold (distance server client);
      })
unfolding sync_time
sync_time_lem convert server client exact h =
    let same = magnitude-distance server client h in
    rw (same, exact (distance server client) h) refl
