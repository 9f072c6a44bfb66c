-- ===== src/Examples/SessionRuns.antt =====
-- The theorems on sessions, in an in-memory store where one session is current.
use stone_server.Prelude.{ℕ, ◌≡◌, ◌≢◌, false, some, [], ◌∷◌, str_eq, eq_iff, arith, String}
use stone_server.Kv.Memory.{Entry, MemStore}
use stone_server.Session.{session_key, current_key, lock_key}

abbrev entry : String → ℕ → Entry
entry v t = record { val = v; expires_at = some t }

abbrev logged_in : MemStore
logged_in = record {
  kv = (current_key "p", entry "old" 500) ∷ (session_key "old", entry "1" 500) ∷ [];
  lists = [];
}

abbrev locked : MemStore
locked = record logged_in { kv = (lock_key "p", entry "1" 105) ∷ logged_in.kv }

distinct : (a b : String) → str_eq a b ≡ false → a ≢ b
distinct a b h e = ground (arith, h, eq_iff a b, e)
