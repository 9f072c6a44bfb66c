-- ===== src/Health.antt =====
-- internal/health/handler.go. `db_up` and `cache_up` are what the pings of the database and of the
-- store return within the timeout.
use stone_server.Prelude.{
  ℕ, ◌≡◌, refl, Bool, true, false, ◌||◌, List, [], ◌∷◌, String, str_eq, if◌then◌else◌,
}

pub record Health : Type 0 where
  pub http_status : ℕ
  pub status : String
  pub db : String
  pub cache : String

pub record Statuses : Type 0 where
  pub db_status : String
  pub cache_status : String

-- The two goroutines, which the mutex orders one way or the other.
pub data Check : Type 0 where
  check_db check_cache : Check

abbrev pub checked : Bool → Bool → Check → Statuses → Statuses
checked db_up cache_up check_db s = if db_up then s else record s { db_status = "error" }
checked db_up cache_up check_cache s = if cache_up then s else record s { cache_status = "error" }

unfoldable pub run_checks : Bool → Bool → List Check → Statuses → Statuses
run_checks db_up cache_up [] s = s
run_checks db_up cache_up (k ∷ ks) s = run_checks db_up cache_up ks (checked db_up cache_up k s)

unfoldable pub health : Bool → Bool → List Check → Health
unfolding run_checks
health db_up cache_up order =
    let s = run_checks db_up cache_up order (record { db_status = "ok"; cache_status = "ok" }) in
    let degraded = str_eq s.db_status "error" || str_eq s.cache_status "error" in
    record {
      http_status = if degraded then 503 else 200;
      status = if degraded then "degraded" else "ok";
      db = s.db_status;
      cache = s.cache_status;
    }

-- The health does not depend on which check ends first.
pub health_order :
    (db_up cache_up : Bool)
    → health db_up cache_up (check_db ∷ check_cache ∷ [])
      ≡ health db_up cache_up (check_cache ∷ check_db ∷ [])
unfolding health
health_order true true = refl
health_order true false = refl
health_order false true = refl
health_order false false = refl
