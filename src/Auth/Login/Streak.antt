-- ===== src/Auth/Login/Streak.antt =====
-- `updateLoginStreak` over the logins of many days.
use stone_server.Prelude.{
  ℕ, ◌+◌, ◌-◌, ◌≤◌, ◌≡◌, refl, false, some, List, [], ◌∷◌, ◌⊎◌, inl, inr, leb, arith,
}
use stone_server.Tables.{PlayerState, PlayerRows, Env, update_streak}
use stone_server.Achievement.Conditions.{check_streak_days}
use stone_server.Auth.Account.{day_of, streaked, update_login_streak}

-- One login after another.
abbrev pub streak_logins : List Env → PlayerRows → PlayerRows
streak_logins [] db = db
streak_logins (env ∷ envs) db = streak_logins envs (update_login_streak env db).0

-- The day of the last login.
abbrev pub last_day : ℕ → List Env → ℕ
last_day day [] = day
last_day day (env ∷ envs) = last_day (day_of env.now) envs

-- The statement does not fail, and each login is on the day of the one before or on the next day.
abbrev pub IsDaily : ℕ → List Env → Type 0
IsDaily day [] = Unit
IsDaily day (env ∷ envs) =
    ((day_of env.now ≡ day) ⊎ (day_of env.now ≡ day + 1))
    × (env.fault update_streak ≡ false)
    × IsDaily (day_of env.now) envs

last_day-le : (day : ℕ) (envs : List Env) → IsDaily day envs → day ≤ last_day day envs
last_day-le day [] h = omega arith
last_day-le day (env ∷ envs) (step, f, h) = elim step [
  | inl e ↦ omega (arith, e, last_day-le (day_of env.now) envs h)
  | inr e ↦ omega (arith, e, last_day-le (day_of env.now) envs h)
]

login_state :
    (env : Env) (st : PlayerState) (day : ℕ) (db : PlayerRows)
    → db.state ≡ some st
    → st.last_login_date ≡ some day
    → (day_of env.now ≡ day) ⊎ (day_of env.now ≡ day + 1)
    → env.fault update_streak ≡ false
    → ((update_login_streak env db).0.state ≡ some (streaked env.now st))
      × ((streaked env.now st).streak_days ≡ st.streak_days + (day_of env.now - day))
unfolding update_login_streak
login_state env st day db h l (inl e) f = (ground (arith, f, h), ground (arith, l, e))
login_state env st day db h l (inr e) f = (ground (arith, f, h), ground (arith, l, e))

streak_logins-state :
    (envs : List Env) (st : PlayerState) (day : ℕ) (db : PlayerRows)
    → db.state ≡ some st
    → st.last_login_date ≡ some day
    → IsDaily day envs
    → (st' : PlayerState) × ((streak_logins envs db).state ≡ some st')
      × (st'.streak_days ≡ st.streak_days + (last_day day envs - day))
streak_logins-state [] st day db h l d = (st, h, omega arith)
streak_logins-state (env ∷ envs) st day db h l (step, f, d) =
    let (now, grew) = login_state env st day db h l step f in
    let after = (update_login_streak env db).0 in
    let today = day_of env.now in
    let (st', e, sum) = streak_logins-state envs (streaked env.now st) today after now refl d in
    let le = last_day-le today envs d in
    let passed : day ≤ today = elim step [ inl e ↦ omega (arith, e) | inr e ↦ omega (arith, e) ] in
    (st', e, omega (arith, sum, grew, le, passed))

-- Logins that leave out no day, however many there are on a day, make the streak longer by the
-- days that have passed: the condition of a streak of so many days is met just when they and the
-- streak from before reach it. The UPDATEs do not fail, and the player has logged in before.
pub check_streak_days-logins :
    (envs : List Env) (st : PlayerState) (day threshold : ℕ) (db : PlayerRows)
    → db.state ≡ some st
    → st.last_login_date ≡ some day
    → IsDaily day envs
    → check_streak_days threshold (streak_logins envs db)
      ≡ leb threshold (st.streak_days + (last_day day envs - day))
unfolding check_streak_days
check_streak_days-logins envs st day threshold db h l d =
    let (st', e, sum) = streak_logins-state envs st day db h l d in ground (arith, e, sum)
