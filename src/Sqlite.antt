-- ===== src/Sqlite.antt =====
-- pkg/sqlitedb/sqlitedb.go: `New`, which opens a file of any earlier version and brings its tables
-- up to date. SQLite is a `Driver`: a command returns the text of its error, if it fails.
pub mod Upgrade
pub mod Reopen
use stone_server.Prelude.{
  ℕ, Bool, true, false, not, ◌&&◌, ◌||◌, Option, none, some, List, [], ◌∷◌, ◌++◌, String, str_eq,
  if◌then◌else◌, Result, ok, err, ◌>>=◌, ◌>>◌, refuse_if, ◌==◌,
}

-- ALTER TABLE table ADD COLUMN column, or DROP COLUMN column
pub data Alter : Type 0 where
  add_column drop_column : String → String → Alter

-- `anchor_syncs` is the UPDATE of last_sync_at, and the two last are the INSERT and the DELETE of
-- `backfillCairnSlots`.
pub data Command : Type 0 where
  pragma : String → Command
  ping schema anchor_syncs : Command
  alter : Alter → Command
  add_slots : ℕ → ℕ → Command
  drop_slots : ℕ → Command

pub record Driver : Type 1 where
  pub State : Type 0
  pub open_file : String → Option State
  pub exec : Command → State → Option String × State
  pub contains : String → String → Bool
  pub has_column : State → String → String → Bool

-- The error of a step, with the text of the driver's.
pub data OpenError : Type 0 where
  open_failed : OpenError
  no_slot_count : ℕ → OpenError
  failed : Command → String → OpenError

abbrev pub pragmas : List String
pragmas = "PRAGMA journal_mode=WAL" ∷ "PRAGMA foreign_keys=ON" ∷ "PRAGMA busy_timeout=5000" ∷ []

abbrev pub balance_columns : String → List Alter
balance_columns table =
    add_column table "balance_before"
    ∷ add_column table "balance_after"
    ∷ add_column table "accrued_pts"
    ∷ []

-- The columns that are added, in the order of the statements.
abbrev pub additions : List Alter
additions =
    add_column "inventories" "count"
    ∷ add_column "inventories" "item_type"
    ∷ add_column "inventories" "source_type"
    ∷ add_column "player_states" "enlightenment_rate"
    ∷ add_column "player_states" "last_sync_at"
    ∷ (balance_columns "gacha_logs"
        ++ (balance_columns "vow_logs"
            ++ (add_column "wish_cairn_slots" "layer_count"
                ∷ add_column "player_states" "cairn_last_growth_at"
                ∷ [])))

-- The statements that mirror the migrations, in the order in which they are sent.
abbrev pub alters : List Alter
alters = drop_column "player_states" "pity_count" ∷ additions

-- The error that says that there is nothing to do.
abbrev pub tolerated : Alter → String
tolerated (add_column t c) = "duplicate column name"
tolerated (drop_column t c) = "no such column"

module _ (d : Driver) where
  -- if _, err := db.ExecContext(ctx, ...); err != nil { db.Close(); return nil, err }
  unfoldable pub run : Command → d.State → Result OpenError d.State
  run cmd s =
      let (reply, s') = d.exec cmd s in
      elim reply [ none ↦ ok s' | some text ↦ err (failed cmd text) ]

  unfoldable pub run_pragmas : List String → d.State → Result OpenError d.State
  unfolding run
  run_pragmas [] s = ok s
  run_pragmas (p ∷ ps) s = do s' ← run (pragma p) s; run_pragmas ps s'

  -- One error of an ALTER is swallowed.
  unfoldable pub run_alter : Alter → d.State → Result OpenError d.State
  run_alter a s =
      let (reply, s') = d.exec (alter a) s in
      elim reply [
        | none ↦ ok s'
        | some text ↦ if d.contains text (tolerated a) then ok s' else err (failed (alter a) text)
      ]

  unfoldable pub run_alters : List Alter → d.State → Result OpenError d.State
  unfolding run_alter
  run_alters [] s = ok s
  run_alters (a ∷ as') s = do s' ← run_alter a s; run_alters as' s'

  -- `backfillCairnSlots`, which refuses a count that is not positive.
  unfoldable pub backfill : ℕ → ℕ → d.State → Result OpenError d.State
  unfolding run
  backfill slot_count phase_offset s = do
    refuse_if (slot_count == 0) (no_slot_count slot_count)
    s' ← run (add_slots slot_count phase_offset) s
    run (drop_slots slot_count) s'

  -- What `New` sends to a file that is open.
  unfoldable pub set_up : ℕ → ℕ → d.State → Result OpenError d.State
  unfolding run_pragmas run run_alters backfill
  set_up slot_count phase_offset s = do
    s₁ ← run_pragmas pragmas s
    s₂ ← run ping s₁
    s₃ ← run schema s₂
    s₄ ← run_alters alters s₃
    s₅ ← run anchor_syncs s₄
    backfill slot_count phase_offset s₅

  unfoldable pub new : String → ℕ → ℕ → Result OpenError d.State
  unfolding set_up
  new path slot_count phase_offset = elim (d.open_file path) [
    | none ↦ err open_failed
    | some s ↦ set_up slot_count phase_offset s
  ]
