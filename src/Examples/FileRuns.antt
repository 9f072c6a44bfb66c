-- ===== src/Examples/FileRuns.antt =====
-- The opening of a file of the first version, with a driver that keeps columns alone, and a request
-- that panics.
use stone_server.Prelude.{
  Bool, false, not, ◌&&◌, ◌||◌, Option, none, some, List, [], ◌∷◌, String, str_eq, if◌then◌else◌,
}
use stone_server.Sqlite.{Alter, add_column, drop_column, Command, alter, Driver, alters}
use stone_server.Sqlite.Upgrade.{is_column}
use stone_server.Middleware.{Writer, Context, Outcome, a_value, panicked}

-- A file as the columns that it has.
abbrev Columns : Type 0
Columns = String → String → Bool

abbrev exec_alter : Alter → Columns → Option String × Columns
exec_alter (add_column t c) s =
    if s t c
    then (some "duplicate column name", s)
    else (none, λ t' c'. is_column t c t' c' || s t' c')
exec_alter (drop_column t c) s =
    if s t c
    then (none, λ t' c'. not (is_column t c t' c') && s t' c')
    else (some "no such column", s)

abbrev exec : Command → Columns → Option String × Columns
exec (alter a) s = exec_alter a s
exec cmd s = (none, s)

-- The file of the first version has the column that was dropped, and none that was added.
abbrev first_version : Columns
first_version t c = is_column "player_states" "pity_count" t c

abbrev altered : List Alter → Columns → Columns
altered [] s = s
altered (a ∷ as') s = altered as' (exec_alter a s).1

abbrev upgraded : Columns
upgraded = altered alters first_version

-- One file is of the first version, and another is up to date.
abbrev driver : Driver
driver = record {
  State = Columns;
  open_file = λ path. some (if str_eq path "old.db" then first_version else upgraded);
  exec = exec;
  contains = str_eq;
  has_column = λ s. s;
}

abbrev context : Context
context = record { player_id = some "p"; reject_code = "" }

abbrev unsent : Writer
unsent = record { status = 200; code = ""; written = false }

abbrev outcome : Outcome
outcome = panicked (a_value "index out of range") unsent
