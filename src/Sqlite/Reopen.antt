-- ===== src/Sqlite/Reopen.antt =====
-- A file that has been brought up to date can be opened again.

use stone_server.Prelude.{◌≡◌, ◌<◌, true, none, some, String}
use stone_server.Sqlite.{
  Alter, add_column, drop_column, Command, alter, add_slots, Driver, tolerated,
}
use stone_server.Sqlite.Upgrade.{Met}

-- No ALTER, and the SELECT of the INSERT of the slots is not empty.
abbrev pub IsPlain : Command → Type 0
IsPlain (alter a) = ⊥
IsPlain (add_slots k n) = 0 < k
IsPlain cmd = Unit

-- The table is there.
abbrev pub HasTable : (d : Driver) → d.State → String → Type 0
HasTable d s t = (c : String) × (d.has_column s t c ≡ true)

-- What SQLite documents of a file that it can read and write: the other commands succeed, and
-- leave the columns of a table that is there; adding a column that is there, or dropping one that
-- is not, is refused with its text and changes nothing.
pub record Steady (d : Driver) : Type 0 where
  pub succeeds : (cmd : Command) (s : d.State) → IsPlain cmd → (d.exec cmd s).0 ≡ none
  pub keeps :
      (cmd : Command) (s : d.State) (t c : String)
      → IsPlain cmd
      → HasTable d s t
      → d.has_column (d.exec cmd s).1 t c ≡ d.has_column s t c
  pub refuses :
      (a : Alter) (s : d.State)
      → Met d s a
      → (text : String) × (d.exec (alter a) s ≡ (some text, s))
        × (d.contains text (tolerated a) ≡ true)

module _ (d : Driver) (steady : Steady d) where
  abbrev IsAdded : Alter → Type 0
  IsAdded (add_column t c) = Unit
  IsAdded (drop_column t c) = ⊥
