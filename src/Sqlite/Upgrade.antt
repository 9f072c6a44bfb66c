-- ===== src/Sqlite/Upgrade.antt =====
-- What a file that has been opened has.
use stone_server.Prelude.{
  ℕ, ◌≡◌, ◌∙◌, Bool, true, false, not, ◌&&◌, ◌||◌, none, some, List, [], ◌∷◌, String, str_eq, All,
}
use stone_server.Sqlite.{
  Alter, add_column, drop_column, anchor_syncs, alter, add_slots, drop_slots, Driver,
}

-- The column of the statement.
abbrev pub is_column : String → String → String → String → Bool
is_column t c t' c' = str_eq t t' && str_eq c c'

-- What SQLite documents of these statements. A statement that fails changes nothing, and the two
-- texts mean what they say. The schema is made of CREATE TABLE IF NOT EXISTS, so no column goes;
-- the other commands leave the columns.
pub record DriverLaws (d : Driver) : Type 0 where
  pub added :
      (t c t' c' : String) (s s' : d.State)
      → d.exec (alter (add_column t c)) s ≡ (none, s')
      → d.has_column s' t' c' ≡ is_column t c t' c' || d.has_column s t' c'
  pub dropped :
      (t c t' c' : String) (s s' : d.State)
      → d.exec (alter (drop_column t c)) s ≡ (none, s')
      → d.has_column s' t' c' ≡ not (is_column t c t' c') && d.has_column s t' c'
  pub refused :
      (a : Alter) (text : String) (s s' : d.State) → d.exec (alter a) s ≡ (some text, s') → s' ≡ s
  pub duplicate :
      (t c text : String) (s s' : d.State)
      → d.exec (alter (add_column t c)) s ≡ (some text, s')
      → d.contains text "duplicate column name" ≡ true
      → d.has_column s t c ≡ true
  pub absent :
      (t c text : String) (s s' : d.State)
      → d.exec (alter (drop_column t c)) s ≡ (some text, s')
      → d.contains text "no such column" ≡ true
      → d.has_column s t c ≡ false
  pub kept :
      (k n : ℕ) (t c : String) (s : d.State)
      → (d.has_column (d.exec anchor_syncs s).1 t c ≡ d.has_column s t c)
        × (d.has_column (d.exec (add_slots k n) s).1 t c ≡ d.has_column s t c)
        × (d.has_column (d.exec (drop_slots k) s).1 t c ≡ d.has_column s t c)

-- What an ALTER is for.
abbrev pub Met : (d : Driver) → d.State → Alter → Type 0
Met d s (add_column t c) = d.has_column s t c ≡ true
Met d s (drop_column t c) = d.has_column s t c ≡ false

-- No statement takes back what another is for.
abbrev Apart : Alter → Alter → Type 0
Apart (add_column t c) (add_column t' c') = Unit
Apart (add_column t c) (drop_column t' c') = is_column t c t' c' ≡ false
Apart (drop_column t c) (add_column t' c') = is_column t c t' c' ≡ false
Apart (drop_column t c) (drop_column t' c') = Unit

abbrev AllApart : List Alter → Type 0
AllApart [] = Unit
AllApart (a ∷ as') = All (Apart a) as' × AllApart as'

module _ (d : Driver) (laws : DriverLaws d) where
  -- Commands that leave the columns leave what an ALTER is for.
  pub Met-same :
      (a : Alter) (s s' : d.State)
      → ((t c : String) → d.has_column s' t c ≡ d.has_column s t c)
      → Met d s a
      → Met d s' a
  Met-same (add_column t c) s s' same h = same t c ∙ h
  Met-same (drop_column t c) s s' same h = same t c ∙ h
