-- ===== src/Db.antt =====
-- The SQL that src/database_controller.cpp sends to SQLite, and SQLite as a parameter: an engine
-- that answers a statement and goes to a new state. What the code relies on is `IsSqlite`: a
-- statement that succeeds does to the table what it says, one that fails does nothing, and a
-- `select` delivers rows that match.
use mathlib.Core.List.{Permᴰ}
pub mod Rows
pub mod Memory
pub mod User
pub mod Self
pub mod Files
mod Tests
use rokit_locator_qr_addon.Base.{
  ℕ, ◌≡◌, Bool, true, false, ◌&&◌, ◌||◌, Option, none, some, List, [], ◌∷◌, ◌++◌, map, ltb, ◌==◌,
  if◌then◌else◌, length, take, is_some,
}

-- The statements on a table `DmList` with rows of type `R`. `select id limit` and `update row` name
-- the column DM_id in their `where`; `keep_rows_size max` is the trigger.
pub data Sql (R : Type 0) : Type 0 where
  insert : R → Sql R
  update : R → Sql R
  select : ℕ → ℕ → Sql R
  keep_rows_size : ℕ → Sql R

-- What `sqlite3_exec` returns: whether it is SQLITE_OK, and the rows that went to the callback.
pub record Answer (R : Type 0) : Type 0 where
  pub ok : Bool
  pub rows : List R

pub record Sqlite (R Db : Type 0) : Type 0 where
  pub exec : Sql R → Db → Answer R × Db

-- The columns of a table: the value of DM_id, whether it is the primary key, and the row that
-- `update` makes of an old row.
pub record Schema (R : Type 0) : Type 0 where
  pub dm_id : R → ℕ
  pub primary : Bool
  pub write : R → R → R

-- The rows in the order of ROWID, and the number of the trigger if there is one.
pub record Table (R : Type 0) : Type 0 where
  pub rows : List R
  pub limit : Option ℕ

module _ {R : Type 0} (schema : Schema R) where
  open schema use {dm_id, primary, write}

  unfoldable pub has : ℕ → List R → Bool
  has id [] = false
  has id (r ∷ rows) = dm_id r == id || has id rows

  unfoldable pub lookup : ℕ → List R → Option R
  lookup id [] = none
  lookup id (r ∷ rows) = if dm_id r == id then some r else lookup id rows

  unfoldable pub matching : ℕ → List R → List R
  matching id [] = []
  matching id (r ∷ rows) = if dm_id r == id then r ∷ matching id rows else matching id rows

  -- `ORDER BY ROWID ASC LIMIT 100` stands in a scalar subquery, which has the value of its first row:
  -- the trigger deletes the one oldest row.
  unfoldable pub trim : Option ℕ → List R → List R
  trim none rows = rows
  trim (some max) [] = []
  trim (some max) (r ∷ rows) = if ltb max (length (r ∷ rows)) then rows else r ∷ rows

  -- `none` if the primary key is there already.
  unfoldable pub meaning : Sql R → Table R → Option (Table R)
  unfolding has trim
  meaning (insert r) t =
      if primary && has (dm_id r) t.rows
      then none
      else some (record t { rows = trim t.limit (t.rows ++ (r ∷ [])) })
  meaning (update r) t =
      some (record t { rows = map (λ s. if dm_id s == dm_id r then write r s else s) t.rows })
  meaning (select id limit) t = some t
  meaning (keep_rows_size max) t = some (record t { limit = some max })

  pub record IsSqlite {Db : Type 0} ⦃sqlite : Sqlite R Db⦄ (contents : Db → Table R) : Type 0 where
    pub succeeds :
        (s : Sql R) (db : Db)
        → (sqlite.exec s db).0.ok ≡ true
        → meaning s (contents db) ≡ some (contents (sqlite.exec s db).1)
    pub fails :
        (s : Sql R) (db : Db)
        → (sqlite.exec s db).0.ok ≡ false
        → contents (sqlite.exec s db).1 ≡ contents db
    pub delivers :
        (id limit : ℕ) (db : Db)
        → (sqlite.exec (select id limit) db).0.ok ≡ true
        → (found : List R) × Permᴰ found (matching id (contents db).rows)
          × ((sqlite.exec (select id limit) db).0.rows ≡ take limit found)

  -- A statement fails only if the primary key forbids it.
  pub record IsReliable {Db : Type 0} ⦃sqlite : Sqlite R Db⦄ (contents : Db → Table R)
      : Type 0 where
    pub answers :
        (s : Sql R) (db : Db) → (sqlite.exec s db).0.ok ≡ is_some (meaning s (contents db))
