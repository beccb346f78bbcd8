-- ===== src/Main/Start.antt =====
-- The start of `main` (src/main_logic.cpp), with the opening of the databases
-- (src/database_controller.cpp): what SQLite does there is an argument.
pub mod Opens
pub mod Exits
pub mod Sample
mod Tests
use rokit_locator_qr_addon.Base.{ℕ, Bool, true, false, Option, none, some, List}
use rokit_locator_qr_addon.Backup.{Tm, check_date}
use rokit_locator_qr_addon.Double.{Double}
use rokit_locator_qr_addon.Dm.{Config}
use rokit_locator_qr_addon.Db.{Sqlite}
use rokit_locator_qr_addon.Db.Self.{SelfRow}
use rokit_locator_qr_addon.Db.Files.{
  Logged, quiet, ◌>>=◌, open_user_db, create_user_table, open_self_db, create_self_table,
  open_backup_db, backup_usr_db, add_trigger,
}

-- The results of `sqlite3_open` for the three files (`none` if it fails), of the two `create table if
-- not exists`, and what `sqlite3_backup` makes of the backup, if it can begin.
pub record Disk (UDb SDb BDb : Type 0) : Type 0 where
  pub open_user : Option UDb
  pub open_self : Option SDb
  pub open_backup : Option BDb
  pub create_user : UDb → Option UDb
  pub create_self : SDb → Option SDb
  pub copy : UDb → BDb → Option BDb

-- The databases, the backup if there is one, and the date in the configuration file.
pub record Started (UDb SDb BDb : Type 0) : Type 0 where
  pub user : UDb
  pub self_db : SDb
  pub backup : Option BDb
  pub file : List ℕ

module _ {UDb SDb BDb : Type 0} where
  -- What follows the result of `checkDate`, which has written the date by then.
  back_up : Disk UDb SDb BDb → UDb → SDb → Bool → List ℕ → Logged (Started UDb SDb BDb)
  back_up disk user self_db false date =
      quiet (some (record { user = user; self_db = self_db; backup = none; file = date }))
  back_up disk user self_db true date = do
    opened ← open_backup_db disk.open_backup
    backup ← backup_usr_db (disk.copy user opened) opened
    quiet (some (record { user = user; self_db = self_db; backup = some backup; file = date }))

module _ {D UDb SDb BDb : Type 0} ⦃fl : Double D⦄ ⦃self_sqlite : Sqlite (SelfRow D) SDb⦄ where
  -- From the opening of the user database to the backup; `checkDate` throws on a date that it cannot
  -- read.
  pub start_up : Config D → Tm → List ℕ → Disk UDb SDb BDb → Logged (Started UDb SDb BDb)
  unfolding back_up
  start_up config now file disk = do
    user_file ← open_user_db disk.open_user
    self_file ← open_self_db disk.open_self
    user ← create_user_table (disk.create_user user_file)
    self_table ← create_self_table (disk.create_self self_file)
    self_db ← add_trigger config self_table
    (due, date) ← quiet (check_date config.last_backup_date now file)
    back_up disk user self_db due date
