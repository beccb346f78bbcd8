-- ===== src/Main/Program/Counts.antt =====
-- What a run of `main` (src/main_logic.cpp) leaves in the user database.
use rokit_locator_qr_addon.Base.{ℕ, ◌+◌, ◌^◌, ◌<◌, ◌≡◌, refl, ◌∙◌, true, some, List, length, All}
use rokit_locator_qr_addon.Backup.{new_time}
use rokit_locator_qr_addon.Backup.Due.{date, IsDate, IsToday}
use rokit_locator_qr_addon.Double.{Double}
use rokit_locator_qr_addon.Dm.{Config}
use rokit_locator_qr_addon.Settings.Reads.{Has, Has-get_config}
use rokit_locator_qr_addon.Db.{keep_rows_size, Sqlite, Table, IsSqlite, IsReliable}
use rokit_locator_qr_addon.Db.User.{Row}
use rokit_locator_qr_addon.Db.User
use rokit_locator_qr_addon.Db.User.Retrieve.{IsUserTable}
use rokit_locator_qr_addon.Db.Self.{SelfRow}
use rokit_locator_qr_addon.Db.Self
use rokit_locator_qr_addon.Rpc.{Account}
use rokit_locator_qr_addon.Rpc.Session.{entered, input_account}
use rokit_locator_qr_addon.Main.{World}
use rokit_locator_qr_addon.Main.Round.Ends.{IsAnswering}
use rokit_locator_qr_addon.Main.Start.Opens.{Opens, start_up_lem}
use rokit_locator_qr_addon.Main.Loop.{Sighting, going}
use rokit_locator_qr_addon.Main.Loop.Counts.{IsCounted, seen, count_in, main_loop-counts}
use rokit_locator_qr_addon.Main.Program.{Machine, read_account, first_world, run_with, main}

-- A machine on which the program gets to its loop: it has an account, a configuration, and databases
-- that open.
pub record IsReady {D UDb SDb BDb Net : Type 0} ⦃self_sqlite : Sqlite (SelfRow D) SDb⦄
    (m : Machine D UDb SDb BDb Net) (config : Config D) (user : UDb) : Type 0 where
  pub file : Account
  pub account : Account
  pub written : Account
  pub net : Net
  pub reads : read_account m.account_yaml ≡ some file
  pub enters : input_account m.http file m.typed m.net ≡ entered account written net
  pub has : Has m.config_yaml config
  pub table : SDb
  pub backup : BDb
  pub opens : Opens m.disk user table backup
  pub adds : (self_sqlite.exec (keep_rows_size config.max_row_self_db) table).0.ok ≡ true
  pub year : ℕ
  pub month : ℕ
  pub day : ℕ
  pub last : config.last_backup_date ≡ new_time (date year month day)
  pub last_valid : IsDate year month day
  pub today : IsToday m.now

module _ {D UDb SDb BDb Net : Type 0} ⦃fl : Double D⦄ ⦃user_sqlite : Sqlite (Row D) UDb⦄
    ⦃self_sqlite : Sqlite (SelfRow D) SDb⦄ {contents : UDb → Table (Row D)}
    {self_contents : SDb → Table (SelfRow D)} (laws : IsSqlite User.schema contents)
    (reliable : IsReliable User.schema contents)
    (self_laws : IsSqlite Self.schema self_contents) where
  -- On a machine that is ready, with a server that answers, the program gets through its start and
  -- through the given turns, and each code has then been counted in the user database as often as it
  -- was seen, on top of the count that it had when the file was opened. The conditions on the turns,
  -- the ids and the counts are those under which the loop counts its turns.
  pub main-counts :
      (m : Machine D UDb SDb BDb Net) (config : Config D) (user : UDb) (ss : List (Sighting D))
      → IsReady m config user
      → IsAnswering m.http
      → IsUserTable (contents user)
      → All IsCounted ss
      → ((id : ℕ) → count_in id (contents user) + length ss < 2 ^ 31)
      → (w : World D UDb SDb Net) × (main m ss ≡ going w)
        × ((id : ℕ) → count_in id (contents w.user.db) ≡ count_in id (contents user) + seen id ss)
  unfolding main run_with
  main-counts m config user ss ready answering t all small =
      let (st, started, same, _, _, _, _) =
        start_up_lem self_laws config m.now config.last_backup_date m.disk user ready.table
          ready.backup ready.year ready.month ready.day ready.opens ready.last ready.last_valid
          ready.today ready.adds in
      let (w, runs, _, counts) =
        main_loop-counts laws reliable
          (record { config = config; account = ready.account; http = m.http }) answering ss
          (first_world m ready.net st) all (record { table = rw same t; flag = refl })
          (rw same small) in
      (
        w,
        rw
            (
              ready.reads,
              ready.enters,
              Has-get_config m.config_yaml config ready.has,
              started,
              main,
              run_with,
            )
            runs,
        λ id. counts id ∙ rw same refl,
      )
