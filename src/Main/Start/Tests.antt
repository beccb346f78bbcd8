-- ===== src/Main/Start/Tests.antt =====
-- A start of src/main_logic.cpp with a backup that is due.
use Prim.Native.Nat.{max}
use Prim.Native.String.{String}
use rokit_locator_qr_addon.Base.{
  ◌+◌, ◌*◌, ◌<◌, ◌≤◌, ◌≡◌, ◌≢◌, ◌⊎◌, ◌↔◌, refl, true, none, some, List, [], ◌∷◌, length, is_some,
}
use rokit_locator_qr_addon.Base.Int.{ℤ}
use rokit_locator_qr_addon.Backup.{today, new_time}
use rokit_locator_qr_addon.Double.Whole.{whole}
use rokit_locator_qr_addon.Dm.{DmInfo}
use rokit_locator_qr_addon.Db.Memory.{UserTable, SelfTable, self_memory, self_memory-IsSqlite}
use rokit_locator_qr_addon.Main.Start.{Disk, Started, start_up}
use rokit_locator_qr_addon.Rpc.Json.{codes}
use rokit_locator_qr_addon.Main.Start.Sample.{
  user_table, self_table, disk, disk-Opens, settings, day, old-IsDate, day-IsDate, adds_trigger,
}
use rokit_locator_qr_addon.Main.Start.Exits.{Exits, no_self, Exits-log}
use rokit_locator_qr_addon.Main.Start.Opens.{add_all, start_up_lem}

start_up_lem_example :
    (st : Started UserTable SelfTable UserTable) × ((start_up settings day [] disk).result
      ≡ some st)
    × (st.user ≡ user_table)
    × (st.self_db.rows ≡ [])
    × (((st.backup ≡ some user_table) × (st.file ≡ new_time (today day)))
        ⊎ ((st.backup ≡ none) × (st.file ≡ [])))
    × ((is_some st.backup ≡ true) ↔ ((2024 ≢ 124 + 1900) ⊎ (32 * 1 + 9 + 32 < 32 * (1 + 1) + 10)))
    × ((dms : List (DmInfo ℤ)) → length (add_all dms st.self_db).rows ≤ max 1000 0)
start_up_lem_example =
    start_up_lem self_memory-IsSqlite settings day [] disk user_table self_table
      (record { rows = []; limit = none }) 2024 1 9 disk-Opens refl old-IsDate day-IsDate
      adds_trigger

-- The self database does not open.
abbrev bad_disk : Disk UserTable SelfTable UserTable
bad_disk = record disk { open_self = none }

bad_disk_log : start_up settings day [] bad_disk ≡ record {
  log = codes "Opened user database successfully" ∷ codes "Can't open self database:" ∷ [];
  result = none;
}
bad_disk_log = Exits-log settings day [] bad_disk _ (no_self user_table refl refl)
