-- ===== src/Main/Start/Sample.antt =====
-- Databases that open and a day, for the tests of src/main_logic.cpp.
use rokit_locator_qr_addon.Base.{◌≡◌, refl, true, none, some, [], ◌∷◌, arith}
use rokit_locator_qr_addon.Base.Int.{ℤ}
use rokit_locator_qr_addon.Backup.{Tm, new_time}
use rokit_locator_qr_addon.Backup.Due.{date, IsDate}
use rokit_locator_qr_addon.Dm.{Config}
use rokit_locator_qr_addon.Double.Whole.{whole}
use rokit_locator_qr_addon.Db.{keep_rows_size, meaning}
use rokit_locator_qr_addon.Db.Memory.{memory, self_memory, UserTable, SelfTable}
use rokit_locator_qr_addon.Main.Sample.{config}
use rokit_locator_qr_addon.Main.Sample
use rokit_locator_qr_addon.Main.Start.{Disk}
use rokit_locator_qr_addon.Main.Start.Opens.{Opens}

abbrev pub user_table : UserTable
user_table = record { rows = Sample.row ∷ []; limit = none }

abbrev pub self_table : SelfTable
self_table = record { rows = []; limit = none }

abbrev pub disk : Disk UserTable SelfTable UserTable
disk = record {
  open_user = some user_table;
  open_self = some self_table;
  open_backup = some (record { rows = []; limit = none });
  create_user = λ t. some t;
  create_self = λ t. some t;
  copy = λ from to. some from;
}

pub disk-Opens : Opens disk user_table self_table (record { rows = []; limit = none })
disk-Opens = record {
  user_file = user_table;
  self_file = self_table;
  open_user = refl;
  open_self = refl;
  create_user = refl;
  create_self = refl;
  open_backup = refl;
}

abbrev pub settings : Config ℤ
settings = record config { last_backup_date = new_time (date 2024 1 9) }

abbrev pub day : Tm
day = record { tm_year = 124; tm_mon = 1; tm_mday = 10 }

pub old-IsDate : IsDate 2024 1 9
old-IsDate = record {
  year_ge = omega arith;
  year_lt = omega arith;
  month_ge = omega arith;
  month_le = omega arith;
  day_ge = omega arith;
  day_le = omega arith;
}

pub day-IsDate : IsDate 2024 2 10
day-IsDate = record {
  year_ge = omega arith;
  year_lt = omega arith;
  month_ge = omega arith;
  month_le = omega arith;
  day_ge = omega arith;
  day_le = omega arith;
}

-- The trigger can be added.
pub adds_trigger : (self_memory.exec (keep_rows_size 1000) self_table).0.ok ≡ true
unfolding memory meaning
adds_trigger = refl
