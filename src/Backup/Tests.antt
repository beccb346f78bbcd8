-- ===== src/Backup/Tests.antt =====
-- Runs of `checkDate` of src/database_controller.cpp on given days.
use rokit_locator_qr_addon.Base.{
  ◌+◌, ◌*◌, ◌<◌, ◌≡◌, ◌≢◌, ◌⊎◌, ◌↔◌, Bool, true, some, [], arith, if◌then◌else◌,
}
use rokit_locator_qr_addon.Backup.{Tm, today, new_time, check_date}
use rokit_locator_qr_addon.Backup.Due.{date, IsDate, check_date_lem}

old-IsDate : IsDate 2024 1 9
old-IsDate = record {
  year_ge = omega arith;
  year_lt = omega arith;
  month_ge = omega arith;
  month_le = omega arith;
  day_ge = omega arith;
  day_le = omega arith;
}

-- The tenth of February 2024, as `localtime` gives it.
abbrev day : Tm
day = record { tm_year = 124; tm_mon = 1; tm_mday = 10 }

day-IsDate : IsDate 2024 2 10
day-IsDate = record {
  year_ge = omega arith;
  year_lt = omega arith;
  month_ge = omega arith;
  month_le = omega arith;
  day_ge = omega arith;
  day_le = omega arith;
}

check_date_lem_example :
    (due : Bool) × (check_date (new_time (date 2024 1 9)) day []
      ≡ some (due, if due then new_time (today day) else []))
    × ((due ≡ true) ↔ ((2024 ≢ 124 + 1900) ⊎ (32 * 1 + 9 + 32 < 32 * (1 + 1) + 10)))
check_date_lem_example = check_date_lem 2024 1 9 day [] old-IsDate day-IsDate
