-- ===== src/Settings/Tests.antt =====
-- Runs of `getConfig` (include/main_logic.h) on a file like config/config.yaml.
use rokit_locator_qr_addon.Base.{◌≡◌, ◌↔◌, refl, true, false, some, arith}
use rokit_locator_qr_addon.Base.Int.{◌-ℤ◌}
use rokit_locator_qr_addon.Rpc.Json.{codes}
use rokit_locator_qr_addon.Backup.{Tm, check_date}
use rokit_locator_qr_addon.Backup.Text.{substr, stoi, to_string}
use rokit_locator_qr_addon.Backup.Due.{IsToday}
use rokit_locator_qr_addon.Settings.{get_config, write_date}
use rokit_locator_qr_addon.Settings.Sample.{file, config, file-IsYaml, file_config}
use rokit_locator_qr_addon.Settings.Reads.{Has, Fits, get_config_lem}
use rokit_locator_qr_addon.Settings.Restart.{restart}

get_config_lem_example : (get_config file ≡ some config) ↔ (Has file config × Fits config)
get_config_lem_example = get_config_lem file config file-IsYaml

-- The tenth of February 2024.
abbrev day : Tm
day = record { tm_year = 124; tm_mon = 1; tm_mday = 10 }

day-IsToday : IsToday day
day-IsToday = record {
  year_ge = omega arith;
  year_lt = omega arith;
  month_ge = omega arith;
  month_le = omega arith;
  day_ge = omega arith;
  day_le = omega arith;
}

day_due : check_date (codes "20240109") day (codes "20240109") ≡ some (true, codes "20240210")
unfolding check_date substr stoi ◌-ℤ◌ to_string
day_due = refl

restart_example :
    (get_config (write_date file (codes "20240210"))
      ≡ some (record config { last_backup_date = codes "20240210" }))
    × (check_date (codes "20240210") day (codes "20240210") ≡ some (false, codes "20240210"))
restart_example = restart file config day (codes "20240210") day-IsToday file_config day_due
