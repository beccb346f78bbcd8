-- ===== src/Settings/Restart.antt =====
-- A start of the program after one that has made a backup: what `checkDate` has written is what
-- `getConfig` reads (include/main_logic.h, src/database_controller.cpp).
use rokit_locator_qr_addon.Base.{ℕ, ◌≡◌, refl, sym, true, false, some, List, subst}
use rokit_locator_qr_addon.Backup.{Tm, check_date}
use rokit_locator_qr_addon.Backup.Due.{IsToday, check_date_again, check_date_due}
use rokit_locator_qr_addon.Dm.{Config}
use rokit_locator_qr_addon.Settings.{Yaml, get_config, write_date}
use rokit_locator_qr_addon.Settings.Reads.{Has, Has-get_config, get_config-Has}

module _ {D : Type 0} (yaml : Yaml D) (c : Config D) where
  write_date-Has :
      (text : List ℕ)
      → Has yaml c
      → Has (write_date yaml text) (record c { last_backup_date = text })
  unfolding write_date
  write_date-Has text h = record {
    loc_err_threshold = h.loc_err_threshold;
    mapp_repeat_num = h.mapp_repeat_num;
    loc_repeat_num = h.loc_repeat_num;
    observation_type = h.observation_type;
    calibration_type = h.calibration_type;
    has_orientation = h.has_orientation;
    max_row_self_db = h.max_row_self_db;
    seed_sloppy_threshold = h.seed_sloppy_threshold;
    last_backup_date = refl;
    sensor_x = h.sensor_x;
    sensor_y = h.sensor_y;
    sensor_yaw = h.sensor_yaw;
  }

  -- If the program starts with a configuration and finds a backup due, then after it has written the
  -- date to the file the next start reads the same configuration with that date; and on the same day
  -- it finds none due and leaves the file alone.
  pub restart :
      (now : Tm) (text : List ℕ)
      → IsToday now
      → get_config yaml ≡ some c
      → check_date c.last_backup_date now c.last_backup_date ≡ some (true, text)
      → let c' = record c { last_backup_date = text } in
        (get_config (write_date yaml text) ≡ some c')
        × (check_date c'.last_backup_date now text ≡ some (false, text))
  restart now text w e due =
      let today_text = check_date_due c.last_backup_date now c.last_backup_date text due in
      (
        Has-get_config (write_date yaml text) (record c { last_backup_date = text })
            (write_date-Has text (get_config-Has yaml c e)),
        subst (λ k. check_date k now text ≡ some (false, text)) (sym today_text)
            (check_date_again now text w),
      )
