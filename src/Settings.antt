-- ===== src/Settings.antt =====
-- `Config::getConfig` of include/main_logic.h, and the entry of the same file that `checkDate` of
-- src/database_controller.cpp writes. yaml-cpp is a parameter: what text a key has, and what its
-- conversions make of a text. `none` is an exception that nothing catches.
pub mod Reads
pub mod Restart
pub mod Sample
mod Tests
use Prim.Native.String.{String}
use rokit_locator_qr_addon.Base.{ℕ, ◌^◌, ◌<◌, ◌≡◌, Bool, Option, none, some, List, if◌then◌else◌}
use rokit_locator_qr_addon.Base.{◌>>=◌}
use rokit_locator_qr_addon.Dm.{Config}
use rokit_locator_qr_addon.Rpc.Json.{codes, text_eq}

-- The file as it is loaded, and `as<T>()`.
pub record Yaml (D : Type 0) : Type 0 where
  pub node : List ℕ → Option (List ℕ)
  pub as_uint16 : List ℕ → Option ℕ
  pub as_uint32 : List ℕ → Option ℕ
  pub as_bool : List ℕ → Option Bool
  pub as_double : List ℕ → Option D

-- A conversion throws on a number that its type does not hold.
pub record IsYaml {D : Type 0} (yaml : Yaml D) : Type 0 where
  pub uint16 : (text : List ℕ) (n : ℕ) → yaml.as_uint16 text ≡ some n → n < 2 ^ 16
  pub uint32 : (text : List ℕ) (n : ℕ) → yaml.as_uint32 text ≡ some n → n < 2 ^ 32

abbrev pub as_string : List ℕ → Option (List ℕ)
as_string text = some text

module _ {D : Type 0} where
  -- `configYaml[key].as<T>()`; a missing key throws as well.
  abbrev pub read_as : {A : Type 0} → Yaml D → (List ℕ → Option A) → String → Option A
  read_as yaml as_type key = yaml.node (codes key) >>= as_type

  pub get_config : Yaml D → Option (Config D)
  get_config yaml = do
    loc_err_threshold ← read_as yaml yaml.as_double "loc_error_threshold"
    mapp_repeat_num ← read_as yaml yaml.as_uint16 "mapping_repeat_num"
    loc_repeat_num ← read_as yaml yaml.as_uint16 "loc_repeat_num"
    observation_type ← read_as yaml yaml.as_uint16 "observationType"
    calibration_type ← read_as yaml yaml.as_uint16 "calibrationType"
    has_orientation ← read_as yaml yaml.as_bool "hasOrientation"
    max_row_self_db ← read_as yaml yaml.as_uint32 "maxrow_selfDb_reserve"
    seed_sloppy_threshold ← read_as yaml yaml.as_double "seed_sloppy_threshold"
    last_backup_date ← read_as yaml as_string "last_backup_time"
    x ← read_as yaml yaml.as_double "LASERstaticCalibSENSOR_x"
    y ← read_as yaml yaml.as_double "LASERstaticCalibSENSOR_y"
    yaw ← read_as yaml yaml.as_double "LASERstaticCalibSENSOR_yaw"
    some (record {
      mapp_repeat_num = mapp_repeat_num;
      loc_repeat_num = loc_repeat_num;
      loc_err_threshold = loc_err_threshold;
      observation_type = observation_type;
      calibration_type = calibration_type;
      has_orientation = has_orientation;
      max_row_self_db = max_row_self_db;
      seed_sloppy_threshold = seed_sloppy_threshold;
      last_backup_date = last_backup_date;
      laser_static_calib_sensor_x = x;
      laser_static_calib_sensor_y = y;
      laser_static_calib_sensor_yaw = yaw;
    })

  -- `configYaml["last_backup_time"] = newTime`, and the file written with it.
  pub write_date : Yaml D → List ℕ → Yaml D
  write_date yaml text = record yaml {
    node = λ key. if text_eq key (codes "last_backup_time") then some text else yaml.node key;
  }
