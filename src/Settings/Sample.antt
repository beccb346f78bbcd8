-- ===== src/Settings/Sample.antt =====
-- A file like config/config.yaml, for the tests of include/main_logic.h.
use rokit_locator_qr_addon.Base.{
  ℕ, ◌+◌, ◌*◌, ◌-◌, ◌^◌, ◌<◌, ◌≡◌, refl, true, Option, none, some, List, [], ◌∷◌, ltb,
  if◌then◌else◌, arith,
}
use rokit_locator_qr_addon.Base.Int.{ℤ, pos}
use rokit_locator_qr_addon.Dm.{Config}
use rokit_locator_qr_addon.Rpc.Json.{codes, text_eq}
use rokit_locator_qr_addon.Settings.{Yaml, IsYaml, get_config}

abbrev pub entries : List (List ℕ × List ℕ)
entries =
    (codes "loc_error_threshold", codes "2")
    ∷ (codes "mapping_repeat_num", codes "5")
    ∷ (codes "loc_repeat_num", codes "20")
    ∷ (codes "observationType", codes "1")
    ∷ (codes "calibrationType", codes "2")
    ∷ (codes "hasOrientation", codes "true")
    ∷ (codes "maxrow_selfDb_reserve", codes "1000")
    ∷ (codes "seed_sloppy_threshold", codes "3")
    ∷ (codes "last_backup_time", codes "20240109")
    ∷ (codes "LASERstaticCalibSENSOR_x", codes "5")
    ∷ (codes "LASERstaticCalibSENSOR_y", codes "6")
    ∷ (codes "LASERstaticCalibSENSOR_yaw", codes "7")
    ∷ []

abbrev pub find : List ℕ → List (List ℕ × List ℕ) → Option (List ℕ)
find key [] = none
find key ((k, text) ∷ more) = if text_eq k key then some text else find key more

abbrev pub digits : ℕ → List ℕ → ℕ
digits n [] = n
digits n (c ∷ text) = digits (10 * n + (c - 48)) text

-- A number under a bound.
abbrev pub number : ℕ → List ℕ → Option ℕ
number bound text = if ltb (digits 0 text) bound then some (digits 0 text) else none

abbrev pub file : Yaml ℤ
file = record {
  node = λ key. find key entries;
  as_uint16 = number (2 ^ 16);
  as_uint32 = number (2 ^ 32);
  as_bool = λ text. some (text_eq text (codes "true"));
  as_double = λ text. some (pos (digits 0 text));
}

number-bounded : (bound : ℕ) (text : List ℕ) (n : ℕ) → number bound text ≡ some n → n < bound
number-bounded bound text n e = ground arith

pub file-IsYaml : IsYaml file
file-IsYaml = record { uint16 = number-bounded (2 ^ 16); uint32 = number-bounded (2 ^ 32) }

abbrev pub config : Config ℤ
config = record {
  mapp_repeat_num = 5;
  loc_repeat_num = 20;
  loc_err_threshold = pos 2;
  observation_type = 1;
  calibration_type = 2;
  has_orientation = true;
  max_row_self_db = 1000;
  seed_sloppy_threshold = pos 3;
  last_backup_date = codes "20240109";
  laser_static_calib_sensor_x = pos 5;
  laser_static_calib_sensor_y = pos 6;
  laser_static_calib_sensor_yaw = pos 7;
}

pub file_config : get_config file ≡ some config
unfolding get_config
file_config = refl
