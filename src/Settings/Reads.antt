-- ===== src/Settings/Reads.antt =====
-- What `getConfig` reads (include/main_logic.h).
use Prim.Native.String.{String}
use mathlib.Core.Option.{some-injective}
use rokit_locator_qr_addon.Base.{ℕ, ◌^◌, ◌<◌, ◌≡◌, ◌↔◌, some, subst}
use rokit_locator_qr_addon.Dm.{Config}
use rokit_locator_qr_addon.Base.{>>=-eq-some}
use rokit_locator_qr_addon.Rpc.Json.{codes}
use rokit_locator_qr_addon.Settings.{Yaml, IsYaml, read_as, as_string, get_config}

-- Every key is there, and its text is that of the field.
pub record Has {D : Type 0} (yaml : Yaml D) (c : Config D) : Type 0 where
  pub loc_err_threshold :
      read_as yaml yaml.as_double "loc_error_threshold" ≡ some c.loc_err_threshold
  pub mapp_repeat_num : read_as yaml yaml.as_uint16 "mapping_repeat_num" ≡ some c.mapp_repeat_num
  pub loc_repeat_num : read_as yaml yaml.as_uint16 "loc_repeat_num" ≡ some c.loc_repeat_num
  pub observation_type : read_as yaml yaml.as_uint16 "observationType" ≡ some c.observation_type
  pub calibration_type : read_as yaml yaml.as_uint16 "calibrationType" ≡ some c.calibration_type
  pub has_orientation : read_as yaml yaml.as_bool "hasOrientation" ≡ some c.has_orientation
  pub max_row_self_db : read_as yaml yaml.as_uint32 "maxrow_selfDb_reserve" ≡ some c.max_row_self_db
  pub seed_sloppy_threshold :
      read_as yaml yaml.as_double "seed_sloppy_threshold" ≡ some c.seed_sloppy_threshold
  pub last_backup_date : read_as yaml as_string "last_backup_time" ≡ some c.last_backup_date
  pub sensor_x :
      read_as yaml yaml.as_double "LASERstaticCalibSENSOR_x" ≡ some c.laser_static_calib_sensor_x
  pub sensor_y :
      read_as yaml yaml.as_double "LASERstaticCalibSENSOR_y" ≡ some c.laser_static_calib_sensor_y
  pub sensor_yaw :
      read_as yaml yaml.as_double "LASERstaticCalibSENSOR_yaw"
      ≡ some c.laser_static_calib_sensor_yaw

-- The numbers keep to the widths of their fields.
pub record Fits {D : Type 0} (c : Config D) : Type 0 where
  pub mapp_repeat_num : c.mapp_repeat_num < 2 ^ 16
  pub loc_repeat_num : c.loc_repeat_num < 2 ^ 16
  pub observation_type : c.observation_type < 2 ^ 16
  pub calibration_type : c.calibration_type < 2 ^ 16
  pub max_row_self_db : c.max_row_self_db < 2 ^ 32

module _ {D : Type 0} (yaml : Yaml D) (c : Config D) where
  uint16 :
      IsYaml yaml → (key : String) {n : ℕ} → read_as yaml yaml.as_uint16 key ≡ some n → n < 2 ^ 16
  uint16 laws key e =
      let (text, _, f) = >>=-eq-some (yaml.node (codes key)) yaml.as_uint16 e in
      laws.uint16 text _ f

  uint32 :
      IsYaml yaml → (key : String) {n : ℕ} → read_as yaml yaml.as_uint32 key ≡ some n → n < 2 ^ 32
  uint32 laws key e =
      let (text, _, f) = >>=-eq-some (yaml.node (codes key)) yaml.as_uint32 e in
      laws.uint32 text _ f

  pub Has-get_config : Has yaml c → get_config yaml ≡ some c
  unfolding get_config
  Has-get_config h = rw (
    h.loc_err_threshold, h.mapp_repeat_num, h.loc_repeat_num, h.observation_type,
    h.calibration_type, h.has_orientation, h.max_row_self_db, h.seed_sloppy_threshold,
    h.last_backup_date, h.sensor_x, h.sensor_y, h.sensor_yaw,
  )

  pub get_config-Has : get_config yaml ≡ some c → Has yaml c
  unfolding get_config
  get_config-Has e =
      let (a0, e0, f0) = >>=-eq-some _ _ e in
      let (a1, e1, f1) = >>=-eq-some _ _ f0 in
      let (a2, e2, f2) = >>=-eq-some _ _ f1 in
      let (a3, e3, f3) = >>=-eq-some _ _ f2 in
      let (a4, e4, f4) = >>=-eq-some _ _ f3 in
      let (a5, e5, f5) = >>=-eq-some _ _ f4 in
      let (a6, e6, f6) = >>=-eq-some _ _ f5 in
      let (a7, e7, f7) = >>=-eq-some _ _ f6 in
      let (a8, e8, f8) = >>=-eq-some _ _ f7 in
      let (a9, e9, f9) = >>=-eq-some _ _ f8 in
      let (a10, e10, f10) = >>=-eq-some _ _ f9 in
      let (a11, e11, f11) = >>=-eq-some _ _ f10 in
      subst (Has yaml) (some-injective _ _ f11) (record {
        loc_err_threshold = e0;
        mapp_repeat_num = e1;
        loc_repeat_num = e2;
        observation_type = e3;
        calibration_type = e4;
        has_orientation = e5;
        max_row_self_db = e6;
        seed_sloppy_threshold = e7;
        last_backup_date = e8;
        sensor_x = e9;
        sensor_y = e10;
        sensor_yaw = e11;
      })

  -- The program has a configuration exactly if the file has all twelve keys, with texts of which the
  -- conversions make its fields, and the numbers of repeats and the two types have 16 bits, and the
  -- number of rows 32; on any other file it throws.
  pub get_config_lem : IsYaml yaml → (get_config yaml ≡ some c) ↔ (Has yaml c × Fits c)
  get_config_lem laws = (
    λ e.
        let h = get_config-Has e in
        (
          h,
          record {
            mapp_repeat_num = uint16 laws "mapping_repeat_num" h.mapp_repeat_num;
            loc_repeat_num = uint16 laws "loc_repeat_num" h.loc_repeat_num;
            observation_type = uint16 laws "observationType" h.observation_type;
            calibration_type = uint16 laws "calibrationType" h.calibration_type;
            max_row_self_db = uint32 laws "maxrow_selfDb_reserve" h.max_row_self_db;
          },
        ),
    λ h. Has-get_config h.0,
  )
