-- ===== src/Rpc/Requests.antt =====
-- The requests of src/rpc_client.cpp: `writeJsonGLA`, `writeJsonSetSeed` and `writeJsonLogIn`, as
-- the calls of the writer that they make.
pub mod Values
use rokit_locator_qr_addon.Base.{
  ℕ, ◌-◌, ◌^◌, Bool, true, false, List, [], ◌∷◌, ◌++◌, ltb, if◌then◌else◌,
}
use rokit_locator_qr_addon.Base.Int.{ℤ, pos, negsuc, ltb_ℤ, eq_ℤ}
use rokit_locator_qr_addon.Backup.Text.{to_string}
use rokit_locator_qr_addon.Double.{Double}
use rokit_locator_qr_addon.Dm.{DmPose, DmInfo, Config, CustomerPackage, compute_sloppy}
use rokit_locator_qr_addon.Rpc.{RpcInfo, Account}
use rokit_locator_qr_addon.Rpc.Json.{codes}
use rokit_locator_qr_addon.Rpc.Writer.{
  Call, start_object, end_object, key, string, double, int, bool,
}

-- A `uint64_t` that is passed as an `int64_t`.
abbrev pub as_int64 : ℕ → ℤ
as_int64 n = if ltb n (2 ^ 63) then pos n else negsuc (2 ^ 64 - 1 - n)

module _ {D : Type 0} where
  -- `writeJsonGLA`, of a client with these parts.
  unfoldable pub write_json_gla :
      RpcInfo → DmInfo D → Config D → CustomerPackage D → List ℕ → List (Call D)
  write_json_gla rpc dm config devi session_id =
      start_object
      ∷ key (codes "jsonrpc")
      ∷ string (codes "2.0")
      ∷ key (codes "method")
      ∷ string rpc.method
      ∷ key (codes "params")
      ∷ start_object
      ∷ key (codes "query")
      ∷ start_object
      ∷ key (codes "sessionId")
      ∷ string session_id
      ∷ key (codes "observation")
      ∷ start_object
      ∷ key (codes "landmarkName")
      ∷ string session_id
      ∷ key (codes "sensorName")
      ∷ string (to_string (pos dm.id))
      ∷ key (codes "VEHICLEstaticCalibSENSOR")
      ∷ start_object
      ∷ key (codes "x")
      ∷ double config.laser_static_calib_sensor_x
      ∷ key (codes "y")
      ∷ double config.laser_static_calib_sensor_y
      ∷ key (codes "a")
      ∷ double config.laser_static_calib_sensor_yaw
      ∷ end_object
      ∷ key (codes "SENSORlandmark")
      ∷ start_object
      ∷ key (codes "x")
      ∷ double devi.deviation_x
      ∷ key (codes "y")
      ∷ double devi.deviation_y
      ∷ key (codes "a")
      ∷ double devi.deviation_a
      ∷ end_object
      ∷ key (codes "MAPlandmark")
      ∷ start_object
      ∷ key (codes "x")
      ∷ double dm.pose.x
      ∷ key (codes "y")
      ∷ double dm.pose.y
      ∷ key (codes "a")
      ∷ double dm.pose.yaw
      ∷ end_object
      ∷ key (codes "observationType")
      ∷ int (pos config.observation_type)
      ∷ key (codes "calibrationType")
      ∷ int (pos config.calibration_type)
      ∷ key (codes "hasOrientation")
      ∷ bool config.has_orientation
      ∷ end_object
      ∷ end_object
      ∷ end_object
      ∷ key (codes "id")
      ∷ int (as_int64 rpc.id)
      ∷ end_object
      ∷ []

  -- `writeJsonLogIn`.
  unfoldable pub write_json_log_in : RpcInfo → Account → List (Call D)
  write_json_log_in rpc account =
      start_object
      ∷ key (codes "jsonrpc")
      ∷ string (codes "2.0")
      ∷ key (codes "method")
      ∷ string rpc.method
      ∷ key (codes "params")
      ∷ start_object
      ∷ key (codes "query")
      ∷ start_object
      ∷ key (codes "timeout")
      ∷ start_object
      ∷ key (codes "valid")
      ∷ bool true
      ∷ key (codes "time")
      ∷ int (pos 30)
      ∷ key (codes "resolution")
      ∷ int (pos 1)
      ∷ end_object
      ∷ key (codes "userName")
      ∷ string account.user_name
      ∷ key (codes "password")
      ∷ string account.pass_word
      ∷ end_object
      ∷ end_object
      ∷ key (codes "id")
      ∷ int (as_int64 rpc.id)
      ∷ end_object
      ∷ []

module _ {D : Type 0} ⦃fl : Double D⦄ where
  -- `seedArg`: enforceSeed and uncertainSeed, from the state of the localization, the pose that it
  -- reports and the pose in the database.
  unfoldable pub seed_arg : ℤ → DmInfo D → DmInfo D → Config D → Bool × Bool
  seed_arg loc_stat rokit_pose dm config =
      if ltb_ℤ loc_stat (pos 0)
      then if fl.gt (compute_sloppy rokit_pose dm) config.seed_sloppy_threshold
        then (true, false)
        else (false, true)
      else if eq_ℤ loc_stat (pos 1)
      then (false, true)
      else (false, false)

  -- `writeJsonSetSeed`.
  unfoldable pub write_json_set_seed :
      RpcInfo → DmInfo D → ℤ → DmInfo D → Config D → List ℕ → List (Call D)
  unfolding seed_arg
  write_json_set_seed rpc dm loc_stat rokit_pose config session_id =
      let (enforce, uncertain) = seed_arg loc_stat rokit_pose dm config in
      start_object
      ∷ key (codes "jsonrpc")
      ∷ string (codes "2.0")
      ∷ key (codes "method")
      ∷ string rpc.method
      ∷ key (codes "params")
      ∷ start_object
      ∷ key (codes "query")
      ∷ start_object
      ∷ key (codes "sessionId")
      ∷ string session_id
      ∷ key (codes "enforceSeed")
      ∷ bool enforce
      ∷ key (codes "uncertainSeed")
      ∷ bool uncertain
      ∷ key (codes "seedPose")
      ∷ start_object
      ∷ key (codes "x")
      ∷ double (fl.add dm.pose.x config.laser_static_calib_sensor_x)
      ∷ key (codes "y")
      ∷ double (fl.add dm.pose.y config.laser_static_calib_sensor_y)
      ∷ key (codes "a")
      ∷ double (fl.add dm.pose.yaw config.laser_static_calib_sensor_yaw)
      ∷ end_object
      ∷ end_object
      ∷ end_object
      ∷ key (codes "id")
      ∷ int (as_int64 rpc.id)
      ∷ end_object
      ∷ []
