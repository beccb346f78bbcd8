-- ===== src/Rpc/Requests/Values.antt =====
-- The JSON values that the requests of src/rpc_client.cpp write.
use rokit_locator_qr_addon.Base.{ℕ, ◌≡◌, ◌↔◌, refl, ◌⊎◌, true, false, some, List, arith}
use rokit_locator_qr_addon.Base.Int.{ℤ, pos, ltb_ℤ}
use rokit_locator_qr_addon.Backup.Text.{to_string}
use rokit_locator_qr_addon.Double.{Double}
use rokit_locator_qr_addon.Dm.{DmInfo, Config, CustomerPackage, compute_sloppy}
use rokit_locator_qr_addon.Rpc.{RpcInfo, Account}
use rokit_locator_qr_addon.Rpc.Json.{
  Json, Members, end, field, object, string, double, int, bool, codes,
}
use rokit_locator_qr_addon.Rpc.Writer.{written}
use rokit_locator_qr_addon.Rpc.Requests.{as_int64, write_json_log_in, seed_arg, write_json_set_seed}

module _ {D : Type 0} where
  abbrev pub xya : D → D → D → Json D
  xya x y a = object (
      field (codes "x") (double x)
        (field (codes "y") (double y) (field (codes "a") (double a) end)))

  -- A JSON-RPC 2.0 request with one parameter, `query`.
  abbrev pub request : RpcInfo → Members D → Json D
  request rpc query = object (
      field (codes "jsonrpc") (string (codes "2.0")) (
        field (codes "method") (string rpc.method) (
          field (codes "params") (object (field (codes "query") (object query) end))
            (field (codes "id") (int (as_int64 rpc.id)) end))))

  abbrev pub observation : DmInfo D → Config D → CustomerPackage D → List ℕ → Members D
  observation dm config devi session_id = field (codes "landmarkName") (string session_id) (
      field (codes "sensorName") (string (to_string (pos dm.id))) (
        field (codes "VEHICLEstaticCalibSENSOR")
          (xya config.laser_static_calib_sensor_x config.laser_static_calib_sensor_y
            config.laser_static_calib_sensor_yaw)
          (field (codes "SENSORlandmark") (xya devi.deviation_x devi.deviation_y devi.deviation_a) (
            field (codes "MAPlandmark") (xya dm.pose.x dm.pose.y dm.pose.yaw) (
              field (codes "observationType") (int (pos config.observation_type)) (
                field (codes "calibrationType") (int (pos config.calibration_type))
                  (field (codes "hasOrientation") (bool config.has_orientation) end)))))))

  -- The calls of `writeJsonLogIn` write one whole value: a request whose query has a timeout of 30
  -- and the account.
  pub written-write_json_log_in :
      (rpc : RpcInfo) (account : Account)
      → written (write_json_log_in {D = D} rpc account)
        ≡ some (
            request rpc (
              field
                (codes "timeout")
                (object (
                  field (codes "valid") (bool true) (
                    field
                      (codes "time")
                      (int (pos 30))
                      (field (codes "resolution") (int (pos 1)) end))))
                (field
                  (codes "userName")
                  (string account.user_name)
                  (field (codes "password") (string account.pass_word) end))))
  unfolding written write_json_log_in
  written-write_json_log_in rpc account = refl

module _ {D : Type 0} ⦃fl : Double D⦄ where
  -- The calls of `writeJsonSetSeed` write one whole value: a request whose query has the session,
  -- the two flags, and the pose of the code shifted by that of the sensor.
  pub written-write_json_set_seed :
      (rpc : RpcInfo) (dm : DmInfo D) (loc_stat : ℤ) (rokit_pose : DmInfo D) (config : Config D)
      (session_id : List ℕ)
      → let (enforce, uncertain) = seed_arg loc_stat rokit_pose dm config in
        written (write_json_set_seed rpc dm loc_stat rokit_pose config session_id)
        ≡ some (
            request rpc (
              field (codes "sessionId") (string session_id) (
                field (codes "enforceSeed") (bool enforce) (
                  field (codes "uncertainSeed") (bool uncertain) (
                    field
                      (codes "seedPose")
                      (xya
                        (fl.add dm.pose.x config.laser_static_calib_sensor_x)
                        (fl.add dm.pose.y config.laser_static_calib_sensor_y)
                        (fl.add dm.pose.yaw config.laser_static_calib_sensor_yaw))
                      end)))))
  unfolding written write_json_set_seed
  written-write_json_set_seed rpc dm loc_stat rokit_pose config session_id = refl

  -- The seed is enforced exactly if the localization is lost (its state is negative) and its pose is
  -- further from the code than the threshold. It is uncertain exactly if the localization is lost and
  -- its pose is not so far, or if the state is 1. So it is never both.
  pub seed_arg_iff :
      (loc_stat : ℤ) (rokit_pose dm : DmInfo D) (config : Config D)
      → let far = fl.gt (compute_sloppy rokit_pose dm) config.seed_sloppy_threshold in
        let (enforce, uncertain) = seed_arg loc_stat rokit_pose dm config in
        ((enforce ≡ true) ↔ ((ltb_ℤ loc_stat (pos 0) ≡ true) × (far ≡ true)))
        × ((uncertain ≡ true)
            ↔ (((ltb_ℤ loc_stat (pos 0) ≡ true) × (far ≡ false)) ⊎ (loc_stat ≡ pos 1)))
        × ¬ ((enforce ≡ true) × (uncertain ≡ true))
  unfolding seed_arg
  seed_arg_iff loc_stat rokit_pose dm config = ground arith
