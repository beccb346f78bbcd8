-- ===== src/Dm.antt =====
-- The data of include/main_logic.h: a code (`DM`) is what is known of one QR code. A number of
-- `uint32_t` or `uint64_t` is a native number, and `updateCnt` and `updateSloppyCnt` wrap.
use rokit_locator_qr_addon.Base.{ℕ, ◌+◌, ◌%◌, ◌^◌, Bool, true, false, List}
use rokit_locator_qr_addon.Double.{Double}

pub record DmPose (D : Type 0) : Type 0 where
  pub x : D
  pub y : D
  pub yaw : D

pub record DmInfo (D : Type 0) : Type 0 where
  pub id : ℕ
  pub pose : DmPose D
  pub cnt : ℕ
  pub sloppy_cnt : ℕ
  pub recommend : Bool
  pub enable : Bool
  pub have_sloppy : Bool

pub record CustomerPackage (D : Type 0) : Type 0 where
  pub dm_id : ℕ
  pub deviation_x : D
  pub deviation_y : D
  pub deviation_a : D

pub record Config (D : Type 0) : Type 0 where
  pub mapp_repeat_num : ℕ
  pub loc_repeat_num : ℕ
  pub loc_err_threshold : D
  pub observation_type : ℕ
  pub calibration_type : ℕ
  pub has_orientation : Bool
  pub max_row_self_db : ℕ
  pub seed_sloppy_threshold : D
  pub last_backup_date : List ℕ
  pub laser_static_calib_sensor_x : D
  pub laser_static_calib_sensor_y : D
  pub laser_static_calib_sensor_yaw : D

abbrev pub u64 : ℕ
u64 = 2 ^ 64

-- The members of `DM`, whose one field is its `DmInfo`.
module _ {D : Type 0} where
  unfoldable pub update_cnt : DmInfo D → DmInfo D
  update_cnt dm = record dm { cnt = (dm.cnt + 1) % u64 }

  unfoldable pub update_sloppy_cnt : DmInfo D → DmInfo D
  update_sloppy_cnt dm = record dm { sloppy_cnt = (dm.sloppy_cnt + 1) % u64; have_sloppy = true }

  unfoldable pub set_recommend : DmInfo D → DmInfo D
  set_recommend dm = record dm { recommend = true }

  unfoldable pub set_have_sloppy : DmInfo D → DmInfo D
  set_have_sloppy dm = record dm { have_sloppy = true }

  unfoldable pub clear_remaining_info : DmInfo D → DmInfo D
  clear_remaining_info dm = record dm {
    cnt = 0;
    enable = false;
    have_sloppy = false;
    recommend = false;
    sloppy_cnt = 0;
  }

module _ {D : Type 0} ⦃fl : Double D⦄ where
  -- A `DmInfo` with its default values; the source leaves `id` without one.
  unfoldable pub new_info : ℕ → DmInfo D
  new_info id = record {
    id = id;
    pose = record { x = fl.nought; y = fl.nought; yaw = fl.nought };
    cnt = 0;
    sloppy_cnt = 0;
    recommend = false;
    enable = false;
    have_sloppy = false;
  }

  -- `computeSloppy`, of which the two clients of src/rpc_client.cpp have a copy each: the distance
  -- of the two positions.
  unfoldable pub compute_sloppy : DmInfo D → DmInfo D → D
  compute_sloppy dm ori = fl.sqrt (
      fl.add (fl.pow (fl.sub dm.pose.x ori.pose.x) (fl.of_ℕ 2))
        (fl.pow (fl.sub dm.pose.y ori.pose.y) (fl.of_ℕ 2)))
