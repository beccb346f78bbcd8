-- ===== src/Db/User.antt =====
-- `UserDbController` of src/database_controller.cpp: the table of the codes, one row for each. The
-- callback's `atof` of a column gives back the double that was written, and `atoi` an integer of 32
-- bits (with glibc, the low bits of the column; a count from 2 ^ 63 on, which SQLite would store as a
-- real number, is outside the model).
pub mod Retrieve
pub mod Write
pub mod Refines
use rokit_locator_qr_addon.Base.{
  ℕ, ◌+◌, ◌-◌, ◌%◌, ◌^◌, Bool, true, false, not, List, [], ◌∷◌, ltb, ◌==◌, if◌then◌else◌,
}
use rokit_locator_qr_addon.Double.{Double}
use rokit_locator_qr_addon.Dm.{DmInfo, DmPose, new_info}
use rokit_locator_qr_addon.Db.{Sql, insert, update, select, Answer, Sqlite, Schema}

pub record Row (D : Type 0) : Type 0 where
  pub dm_id : ℕ
  pub dm_x : D
  pub dm_y : D
  pub dm_yaw : D
  pub dm_cnt : ℕ
  pub sloppy_cnt : ℕ
  pub recommend : Bool
  pub enable : Bool

-- `update` sets all columns but DM_id.
abbrev pub schema : {D : Type 0} → Schema (Row D)
schema = record {
  dm_id = λ r. r.dm_id;
  primary = true;
  write = λ new old. record new { dm_id = old.dm_id };
}

abbrev pub atoi_u32 : ℕ → ℕ
atoi_u32 n = n % 2 ^ 32

-- An `int` that is assigned to a `uint64_t`.
abbrev pub atoi_u64 : ℕ → ℕ
atoi_u64 n = let w = n % 2 ^ 32 in if ltb w (2 ^ 31) then w else 2 ^ 64 - 2 ^ 32 + w

-- The connection, and the flag that the callback sets.
pub record UserDb (Db : Type 0) : Type 0 where
  pub db : Db
  pub whether_cb : Bool

module _ {D : Type 0} ⦃fl : Double D⦄ where
  -- The values of `insert` and `update`, written by `std::to_string`.
  unfoldable pub to_row : DmInfo D → Row D
  to_row dm = record {
    dm_id = dm.id;
    dm_x = fl.six_decimals dm.pose.x;
    dm_y = fl.six_decimals dm.pose.y;
    dm_yaw = fl.six_decimals dm.pose.yaw;
    dm_cnt = dm.cnt;
    sloppy_cnt = dm.sloppy_cnt;
    recommend = dm.recommend;
    enable = dm.enable;
  }

module _ {D : Type 0} where
  -- What the callback writes into the `DmInfo` that it is given.
  unfoldable pub retrieve_call_back : DmInfo D → Row D → DmInfo D
  retrieve_call_back dm r = record dm {
    id = atoi_u32 r.dm_id;
    pose = record { x = r.dm_x; y = r.dm_y; yaw = r.dm_yaw };
    cnt = atoi_u64 r.dm_cnt;
    sloppy_cnt = atoi_u64 r.sloppy_cnt;
    recommend = r.recommend;
    enable = r.enable;
  }

  -- The callback at each row; the flag is set if there is one.
  pub call_backs : DmInfo D → Bool → List (Row D) → DmInfo D × Bool
  unfolding retrieve_call_back
  call_backs dm flag [] = (dm, flag)
  call_backs dm flag (r ∷ rows) = call_backs (retrieve_call_back dm r) true rows

module _ {D Db : Type 0} ⦃fl : Double D⦄ ⦃sqlite : Sqlite (Row D) Db⦄ where
  -- `retrieveUsrDb`, with the value that the uninitialised `localDmInfo.id` happens to have: the
  -- result, the code that `dmPtr` then points to, and the controller.
  unfoldable pub retrieve_usr_db : ℕ → DmInfo D → UserDb Db → Bool × DmInfo D × UserDb Db
  unfolding call_backs new_info
  retrieve_usr_db garbage dm u =
      let (answer, db) = sqlite.exec (select dm.id 1) u.db in
      let (found, flag) = call_backs (new_info garbage) u.whether_cb answer.rows in
      if not answer.ok
      then (false, dm, record { db = db; whether_cb = false })
      else if found.id == 0
      then (false, dm, record { db = db; whether_cb = false })
      else if not flag
      then (false, dm, record { db = db; whether_cb = flag })
      else (true, found, record { db = db; whether_cb = false })

  -- An error goes to the log, and the program goes on.
  unfoldable pub add_content : DmInfo D → UserDb Db → UserDb Db
  unfolding to_row
  add_content dm u = record u { db = (sqlite.exec (insert (to_row dm)) u.db).1 }

  unfoldable pub update_data_base : DmInfo D → UserDb Db → UserDb Db
  unfolding to_row
  update_data_base dm u = record u { db = (sqlite.exec (update (to_row dm)) u.db).1 }
