-- ===== src/Db/Self.antt =====
-- `SelfDbController` of src/database_controller.cpp: the table of the sightings, a row for each, and
-- the recommended pose that is computed from it.
pub mod Bound
pub mod Fit
use rokit_locator_qr_addon.Base.{ℕ, Bool, true, false, not, List, [], ◌∷◌, if◌then◌else◌}
use rokit_locator_qr_addon.Double.{Double}
use rokit_locator_qr_addon.Dm.{DmInfo, DmPose, Config}
use rokit_locator_qr_addon.Db.{Sql, insert, select, keep_rows_size, Answer, Sqlite, Schema}
use rokit_locator_qr_addon.Db.User.{Row, to_row}

-- The columns of the user table, and HaveSloppy.
pub record SelfRow (D : Type 0) : Type 0 where
  pub row : Row D
  pub open row use *
  pub have_sloppy : Bool

-- There is no primary key (and no statement updates the table).
abbrev pub schema : {D : Type 0} → Schema (SelfRow D)
schema = record { dm_id = λ r. r.dm_id; primary = false; write = λ new old. old }

module _ {D : Type 0} ⦃fl : Double D⦄ where
  unfoldable pub to_self_row : DmInfo D → SelfRow D
  unfolding to_row
  to_self_row dm = record { row = to_row dm; have_sloppy = dm.have_sloppy }

  -- `fitCallBack` adds the pose of a row up.
  unfoldable pub fit_call_back : DmPose D → SelfRow D → DmPose D
  fit_call_back sum r = record {
    x = fl.add sum.x r.dm_x;
    y = fl.add sum.y r.dm_y;
    yaw = fl.add sum.yaw r.dm_yaw;
  }

  unfoldable pub sum_poses : DmPose D → List (SelfRow D) → DmPose D
  unfolding fit_call_back
  sum_poses sum [] = sum
  sum_poses sum (r ∷ rows) = sum_poses (fit_call_back sum r) rows

  abbrev pub no_pose : DmPose D
  no_pose = record { x = fl.nought; y = fl.nought; yaw = fl.nought }

  unfoldable pub divide : DmPose D → ℕ → DmPose D
  divide sum threshold = record {
    x = fl.div sum.x (fl.of_ℕ threshold);
    y = fl.div sum.y (fl.of_ℕ threshold);
    yaw = fl.div sum.yaw (fl.of_ℕ threshold);
  }

module _ {D Db : Type 0} ⦃fl : Double D⦄ ⦃sqlite : Sqlite (SelfRow D) Db⦄ where
  -- An error goes to the log, and the program goes on.
  unfoldable pub add_content : DmInfo D → Db → Db
  unfolding to_self_row
  add_content dm db = (sqlite.exec (insert (to_self_row dm)) db).1

  -- Whether the trigger is there; if not, the program exits.
  unfoldable pub create_trigger : Config D → Db → Bool × Db
  create_trigger config db =
      let (answer, db') = sqlite.exec (keep_rows_size config.max_row_self_db) db in (answer.ok, db')

  -- `fitPose`: the code that `dmPtr` then points to.
  unfoldable pub fit_pose : ℕ → DmInfo D → Db → DmInfo D × Db
  unfolding sum_poses divide
  fit_pose threshold dm db =
      let (answer, db') = sqlite.exec (select dm.id threshold) db in
      if not answer.ok
      then (dm, db')
      else (record dm { pose = divide (sum_poses no_pose answer.rows) threshold }, db')
