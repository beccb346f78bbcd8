-- ===== src/Main/Sample.antt =====
-- A small user database, and a server that answers each request, for the tests of src/main_logic.cpp.
use rokit_locator_qr_addon.Base.{ℕ, suc, refl, Bool, true, false, none, some, [], ◌∷◌}
use rokit_locator_qr_addon.Base.Int.{ℤ, pos}
use rokit_locator_qr_addon.Double.Whole.{whole}
use rokit_locator_qr_addon.Dm.{DmPose, DmInfo, Config, CustomerPackage}
use rokit_locator_qr_addon.Db.{has}
use rokit_locator_qr_addon.Db.Memory.{UserTable, SelfTable, user_memory, self_memory, user_contents}
use rokit_locator_qr_addon.Db.User.{Row}
use rokit_locator_qr_addon.Rpc.Json.{
  Json, end, field, object, string, int, codes, has_member, get_member, get_uint64, get_string,
  get_int64,
}
use rokit_locator_qr_addon.Rpc.Replies.{
  write_cb_all, parse_response_gla, write_cb_log_in, parse_response_log_in, parse_response_sets,
}
use rokit_locator_qr_addon.Rpc.Session.{Http}
use rokit_locator_qr_addon.Main.{World, Setting}
use rokit_locator_qr_addon.Main.Round.Counts.{IsOpen}
use rokit_locator_qr_addon.Main.Round.Ends.{IsAnswering}

abbrev pub pose : ℕ → DmPose ℤ
pose n = record { x = pos n; y = pos 2; yaw = pos 3 }

abbrev pub code : ℕ → Bool → DmInfo ℤ
code id enable = record {
  id = id;
  pose = pose 1;
  cnt = 4;
  sloppy_cnt = 0;
  recommend = false;
  enable = enable;
  have_sloppy = false;
}

abbrev pub row : Row ℤ
row = record {
  dm_id = 7;
  dm_x = pos 10;
  dm_y = pos 2;
  dm_yaw = pos 3;
  dm_cnt = 4;
  sloppy_cnt = 0;
  recommend = false;
  enable = true;
}

abbrev pub config : Config ℤ
config = record {
  mapp_repeat_num = 5;
  loc_repeat_num = 20;
  loc_err_threshold = pos 2;
  observation_type = 1;
  calibration_type = 2;
  has_orientation = true;
  max_row_self_db = 1000;
  seed_sloppy_threshold = pos 3;
  last_backup_date = codes "20240109";
  laser_static_calib_sensor_x = pos 5;
  laser_static_calib_sensor_y = pos 6;
  laser_static_calib_sensor_yaw = pos 7;
}

abbrev pub devi : CustomerPackage ℤ
devi = record { dm_id = 7; deviation_x = pos 1; deviation_y = pos 1; deviation_a = pos 0 }

abbrev pub result : Json ℤ
result = object (
    field (codes "observationId") (int (pos 3)) (
      field (codes "responseCode") (int (pos 0))
        (field (codes "sessionId") (string (codes "s1")) end)))

abbrev pub server : Http ℤ ℕ
server = record {
  post = λ calls n. (
    some (object (field (codes "result") (object (field (codes "response") result end)) end)) ∷ [],
    suc n,
  );
}

abbrev pub set : Setting ℤ ℕ
set = record {
  config = config;
  account = record { user_name = codes "admin"; pass_word = codes "1234" };
  http = server;
}

abbrev pub world : DmInfo ℤ → World ℤ UserTable SelfTable ℕ
world dm = record {
  dm = dm;
  ori = code 7 false;
  user = record { db = record { rows = row ∷ []; limit = none }; whether_cb = false };
  self_db = record { rows = []; limit = some 1000 };
  session = record { session_id = []; global_id = 3333; net = 0 };
  diag = record { diag_sock_fd = pos 4; sent = [] };
  loc_stat = pos 0;
  rokit_pose = code 7 false;
}

pub world-IsOpen : IsOpen user_contents (world (code 7 false)).user
unfolding has
world-IsOpen = record { table = record { unique = (refl, tt); unlimited = refl }; flag = refl }

pub server-IsAnswering : IsAnswering server
unfolding write_cb_log_in write_cb_all parse_response_log_in parse_response_gla parse_response_sets
    has_member get_member get_uint64 get_string get_int64
server-IsAnswering = record {
  logs_in = λ id account net. refl;
  observes = λ id info config devi session_id net. refl;
  seeds = λ id info loc_stat rokit_pose config session_id net. refl;
}
