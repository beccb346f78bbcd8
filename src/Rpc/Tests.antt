-- ===== src/Rpc/Tests.antt =====
-- Runs of the clients of src/rpc_client.cpp, and of `inputAccount` (src/main_logic.cpp) with a server
-- that refuses the first log-in.
use rokit_locator_qr_addon.Base.{
  ℕ, zero, suc, ◌≡◌, ◌↔◌, ◌⊎◌, refl, true, false, Option, none, some, List, [], ◌∷◌,
}
use rokit_locator_qr_addon.Base.Int.{ℤ, pos, negsuc, ltb_ℤ}
use rokit_locator_qr_addon.Double.Whole.{whole}
use rokit_locator_qr_addon.Dm.{DmInfo, Config, CustomerPackage, compute_sloppy}
use rokit_locator_qr_addon.Rpc.{RpcInfo, Account}
use rokit_locator_qr_addon.Rpc.Json.{
  Json, end, field, object, string, int, bool, codes, get_member, has_member, get_uint64,
  get_string,
}
use rokit_locator_qr_addon.Rpc.Writer.{written}
use rokit_locator_qr_addon.Rpc.Requests.{write_json_log_in, seed_arg, write_json_set_seed}
use rokit_locator_qr_addon.Rpc.Requests.Values.{
  xya, request, written-write_json_log_in, written-write_json_set_seed, seed_arg_iff,
}
use rokit_locator_qr_addon.Rpc.Session.{Http, Session, get_session_id}
use rokit_locator_qr_addon.Rpc.Session.LogIn.{
  IsLogIn, Reads, finished, unparsable, log_in, get_session_id_lem,
}

abbrev rpc : RpcInfo
rpc = record { method = codes "sessionLogin"; id = 3333 }

abbrev account : Account
account = record { user_name = codes "admin"; pass_word = codes "1234" }

abbrev no_account : Account
no_account = record { user_name = []; pass_word = [] }

abbrev code : ℕ → DmInfo ℤ
code n = record {
  id = 7;
  pose = record { x = pos n; y = pos 2; yaw = pos 3 };
  cnt = 4;
  sloppy_cnt = 0;
  recommend = false;
  enable = true;
  have_sloppy = false;
}

abbrev config : Config ℤ
config = record {
  mapp_repeat_num = 10;
  loc_repeat_num = 20;
  loc_err_threshold = pos 2;
  observation_type = 1;
  calibration_type = 2;
  has_orientation = true;
  max_row_self_db = 1000;
  seed_sloppy_threshold = pos 3;
  last_backup_date = codes "20240109";
  laser_static_calib_sensor_x = pos 5;
  laser_static_calib_sensor_y = pos 6;
  laser_static_calib_sensor_yaw = pos 7;
}

abbrev devi : CustomerPackage ℤ
devi = record { dm_id = 7; deviation_x = pos 1; deviation_y = pos 1; deviation_a = pos 0 }

log_in_request :
    written (write_json_log_in {D = ℤ} rpc account)
    ≡ some (
        request rpc (
          field
            (codes "timeout")
            (object (
              field (codes "valid") (bool true) (
                field
                  (codes "time")
                  (int (pos 30))
                  (field (codes "resolution") (int (pos 1)) end))))
            (field
              (codes "userName")
              (string (codes "admin"))
              (field (codes "password") (string (codes "1234")) end))))
log_in_request = written-write_json_log_in rpc account

-- The localization is lost, and its pose is far from the code.
seed_request :
    written (write_json_set_seed rpc (code 1) (negsuc 0) (code 9) config (codes "s1"))
    ≡ some (
        request rpc (
          field (codes "sessionId") (string (codes "s1")) (
            field (codes "enforceSeed") (bool true) (
              field
                (codes "uncertainSeed")
                (bool false)
                (field (codes "seedPose") (xya (pos 6) (pos 8) (pos 10)) end)))))
unfolding seed_arg compute_sloppy
seed_request = written-write_json_set_seed rpc (code 1) (negsuc 0) (code 9) config (codes "s1")

seed_arg_iff_example :
    let far = whole.gt (compute_sloppy (code 3) (code 1)) config.seed_sloppy_threshold in
    let (enforce, uncertain) = seed_arg (negsuc 0) (code 3) (code 1) config in
    ((enforce ≡ true) ↔ ((ltb_ℤ (negsuc 0) (pos 0) ≡ true) × (far ≡ true)))
    × ((uncertain ≡ true)
        ↔ (((ltb_ℤ (negsuc 0) (pos 0) ≡ true) × (far ≡ false)) ⊎ (negsuc 0 ≡ pos 1)))
    × ¬ ((enforce ≡ true) × (uncertain ≡ true))
seed_arg_iff_example = seed_arg_iff (negsuc 0) (code 3) (code 1) config

abbrev refusal_error : Json ℤ
refusal_error =
    object
      (field (codes "code") (int (negsuc 0)) (field (codes "message") (string (codes "no")) end))

abbrev refusal : Json ℤ
refusal = object (field (codes "error") refusal_error end)

abbrev welcome_response : Json ℤ
welcome_response = object (
    field (codes "responseCode") (int (pos 0))
      (field (codes "sessionId") (string (codes "s1")) end))

abbrev welcome : Json ℤ
welcome =
    object (field (codes "result") (object (field (codes "response") welcome_response end)) end)

-- Its state is the number of requests; a welcome comes after a piece that does not parse.
abbrev answers : ℕ → List (Option (Json ℤ))
answers zero = some refusal ∷ []
answers (suc n) = none ∷ some welcome ∷ []

abbrev server : Http ℤ ℕ
server = record { post = λ calls n. (answers n, suc n) }

welcome-IsLogIn : IsLogIn welcome (codes "s1")
unfolding get_member has_member get_uint64 get_string
welcome-IsLogIn = record {
  result = object (field (codes "response") welcome_response end);
  response = welcome_response;
  code = int (pos 0);
  id = string (codes "s1");
  number = 0;
  no_error = refl;
  result_lem = refl;
  response_lem = refl;
  code_lem = refl;
  id_lem = refl;
  number_lem = refl;
  session_lem = refl;
}

welcomed : Reads [] (answers 1) (codes "s1")
welcomed = unparsable (log_in welcome (codes "s1") welcome-IsLogIn (finished (codes "s1")))

abbrev session : ℕ → Session ℕ
session n = record { session_id = []; global_id = 3333; net = n }

get_session_id_lem_example :
    get_session_id server account (session 1)
    ≡ some (record { session_id = codes "s1"; global_id = 3334; net = 2 })
get_session_id_lem_example = get_session_id_lem server account (session 1) (codes "s1") welcomed
