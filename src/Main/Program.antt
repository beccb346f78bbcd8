-- ===== src/Main/Program.antt =====
-- `main` of src/main_logic.cpp from its first line to the turns of its loop.
pub mod Counts
mod Tests
use rokit_locator_qr_addon.Base.{ℕ, false, Option, none, some, List, [], ◌∷◌, ◌>>=◌}
use rokit_locator_qr_addon.Base.Int.{ℤ, pos}
use rokit_locator_qr_addon.Double.{Double}
use rokit_locator_qr_addon.Dm.{Config, DmInfo, new_info}
use rokit_locator_qr_addon.Backup.{Tm}
use rokit_locator_qr_addon.Settings.{Yaml, read_as, as_string, get_config}
use rokit_locator_qr_addon.Db.{Sqlite}
use rokit_locator_qr_addon.Db.User.{Row}
use rokit_locator_qr_addon.Db.Self.{SelfRow}
use rokit_locator_qr_addon.Rpc.{Account}
use rokit_locator_qr_addon.Rpc.Session.{Http, Input, waiting, aborted, entered, input_account}
use rokit_locator_qr_addon.Main.{World, Setting}
use rokit_locator_qr_addon.Main.Diag.{Diagnostics}
use rokit_locator_qr_addon.Main.Start.{Disk, Started, start_up}
use rokit_locator_qr_addon.Main.Loop.{Sighting, Loop, reading, ended, going, main_loop}

-- What the program finds when it starts: the two files of its configuration, what the user types, the
-- server and its state, the day, the databases, what `diagSocket` has made of the diagnostics when the
-- loop begins, and the value of the ids of `dmPtr` and `rokitPosePtr`, which it does not initialise.
pub record Machine (D UDb SDb BDb Net : Type 0) : Type 0 where
  pub account_yaml : Yaml D
  pub typed : List Account
  pub http : Http D Net
  pub net : Net
  pub config_yaml : Yaml D
  pub now : Tm
  pub disk : Disk UDb SDb BDb
  pub diag : Diagnostics
  pub garbage : ℕ

module _ {D : Type 0} where
  pub read_account : Yaml D → Option Account
  read_account yaml = do
    user_name ← read_as yaml as_string "UserName"
    pass_word ← read_as yaml as_string "PassWord"
    some (record { user_name = user_name; pass_word = pass_word })

module _ {D UDb SDb BDb Net : Type 0} ⦃fl : Double D⦄ where
  -- The variables of `main` before its loop; the first round overwrites `ori`.
  abbrev pub first_world :
      Machine D UDb SDb BDb Net → Net → Started UDb SDb BDb → World D UDb SDb Net
  first_world m net st = record {
    dm = new_info m.garbage;
    ori = new_info m.garbage;
    user = record { db = st.user; whether_cb = false };
    self_db = st.self_db;
    session = record { session_id = []; global_id = 1; net = net };
    diag = m.diag;
    loc_stat = pos 2;
    rokit_pose = new_info m.garbage;
  }

module _ {D UDb SDb BDb Net : Type 0} ⦃fl : Double D⦄ ⦃user_sqlite : Sqlite (Row D) UDb⦄
    ⦃self_sqlite : Sqlite (SelfRow D) SDb⦄ where
  -- From the reading of the configuration on.
  run_with :
      Machine D UDb SDb BDb Net → List (Sighting D) → Account → Net → Loop (World D UDb SDb Net)
  run_with m ss account net = elim (get_config m.config_yaml) [
    | none ↦ ended
    | some config ↦ elim (start_up config m.now config.last_backup_date m.disk).result [
      | none ↦ ended
      | some st ↦
          main_loop (record { config = config; account = account; http = m.http }) ss
            (first_world m net st)
    ]
  ]

  -- `main` up to the end of the given turns.
  pub main : Machine D UDb SDb BDb Net → List (Sighting D) → Loop (World D UDb SDb Net)
  unfolding run_with read_account
  main m ss = elim (read_account m.account_yaml) [
    | none ↦ ended
    | some file ↦ elim (input_account m.http file m.typed m.net) [
      | waiting ↦ reading
      | aborted ↦ ended
      | entered account written net ↦ run_with m ss account net
    ]
  ]
