-- ===== src/Main/Round/Branches.antt =====
-- The branches of a round of src/main_logic.cpp, with what goes to the databases, to the diagnostics
-- and to the server.
use rokit_locator_qr_addon.Base.{ℕ, ◌≡◌, false, ◌==◌, some, arith, if◌then◌else◌}
use rokit_locator_qr_addon.Double.{Double}
use rokit_locator_qr_addon.Dm.{DmInfo, CustomerPackage, update_cnt, set_recommend}
use rokit_locator_qr_addon.Db.{Sqlite}
use rokit_locator_qr_addon.Db.User.{Row, UserDb, update_data_base}
use rokit_locator_qr_addon.Db.User
use rokit_locator_qr_addon.Db.Self.{SelfRow, fit_pose}
use rokit_locator_qr_addon.Db.Self
use rokit_locator_qr_addon.Main.{World, Setting, add_to_self, fit, recommend, update_user}
use rokit_locator_qr_addon.Main.Round.{known_recording, known_localization}

-- A code with its id and pose, and nothing else known of it.
abbrev pub fresh : {D : Type 0} → ℕ → DmInfo D → DmInfo D
fresh cnt dm = record dm {
  cnt = cnt;
  sloppy_cnt = 0;
  recommend = false;
  enable = false;
  have_sloppy = false;
}

module _ {D UDb SDb Net : Type 0} ⦃fl : Double D⦄ ⦃user_sqlite : Sqlite (Row D) UDb⦄
    ⦃self_sqlite : Sqlite (SelfRow D) SDb⦄ where
  pub known_recording_disabled :
      (set : Setting D Net) (devi : CustomerPackage D) (w : World D UDb SDb Net)
      → w.dm.enable ≡ false
      → let n = set.config.mapp_repeat_num in
        let dm = update_cnt w.dm in
        let last = dm.cnt == n in
        let ori = if last then set_recommend w.ori else w.ori in
        let self_db = Self.add_content ori w.self_db in
        let (dm', self_db') =
          if last then fit_pose n (set_recommend dm) self_db else (dm, self_db) in
        known_recording set devi w
        ≡ some (record w {
          dm = dm';
          ori = ori;
          self_db = self_db';
          user = update_data_base dm' w.user;
        })
  unfolding known_recording recommend fit add_to_self update_user update_cnt
  known_recording_disabled set devi w off = ground arith

  pub known_localization_disabled :
      (set : Setting D Net) (w : World D UDb SDb Net)
      → w.dm.enable ≡ false
      → let n = set.config.loc_repeat_num in
        let dm = update_cnt w.dm in
        let last = dm.cnt == n in
        let ori = if last then set_recommend (update_cnt w.ori) else update_cnt w.ori in
        let self_db = Self.add_content ori w.self_db in
        let (dm', self_db') =
          if last then fit_pose n (set_recommend dm) self_db else (dm, self_db) in
        known_localization set w
        ≡ some (record w {
          dm = dm';
          ori = ori;
          self_db = self_db';
          user = update_data_base dm' w.user;
        })
  unfolding known_localization recommend fit add_to_self update_user update_cnt
  known_localization_disabled set w off = ground arith
