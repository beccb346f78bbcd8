-- ===== src/Main/Round.antt =====
-- One round of the main loop of src/main_logic.cpp, in either mode.
pub mod Keeps
pub mod Counts
pub mod Sees
pub mod Branches
pub mod Enabled
pub mod Ends
mod Tests
use rokit_locator_qr_addon.Base.{ℕ, Bool, true, false, Option, none, some, ◌==◌, if◌then◌else◌}
use rokit_locator_qr_addon.Base.{◌>>=◌}
use rokit_locator_qr_addon.Double.{Double}
use rokit_locator_qr_addon.Dm.{
  DmInfo, Config, CustomerPackage, update_cnt, set_recommend, clear_remaining_info,
}
use rokit_locator_qr_addon.Mode.{recording, localization}
use rokit_locator_qr_addon.Db.{Sqlite}
use rokit_locator_qr_addon.Db.User.{Row, retrieve_usr_db}
use rokit_locator_qr_addon.Db.User
use rokit_locator_qr_addon.Db.Self.{SelfRow}
use rokit_locator_qr_addon.Main.{
  World, Setting, add_to_self, recommend, check_sloppy, log_in, post_gla, set_seed, update_user,
}
use rokit_locator_qr_addon.Main.Diag.{send_diag_message, qr_unknown}

module _ {D UDb SDb Net : Type 0} ⦃fl : Double D⦄ ⦃user_sqlite : Sqlite (Row D) UDb⦄
    ⦃self_sqlite : Sqlite (SelfRow D) SDb⦄ where
  -- An enabled code in recording mode: the server gets its observation.
  pub align :
      Setting D Net
      → CustomerPackage D
      → DmInfo D
      → World D UDb SDb Net
      → Option (World D UDb SDb Net)
  align set devi info w = do
    (id, w1) ← log_in set (record w { dm = set_recommend w.dm })
    w2 ← post_gla set devi info id w1
    let w3 = check_sloppy set.config w2
    some (add_to_self (record w3 { ori = set_recommend w3.ori }))

  -- A code that the user database has, in recording mode.
  pub known_recording :
      Setting D Net → CustomerPackage D → World D UDb SDb Net → Option (World D UDb SDb Net)
  unfolding align
  known_recording set devi w =
      let w1 = record w { dm = update_cnt w.dm } in
      let info = w1.dm in
      let w2 = recommend set.config.mapp_repeat_num info w1 in
      do
        w3 ← elim info.enable [ true ↦ align set devi info w2 | false ↦ some w2 ]
        some (update_user w3)

  -- A code that it has not.
  pub unknown_recording : World D UDb SDb Net → World D UDb SDb Net
  unknown_recording w =
      let dm = update_cnt (clear_remaining_info w.dm) in
      let ori = update_cnt (clear_remaining_info w.ori) in
      add_to_self (record w {
        dm = dm;
        ori = ori;
        user = User.add_content dm w.user;
        diag = send_diag_message qr_unknown w.diag;
      })

  -- An enabled code in localization mode: the server gets the seed.
  pub seed : Setting D Net → DmInfo D → World D UDb SDb Net → Option (World D UDb SDb Net)
  seed set info w = do
    (id, w1) ← log_in set w
    w2 ← set_seed set info id w1
    some (add_to_self (check_sloppy set.config w2))

  pub known_localization : Setting D Net → World D UDb SDb Net → Option (World D UDb SDb Net)
  unfolding seed
  known_localization set w =
      let w1 = record w { dm = update_cnt w.dm; ori = update_cnt w.ori } in
      let info = w1.dm in
      do
        w2 ← elim info.enable [ true ↦ seed set info w1 | false ↦ some w1 ]
        some (update_user (recommend set.config.loc_repeat_num info w2))

  pub unknown_localization : World D UDb SDb Net → World D UDb SDb Net
  unknown_localization w =
      let dm = update_cnt (clear_remaining_info w.dm) in
      add_to_self (record w {
        dm = dm;
        ori = clear_remaining_info w.ori;
        user = User.add_content dm w.user;
        diag = send_diag_message qr_unknown w.diag;
      })

  -- The branch of one mode: the value of the uninitialised id in `retrieveUsrDb`, and what is done
  -- with a code that the user database has, or has not.
  pub retrieve_or :
      ℕ
      → (World D UDb SDb Net → Option (World D UDb SDb Net))
      → (World D UDb SDb Net → World D UDb SDb Net)
      → World D UDb SDb Net
      → Option (World D UDb SDb Net)
  retrieve_or garbage known unknown w =
      let (found, dm, user) = retrieve_usr_db garbage w.dm w.user in
      let w' = record w { dm = dm; user = user } in if found then known w' else some (unknown w')

  pub handle_recording :
      ℕ → Setting D Net → CustomerPackage D → World D UDb SDb Net → Option (World D UDb SDb Net)
  unfolding retrieve_or known_recording unknown_recording
  handle_recording garbage set devi w =
      retrieve_or garbage (known_recording set devi) unknown_recording w

  pub handle_localization : ℕ → Setting D Net → World D UDb SDb Net → Option (World D UDb SDb Net)
  unfolding retrieve_or known_localization unknown_localization
  handle_localization garbage set w =
      retrieve_or garbage (known_localization set) unknown_localization w

  -- The body of the loop. Another thread may change the mode between the two tests.
  pub main_round :
      ℕ
      → Setting D Net
      → CustomerPackage D
      → ℕ
      → ℕ
      → World D UDb SDb Net
      → Option (World D UDb SDb Net)
  main_round garbage set devi mode mode' w = do
    w' ←
        if mode == recording
        then handle_recording garbage set devi (record w { ori = w.dm })
        else some (record w { ori = w.dm })
    if mode' == localization then handle_localization garbage set w' else some w'
