-- ===== src/Main/Round/Enabled.antt =====
-- What a round of src/main_logic.cpp does with a code that is enabled.
use rokit_locator_qr_addon.Base.{
  ◌⊎◌, ℕ, ◌+◌, ◌%◌, ◌≡◌, ◌∙◌, inl, inr, Bool, true, some, arith, if◌then◌else◌, subst, sym,
}
use mathlib.Core.Option.{some-injective}
use rokit_locator_qr_addon.Base.{◌>>=◌}
use rokit_locator_qr_addon.Double.{Double}
use rokit_locator_qr_addon.Dm.{
  DmInfo, CustomerPackage, update_cnt, update_sloppy_cnt, set_recommend, set_have_sloppy, u64,
  compute_sloppy,
}
use rokit_locator_qr_addon.Db.{Sqlite}
use rokit_locator_qr_addon.Db.User.{Row, update_data_base}
use rokit_locator_qr_addon.Db.Self.{SelfRow, fit_pose}
use rokit_locator_qr_addon.Db.Self
use rokit_locator_qr_addon.Rpc.Session.{next_id, get_session_id}
use rokit_locator_qr_addon.Main.{
  World, Setting, add_to_self, recommend, check_sloppy, log_in, post_gla, set_seed, update_user,
}
use rokit_locator_qr_addon.Main.Diag.{send_diag_message, qr_sloppy}
use rokit_locator_qr_addon.Main.Round.{align, seed, known_recording, known_localization}
use rokit_locator_qr_addon.Base.{>>=-eq-some}

module _ {D UDb SDb Net : Type 0} ⦃fl : Double D⦄ ⦃user_sqlite : Sqlite (Row D) UDb⦄
    ⦃self_sqlite : Sqlite (SelfRow D) SDb⦄ where
  log_in-global_id :
      (set : Setting D Net) (w w' : World D UDb SDb Net) (id : ℕ)
      → log_in set w ≡ some (id, w')
      → (id ≡ next_id w.session.global_id)
        × (w'.session.global_id ≡ next_id id)
        × (w'.dm ≡ w.dm)
        × (w'.ori ≡ w.ori)
        × (w'.user ≡ w.user)
        × (w'.self_db ≡ w.self_db)
        × (w'.diag ≡ w.diag)
  unfolding log_in get_session_id
  log_in-global_id set w w' id e = ground arith

  post_gla_world :
      (set : Setting D Net) (devi : CustomerPackage D) (info : DmInfo D) (id : ℕ)
      (w w' : World D UDb SDb Net)
      → post_gla set devi info id w ≡ some w'
      → w' ≡ record w { session = record w.session { net = w'.session.net } }
  unfolding post_gla
  post_gla_world set devi info id w w' e = ground arith

  set_seed_world :
      (set : Setting D Net) (info : DmInfo D) (id : ℕ) (w w' : World D UDb SDb Net)
      → set_seed set info id w ≡ some w'
      → w' ≡ record w { session = record w.session { net = w'.session.net } }
  unfolding set_seed
  set_seed_world set info id w w' e = ground arith

  -- What a round that ends has done with a code that is known and enabled, with `ori` for
  -- `oriTriggerDmPtr` after it and `far` for the test of the distance.
  pub record Observes (far : Bool) (ori : DmInfo D) (w w' : World D UDb SDb Net) : Type 0 where
    pub pose : w'.dm.pose ≡ w.dm.pose
    pub cnt : w'.dm.cnt ≡ (w.dm.cnt + 1) % u64
    pub sloppy_cnt :
        w'.dm.sloppy_cnt ≡ (if far then (w.dm.sloppy_cnt + 1) % u64 else w.dm.sloppy_cnt)
    pub diag : w'.diag ≡ (if far then send_diag_message qr_sloppy w.diag else w.diag)
    pub global_id : w'.session.global_id ≡ next_id (next_id w.session.global_id)
    pub user : w'.user ≡ update_data_base w'.dm w.user
    pub self_db : w'.self_db ≡ Self.add_content ori w.self_db

  pub recording_enabled :
      (set : Setting D Net) (devi : CustomerPackage D) (w : World D UDb SDb Net)
      → w.dm.enable ≡ true
      → known_recording set devi w ≡ (
          align set devi (update_cnt w.dm) (record w { dm = update_cnt w.dm }) >>= λ x.
          some (update_user x))
  unfolding known_recording recommend update_cnt
  recording_enabled set devi w on = rw (on, known_recording, recommend) (ground arith)

  align_world :
      (set : Setting D Net) (devi : CustomerPackage D) (w w' : World D UDb SDb Net)
      → align set devi (update_cnt w.dm) (record w { dm = update_cnt w.dm }) ≡ some w'
      → Observes
          (fl.gt (compute_sloppy w.dm w.ori) set.config.loc_err_threshold)
          w'.ori
          w
          (update_user w')
  unfolding align check_sloppy add_to_self update_user update_cnt set_recommend update_sloppy_cnt
      set_have_sloppy compute_sloppy
  align_world set devi w w' e =
      let w0 = record w { dm = set_recommend (update_cnt w.dm) } in
      let ((id, w1), e1, f1) = >>=-eq-some (log_in set w0) _ e in
      let (w2, e2, f2) = >>=-eq-some (post_gla set devi (update_cnt w.dm) id w1) _ f1 in
      ground (
        arith,
        f2,
        log_in-global_id set w0 w1 id e1,
        post_gla_world set devi (update_cnt w.dm) id w1 w2 e2,
      )

  seed_world :
      (set : Setting D Net) (w w' : World D UDb SDb Net)
      → let w0 = record w { dm = update_cnt w.dm; ori = update_cnt w.ori } in
        seed set w0.dm w0 ≡ some w'
        → Observes
            (fl.gt (compute_sloppy w.dm w.ori) set.config.loc_err_threshold)
            w'.ori
            w
            (update_user w')
  unfolding seed check_sloppy add_to_self update_user update_cnt update_sloppy_cnt set_have_sloppy
      compute_sloppy
  seed_world set w w' e =
      let w0 = record w { dm = update_cnt w.dm; ori = update_cnt w.ori } in
      let ((id, w1), e1, f1) = >>=-eq-some (log_in set w0) _ e in
      let (w2, e2, f2) = >>=-eq-some (set_seed set w0.dm id w1) _ f1 in
      ground (arith, f2, log_in-global_id set w0 w1 id e1, set_seed_world set w0.dm id w1 w2 e2)

  pub localization_enabled :
      (set : Setting D Net) (w : World D UDb SDb Net)
      → w.dm.enable ≡ true
      → let w0 = record w { dm = update_cnt w.dm; ori = update_cnt w.ori } in
        known_localization set w ≡ (seed set w0.dm w0 >>= λ x. some (update_user x))
  unfolding known_localization recommend update_cnt
  localization_enabled set w on = rw (on, known_localization, recommend) (ground arith)

  Observes-update_user :
      (far : Bool) (w v w' : World D UDb SDb Net)
      → some (update_user v) ≡ some w'
      → Observes far v.ori w (update_user v)
      → Observes far w'.ori w w'
  unfolding update_user
  Observes-update_user far w v w' e o =
      subst (λ (x : World D UDb SDb Net). Observes far x.ori w x) (some-injective _ _ e) o

  -- A code that is known and enabled, in either mode, if the program does not end in the round: its
  -- pose stays and its count goes up by one. The count of sloppy sightings goes up by one, and the
  -- diagnostic message for it is sent, exactly if the distance of the sighting from the pose is over
  -- the threshold. Two numbers are used up, for the log-in and for the request; the row of the code
  -- is updated; and one row goes to the self database.
  pub known_enabled :
      (set : Setting D Net) (devi : CustomerPackage D) (w w' : World D UDb SDb Net)
      → w.dm.enable ≡ true
      → (known_recording set devi w ≡ some w') ⊎ (known_localization set w ≡ some w')
      → Observes (fl.gt (compute_sloppy w.dm w.ori) set.config.loc_err_threshold) w'.ori w w'
  known_enabled set devi w w' on (inl e) =
      let (v, f, g) =
        >>=-eq-some _ (λ x. some (update_user x)) (sym (recording_enabled set devi w on) ∙ e) in
      Observes-update_user _ w v w' g (align_world set devi w v f)
  known_enabled set devi w w' on (inr e) =
      let (v, f, g) =
        >>=-eq-some _ (λ x. some (update_user x)) (sym (localization_enabled set w on) ∙ e) in
      Observes-update_user _ w v w' g (seed_world set w v f)
