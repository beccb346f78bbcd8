-- ===== src/Main/Round/Keeps.antt =====
-- What the stages of a round of src/main_logic.cpp leave alone.
use rokit_locator_qr_addon.Base.{
  ℕ, ◌+◌, ◌%◌, ◌≡◌, refl, ◌∙◌, Bool, true, false, Option, some, arith, ap, subst,
}
use mathlib.Core.Option.{some-injective}
use rokit_locator_qr_addon.Base.{>>=-eq-some}
use rokit_locator_qr_addon.Double.{Double}
use rokit_locator_qr_addon.Dm.{
  DmInfo, Config, CustomerPackage, update_cnt, update_sloppy_cnt, set_recommend, u64,
}
use rokit_locator_qr_addon.Db.{Sqlite}
use rokit_locator_qr_addon.Db.User.{Row, update_data_base}
use rokit_locator_qr_addon.Db.Self.{SelfRow, fit_pose}
use rokit_locator_qr_addon.Main.{
  World, Setting, add_to_self, recommend, check_sloppy, log_in, post_gla, set_seed, update_user,
}
use rokit_locator_qr_addon.Main.Round.{align, seed, known_recording, known_localization}

-- From `w` to `w'` the user database stays as it is, and so do the id of the code, its count and
-- whether it is enabled.
pub record Keeps {D UDb SDb Net : Type 0} (w w' : World D UDb SDb Net) : Type 0 where
  pub user : w'.user ≡ w.user
  pub id : w'.dm.id ≡ w.dm.id
  pub cnt : w'.dm.cnt ≡ w.dm.cnt
  pub enable : w'.dm.enable ≡ w.dm.enable

module _ {D UDb SDb Net : Type 0} ⦃fl : Double D⦄ ⦃user_sqlite : Sqlite (Row D) UDb⦄
    ⦃self_sqlite : Sqlite (SelfRow D) SDb⦄ where
  recommend-Keeps :
      (n : ℕ) (info : DmInfo D) (w : World D UDb SDb Net) → Keeps w (recommend n info w)
  unfolding recommend fit_pose set_recommend
  recommend-Keeps n info w = ground arith

  check_sloppy-Keeps :
      (config : Config D) (w : World D UDb SDb Net) → Keeps w (check_sloppy config w)
  unfolding check_sloppy update_sloppy_cnt
  check_sloppy-Keeps config w = ground arith

  log_in-Keeps :
      (set : Setting D Net) (w : World D UDb SDb Net) (id : ℕ) (w' : World D UDb SDb Net)
      → log_in set w ≡ some (id, w')
      → Keeps w w' × (w'.dm ≡ w.dm)
  unfolding log_in
  log_in-Keeps set w id w' e = ground arith

  post_gla-Keeps :
      (set : Setting D Net) (devi : CustomerPackage D) (info : DmInfo D) (id : ℕ)
      (w w' : World D UDb SDb Net)
      → post_gla set devi info id w ≡ some w'
      → Keeps w w'
  unfolding post_gla
  post_gla-Keeps set devi info id w w' e = ground arith

  set_seed-Keeps :
      (set : Setting D Net) (info : DmInfo D) (id : ℕ) (w w' : World D UDb SDb Net)
      → set_seed set info id w ≡ some w'
      → Keeps w w'
  unfolding set_seed
  set_seed-Keeps set info id w w' e = ground arith

  Keeps-trans : {u v w : World D UDb SDb Net} → Keeps u v → Keeps v w → Keeps u w
  Keeps-trans h k = record {
    user = k.user ∙ h.user;
    id = k.id ∙ h.id;
    cnt = k.cnt ∙ h.cnt;
    enable = k.enable ∙ h.enable;
  }

-- From `w` to `w'` the count of the code goes up by one, its id and whether it is enabled stay, and
-- the code that is then there goes to the user database in one update.
pub record Updates {D UDb SDb Net : Type 0} ⦃fl : Double D⦄ ⦃user_sqlite : Sqlite (Row D) UDb⦄
    (w w' : World D UDb SDb Net) : Type 0 where
  pub user : w'.user ≡ update_data_base w'.dm w.user
  pub id : w'.dm.id ≡ w.dm.id
  pub cnt : w'.dm.cnt ≡ (w.dm.cnt + 1) % u64
  pub enable : w'.dm.enable ≡ w.dm.enable

module _ {D UDb SDb Net : Type 0} ⦃fl : Double D⦄ ⦃user_sqlite : Sqlite (Row D) UDb⦄
    ⦃self_sqlite : Sqlite (SelfRow D) SDb⦄ where
  counted : World D UDb SDb Net → World D UDb SDb Net
  counted w = record w { dm = update_cnt w.dm }

  update_user-Updates :
      (w v : World D UDb SDb Net) → Keeps (counted w) v → Updates w (update_user v)
  unfolding update_user counted update_cnt
  update_user-Updates w v k = record {
    user = ap (update_data_base v.dm) k.user;
    id = k.id;
    cnt = k.cnt;
    enable = k.enable;
  }

  align-Keeps :
      (set : Setting D Net) (devi : CustomerPackage D) (info : DmInfo D)
      (w w' : World D UDb SDb Net)
      → align set devi info w ≡ some w'
      → Keeps w w'
  unfolding align add_to_self set_recommend
  align-Keeps set devi info w w' e =
      let ((id, w1), e1, f1) =
        >>=-eq-some (log_in set (record w { dm = set_recommend w.dm })) _ e in
      let (w2, e2, f2) = >>=-eq-some (post_gla set devi info id w1) _ f1 in
      ground (
        arith,
        log_in-Keeps set (record w { dm = set_recommend w.dm }) id w1 e1,
        post_gla-Keeps set devi info id w1 w2 e2,
        check_sloppy-Keeps set.config w2,
        f2,
      )

  seed-Keeps :
      (set : Setting D Net) (info : DmInfo D) (w w' : World D UDb SDb Net)
      → seed set info w ≡ some w'
      → Keeps w w'
  unfolding seed add_to_self
  seed-Keeps set info w w' e =
      let ((id, w1), e1, f1) = >>=-eq-some (log_in set w) _ e in
      let (w2, e2, f2) = >>=-eq-some (set_seed set info id w1) _ f1 in
      ground (
        arith,
        log_in-Keeps set w id w1 e1,
        set_seed-Keeps set info id w1 w2 e2,
        check_sloppy-Keeps set.config w2,
        f2,
      )

  Keeps-refl : (w : World D UDb SDb Net) → Keeps w w
  Keeps-refl w = record { user = refl; id = refl; cnt = refl; enable = refl }

  branch-Keeps :
      (b : Bool) (m : Option (World D UDb SDb Net)) (u v : World D UDb SDb Net)
      → ((x : World D UDb SDb Net) → m ≡ some x → Keeps u x)
      → (elim b [ true ↦ m | false ↦ some u ]) ≡ some v
      → Keeps u v
  branch-Keeps true m u v h e = h v e
  branch-Keeps false m u v h e = subst (Keeps u) (some-injective _ _ e) (Keeps-refl u)

  -- A code that the user database has is counted and updated, in recording mode.
  pub known_recording-Updates :
      (set : Setting D Net) (devi : CustomerPackage D) (w w' : World D UDb SDb Net)
      → known_recording set devi w ≡ some w'
      → Updates w w'
  unfolding known_recording counted
  known_recording-Updates set devi w w' e =
      let info = (counted w).dm in
      let w2 = recommend set.config.mapp_repeat_num info (counted w) in
      let (v, f, g) = >>=-eq-some _ (λ x. some (update_user x)) e in
      subst (Updates w) (some-injective _ _ g) (
        update_user-Updates w v (
          Keeps-trans (recommend-Keeps set.config.mapp_repeat_num info (counted w))
            (branch-Keeps info.enable _ w2 v (align-Keeps set devi info w2) f)))

  -- So it is in localization mode.
  pub known_localization-Updates :
      (set : Setting D Net) (w w' : World D UDb SDb Net)
      → known_localization set w ≡ some w'
      → Updates w w'
  unfolding known_localization counted
  known_localization-Updates set w w' e =
      let w1 = record (counted w) { ori = update_cnt w.ori } in
      let (v, f, g) =
        >>=-eq-some _ (λ x. some (update_user (recommend set.config.loc_repeat_num w1.dm x))) e in
      let keeps = branch-Keeps w1.dm.enable _ w1 v (seed-Keeps set w1.dm w1) f in
      subst (Updates w) (some-injective _ _ g) (
        update_user-Updates w _ (
          Keeps-trans {u = counted w}
            (record { user = keeps.user; id = keeps.id; cnt = keeps.cnt; enable = keeps.enable })
            (recommend-Keeps set.config.loc_repeat_num w1.dm v)))
