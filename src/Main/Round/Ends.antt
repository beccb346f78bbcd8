-- ===== src/Main/Round/Ends.antt =====
-- When a round of src/main_logic.cpp comes to its end.
use rokit_locator_qr_addon.Base.{
  ℕ, ◌≡◌, refl, ◌==◌, inl, inr, Bool, true, false, Option, some, List, [], is_some, Bool-cases,
  if◌then◌else◌,
}
use rokit_locator_qr_addon.Base.Int.{ℤ}
use rokit_locator_qr_addon.Base.{>>=-is_some, is_some-some}
use rokit_locator_qr_addon.Double.{Double}
use rokit_locator_qr_addon.Dm.{DmInfo, Config, CustomerPackage}
use rokit_locator_qr_addon.Mode.{recording, localization}
use rokit_locator_qr_addon.Db.{Sqlite}
use rokit_locator_qr_addon.Db.User.{Row, retrieve_usr_db}
use rokit_locator_qr_addon.Db.Self.{SelfRow}
use rokit_locator_qr_addon.Rpc.{Account}
use rokit_locator_qr_addon.Rpc.Json.{codes}
use rokit_locator_qr_addon.Rpc.Requests.{write_json_gla, write_json_set_seed, write_json_log_in}
use rokit_locator_qr_addon.Rpc.Replies.{
  write_cb_all, write_cb_log_in, parse_response_gla, parse_response_sets,
}
use rokit_locator_qr_addon.Rpc.Session.{Http, get_session_id}
use rokit_locator_qr_addon.Main.{World, Setting, log_in, post_gla, set_seed}
use rokit_locator_qr_addon.Main.Round.{
  align, seed, known_recording, known_localization, unknown_recording, unknown_localization,
  retrieve_or, handle_recording, handle_localization, main_round,
}
use rokit_locator_qr_addon.Main.Round.Branches.{
  known_recording_disabled, known_localization_disabled,
}
use rokit_locator_qr_addon.Main.Round.Enabled.{recording_enabled, localization_enabled}

-- A server whose replies to the three requests have what the clients read in them.
pub record IsAnswering {D Net : Type 0} ⦃fl : Double D⦄ (http : Http D Net) : Type 0 where
  pub logs_in :
      (id : ℕ) (account : Account) (net : Net)
      → is_some (
          write_cb_log_in []
            (http.post
              (write_json_log_in (record { method = codes "sessionLogin"; id = id }) account)
              net).0)
        ≡ true
  pub observes :
      (id : ℕ) (info : DmInfo D) (config : Config D) (devi : CustomerPackage D)
      (session_id : List ℕ) (net : Net)
      → is_some (
          write_cb_all parse_response_gla
            (http.post
              (write_json_gla
                (record { method = codes "clientGlobalAlignAddObservation"; id = id })
                info
                config
                devi
                session_id)
              net).0)
        ≡ true
  pub seeds :
      (id : ℕ) (info : DmInfo D) (loc_stat : ℤ) (rokit_pose : DmInfo D) (config : Config D)
      (session_id : List ℕ) (net : Net)
      → is_some (
          write_cb_all parse_response_sets
            (http.post
              (write_json_set_seed
                (record { method = codes "clientLocalizationSetSeed"; id = id })
                info
                loc_stat
                rokit_pose
                config
                session_id)
              net).0)
        ≡ true

module _ {D UDb SDb Net : Type 0} ⦃fl : Double D⦄ ⦃user_sqlite : Sqlite (Row D) UDb⦄
    ⦃self_sqlite : Sqlite (SelfRow D) SDb⦄ (set : Setting D Net)
    (answering : IsAnswering set.http) where
  log_in-ends : (w : World D UDb SDb Net) → is_some (log_in set w) ≡ true
  unfolding log_in get_session_id
  log_in-ends w =
      >>=-is_some _ _
        (>>=-is_some _ _ (answering.logs_in w.session.global_id set.account w.session.net)
          (λ s. refl))
        (λ s. refl)

  post_gla-ends :
      (devi : CustomerPackage D) (info : DmInfo D) (id : ℕ) (w : World D UDb SDb Net)
      → is_some (post_gla set devi info id w) ≡ true
  unfolding post_gla
  post_gla-ends devi info id w =
      >>=-is_some _ _
        (answering.observes id info set.config devi w.session.session_id w.session.net) (λ r. refl)

  set_seed-ends :
      (info : DmInfo D) (id : ℕ) (w : World D UDb SDb Net) → is_some (set_seed set info id w) ≡ true
  unfolding set_seed
  set_seed-ends info id w =
      >>=-is_some _ _
        (answering.seeds id info w.loc_stat w.rokit_pose set.config w.session.session_id
          w.session.net)
        (λ r. refl)

  align-ends :
      (devi : CustomerPackage D) (info : DmInfo D) (w : World D UDb SDb Net)
      → is_some (align set devi info w) ≡ true
  unfolding align
  align-ends devi info w =
      >>=-is_some _ _ (log_in-ends _)
        (λ p. >>=-is_some _ _ (post_gla-ends devi info p.0 p.1) (λ v. refl))

  seed-ends : (info : DmInfo D) (w : World D UDb SDb Net) → is_some (seed set info w) ≡ true
  unfolding seed
  seed-ends info w =
      >>=-is_some _ _ (log_in-ends w)
        (λ p. >>=-is_some _ _ (set_seed-ends info p.0 p.1) (λ v. refl))

  known_recording-ends :
      (devi : CustomerPackage D) (w : World D UDb SDb Net)
      → is_some (known_recording set devi w) ≡ true
  known_recording-ends devi w = elim (Bool-cases w.dm.enable) [
    | inl on ↦
        rw (recording_enabled set devi w on) (>>=-is_some _ _ (align-ends devi _ _) (λ v. refl))
    | inr off ↦ rw (known_recording_disabled set devi w off)
  ]

  known_localization-ends : (w : World D UDb SDb Net) → is_some (known_localization set w) ≡ true
  known_localization-ends w = elim (Bool-cases w.dm.enable) [
    | inl on ↦ rw (localization_enabled set w on) (>>=-is_some _ _ (seed-ends _ _) (λ v. refl))
    | inr off ↦ rw (known_localization_disabled set w off)
  ]

  retrieve_or-ends :
      (garbage : ℕ) (known : World D UDb SDb Net → Option (World D UDb SDb Net))
      (unknown : World D UDb SDb Net → World D UDb SDb Net) (w : World D UDb SDb Net)
      → ((v : World D UDb SDb Net) → is_some (known v) ≡ true)
      → is_some (retrieve_or garbage known unknown w) ≡ true
  unfolding retrieve_or
  retrieve_or-ends garbage known unknown w h =
      elim (Bool-cases (retrieve_usr_db garbage w.dm w.user).0) [
        | inl found ↦ rw (found, retrieve_or) (h _)
        | inr lost ↦ rw (lost, retrieve_or)
      ]

  handle_recording-ends :
      (garbage : ℕ) (devi : CustomerPackage D) (w : World D UDb SDb Net)
      → is_some (handle_recording garbage set devi w) ≡ true
  unfolding handle_recording
  handle_recording-ends garbage devi w =
      retrieve_or-ends garbage _ unknown_recording w (known_recording-ends devi)

  handle_localization-ends :
      (garbage : ℕ) (w : World D UDb SDb Net) → is_some (handle_localization garbage set w) ≡ true
  unfolding handle_localization
  handle_localization-ends garbage w =
      retrieve_or-ends garbage _ unknown_localization w known_localization-ends

  branch-ends :
      (b : Bool) (m : Option (World D UDb SDb Net)) (w : World D UDb SDb Net)
      → is_some m ≡ true
      → is_some (if b then m else some w) ≡ true
  branch-ends true m w h = h
  branch-ends false m w h = refl

  -- If the replies of the server have what the clients read in them, a round comes to its end,
  -- whatever the mode, the code and the databases.
  pub main_round-ends :
      (garbage : ℕ) (devi : CustomerPackage D) (mode mode' : ℕ) (w : World D UDb SDb Net)
      → (w' : World D UDb SDb Net) × (main_round garbage set devi mode mode' w ≡ some w')
  unfolding main_round
  main_round-ends garbage devi mode mode' w = is_some-some _ (
      >>=-is_some _ _ (branch-ends (mode == recording) _ _ (handle_recording-ends garbage devi _))
        (λ v. branch-ends (mode' == localization) _ _ (handle_localization-ends garbage v)))
