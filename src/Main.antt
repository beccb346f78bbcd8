-- ===== src/Main.antt =====
-- The main loop of src/main_logic.cpp: what it does with one sighting of a code, after `dmTrigger`
-- has returned.
pub mod Diag
pub mod Round
pub mod Loop
pub mod Start
pub mod Program
pub mod Sample
use rokit_locator_qr_addon.Base.{
  ℕ, Bool, true, false, not, ◌&&◌, Option, none, some, List, [], ◌∷◌, ◌==◌, if◌then◌else◌,
}
use rokit_locator_qr_addon.Base.Int.{ℤ}
use rokit_locator_qr_addon.Base.{◌>>=◌}
use rokit_locator_qr_addon.Double.{Double}
use rokit_locator_qr_addon.Dm.{
  DmInfo, Config, CustomerPackage, update_cnt, update_sloppy_cnt, set_recommend, set_have_sloppy,
  clear_remaining_info, compute_sloppy,
}
use rokit_locator_qr_addon.Mode.{recording, localization}
use rokit_locator_qr_addon.Db.{Sqlite}
use rokit_locator_qr_addon.Db.User.{Row, UserDb, retrieve_usr_db, update_data_base}
use rokit_locator_qr_addon.Db.User
use rokit_locator_qr_addon.Db.Self.{SelfRow, fit_pose}
use rokit_locator_qr_addon.Db.Self
use rokit_locator_qr_addon.Rpc.{RpcInfo, Account}
use rokit_locator_qr_addon.Rpc.Json.{codes}
use rokit_locator_qr_addon.Rpc.Requests.{write_json_gla, write_json_set_seed}
use rokit_locator_qr_addon.Rpc.Replies.{write_cb_all, parse_response_gla, parse_response_sets}
use rokit_locator_qr_addon.Rpc.Session.{Http, Session, next_id, get_session_id}
use Diag.{Diagnostics, send_diag_message, qr_unknown, qr_sloppy}

-- The variables of `main`: the codes behind `dmPtr` and `oriTriggerDmPtr`, the databases, the
-- session with the server, the diagnostics, and what `dmTrigger` has stored.
pub record World (D UDb SDb Net : Type 0) : Type 0 where
  pub dm : DmInfo D
  pub ori : DmInfo D
  pub user : UserDb UDb
  pub self_db : SDb
  pub session : Session Net
  pub diag : Diagnostics
  pub loc_stat : ℤ
  pub rokit_pose : DmInfo D

-- What does not change while the loop runs.
pub record Setting (D Net : Type 0) : Type 0 where
  pub config : Config D
  pub account : Account
  pub http : Http D Net

module _ {D UDb SDb Net : Type 0} ⦃fl : Double D⦄ ⦃user_sqlite : Sqlite (Row D) UDb⦄
    ⦃self_sqlite : Sqlite (SelfRow D) SDb⦄ where
  add_to_self : World D UDb SDb Net → World D UDb SDb Net
  add_to_self w = record w { self_db = Self.add_content w.ori w.self_db }

  fit : ℕ → World D UDb SDb Net → World D UDb SDb Net
  fit repeat_num w =
      let (dm, self_db) = fit_pose repeat_num w.dm w.self_db in
      record w { dm = dm; self_db = self_db }

  -- `info` is `*dmInfoPtr`, the code after `updateCnt`. The two branches for a code that is not
  -- enabled, with the number of sightings after which its pose is recommended.
  recommend : ℕ → DmInfo D → World D UDb SDb Net → World D UDb SDb Net
  unfolding add_to_self fit
  recommend repeat_num info w =
      if info.cnt == repeat_num && not info.enable
      then fit repeat_num
          (add_to_self (record w { dm = set_recommend w.dm; ori = set_recommend w.ori }))
      else if not info.enable
      then add_to_self w
      else w

  -- The test of the distance, which both modes make in the same words.
  check_sloppy : Config D → World D UDb SDb Net → World D UDb SDb Net
  check_sloppy config w =
      if fl.gt (compute_sloppy w.dm w.ori) config.loc_err_threshold
      then record w {
        dm = update_sloppy_cnt w.dm;
        ori = set_have_sloppy (update_sloppy_cnt w.ori);
        diag = send_diag_message qr_sloppy w.diag;
      }
      else w

  -- A new session, and the id of the request that follows; `none` if the program has ended.
  log_in : Setting D Net → World D UDb SDb Net → Option (ℕ × World D UDb SDb Net)
  log_in set w = do
    session ← get_session_id set.http set.account w.session
    some (
      session.global_id,
      record w { session = record session { global_id = next_id session.global_id } },
    )

  -- `postCurl` of the client for the global alignment.
  post_gla :
      Setting D Net
      → CustomerPackage D
      → DmInfo D
      → ℕ
      → World D UDb SDb Net
      → Option (World D UDb SDb Net)
  post_gla set devi info id w = do
    let rpc : RpcInfo = record { method = codes "clientGlobalAlignAddObservation"; id = id }
    let (pieces, net) =
        set.http.post (write_json_gla rpc info set.config devi w.session.session_id) w.session.net
    reports ← write_cb_all parse_response_gla pieces
    some (record w { session = record w.session { net = net } })

  -- `setSeed` of the client for the seed.
  set_seed : Setting D Net → DmInfo D → ℕ → World D UDb SDb Net → Option (World D UDb SDb Net)
  set_seed set info id w = do
    let rpc : RpcInfo = record { method = codes "clientLocalizationSetSeed"; id = id }
    let (pieces, net) =
        set.http.post
          (write_json_set_seed rpc info w.loc_stat w.rokit_pose set.config w.session.session_id)
          w.session.net
    reports ← write_cb_all parse_response_sets pieces
    some (record w { session = record w.session { net = net } })

  pub update_user : World D UDb SDb Net → World D UDb SDb Net
  update_user w = record w { user = update_data_base w.dm w.user }
