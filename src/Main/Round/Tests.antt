-- ===== src/Main/Round/Tests.antt =====
-- Rounds of the main loop of src/main_logic.cpp with a small table, and a server that answers each
-- request.
use rokit_locator_qr_addon.Base.{
  ℕ, ◌^◌, ◌<◌, ◌≡◌, inl, refl, true, false, Option, none, some, [], ◌∷◌, arith,
}
use rokit_locator_qr_addon.Base.Int.{ℤ, pos}
use rokit_locator_qr_addon.Double.Whole.{whole}
use rokit_locator_qr_addon.Dm.{update_cnt, update_sloppy_cnt, set_recommend, compute_sloppy}
use rokit_locator_qr_addon.Mode.{recording, localization}
use rokit_locator_qr_addon.Db.{lookup, matching, meaning}
use rokit_locator_qr_addon.Db.Memory.{
  memory, UserTable, SelfTable, user_memory, self_memory, user_contents, user_memory-IsSqlite,
  user_memory-IsReliable,
}
use rokit_locator_qr_addon.Db.User.{Row, UserDb, to_row, retrieve_usr_db, update_data_base}
use rokit_locator_qr_addon.Db.User
use rokit_locator_qr_addon.Db.Self.{SelfRow}
use rokit_locator_qr_addon.Db.Self
use rokit_locator_qr_addon.Rpc.Json.{has_member, get_member, get_uint64, get_string, get_int64}
use rokit_locator_qr_addon.Rpc.Replies.{write_cb_all, parse_response_gla}
use rokit_locator_qr_addon.Rpc.Session.{get_session_id}
use rokit_locator_qr_addon.Main.{
  World, log_in, post_gla, add_to_self, check_sloppy, update_user, recommend,
}
use rokit_locator_qr_addon.Main.Diag.{send_diag_message}
use rokit_locator_qr_addon.Main.Round.{known_recording, handle_recording, main_round}
use rokit_locator_qr_addon.Main.Round.Counts.{cnt_of}
use rokit_locator_qr_addon.Main.Round.Sees.{Sees, main_round-Sees}
use rokit_locator_qr_addon.Main.Round.Enabled.{Observes, known_enabled}
use rokit_locator_qr_addon.Main.Sample.{
  code, row, devi, set, world, world-IsOpen, server-IsAnswering,
}
use rokit_locator_qr_addon.Main.Round.Ends.{main_round-ends}

-- The world after, if the round ends.
abbrev after : {A : Type 0} → A → Option A → A
after w none = w
after w (some w') = w'

abbrev after_round : World ℤ UserTable SelfTable ℕ
after_round =
    after (world (code 7 false)) (main_round 0 set devi recording recording (world (code 7 false)))

round_ends : main_round 0 set devi recording recording (world (code 7 false)) ≡ some after_round
unfolding main_round memory handle_recording retrieve_usr_db matching update_cnt log_in
    get_session_id has_member get_member get_uint64 get_string post_gla write_cb_all
    parse_response_gla get_int64
round_ends = refl

-- The code is at another place than in the table: its count and that of its sloppy sightings go up,
-- and the pose in the table stays.
round_runs :
    after_round.user.db.rows ≡ record row { dm_cnt = 5; sloppy_cnt = 1; recommend = true } ∷ []
unfolding main_round memory handle_recording retrieve_usr_db matching update_cnt log_in
    get_session_id has_member get_member get_uint64 get_string post_gla write_cb_all
    parse_response_gla get_int64 add_to_self check_sloppy update_user update_data_base to_row
    meaning set_recommend update_sloppy_cnt compute_sloppy send_diag_message recommend
round_runs = refl

seen_before : cnt_of (lookup User.schema 7 (row ∷ [])) < 2 ^ 31
unfolding lookup
seen_before = omega arith

main_round-Sees_example : Sees user_contents (world (code 7 false)) after_round
main_round-Sees_example =
    main_round-Sees user_memory-IsSqlite user_memory-IsReliable 0 set devi recording
      (world (code 7 false)) after_round (inl refl) world-IsOpen (λ e. omega arith) (omega arith)
      seen_before round_ends

abbrev after_known : World ℤ UserTable SelfTable ℕ
after_known = after (world (code 7 true)) (known_recording set devi (world (code 7 true)))

known_ends : known_recording set devi (world (code 7 true)) ≡ some after_known
unfolding known_recording update_cnt log_in get_session_id has_member get_member get_uint64
    get_string post_gla write_cb_all parse_response_gla get_int64
known_ends = refl

known_enabled_example :
    Observes
      (whole.gt (compute_sloppy (code 7 true) (code 7 false)) (pos 2))
      after_known.ori
      (world (code 7 true))
      after_known
known_enabled_example =
    known_enabled set devi (world (code 7 true)) after_known refl (inl known_ends)

main_round-ends_example :
    (w' : World ℤ UserTable SelfTable ℕ) × (main_round 0 set devi recording localization
        (world (code 7 true))
      ≡ some w')
main_round-ends_example =
    main_round-ends set server-IsAnswering 0 devi recording localization (world (code 7 true))
