-- ===== src/Server/Tests.antt =====
-- Runs of the servers of src/thread_pool.cpp.
use rokit_locator_qr_addon.Base.{◌≡◌, ◌↔◌, refl, true, false, List, [], ◌∷◌, ◌++◌, map}
use rokit_locator_qr_addon.Base.Int.{pos, negsuc, ltb_ℤ}
use rokit_locator_qr_addon.Backup.Text.{to_string}
use rokit_locator_qr_addon.Rpc.Json.{codes}
use rokit_locator_qr_addon.Main.Diag.{Diagnostics, send_diag_message}
use rokit_locator_qr_addon.Server.{
  Calls, listens, exits, set_up, diag_socket, DiagEvent, accepted, sends, diag_events, diag_event,
  is_error,
}
use rokit_locator_qr_addon.Server.Setup.{Succeeds, log_of, closes, set_up_lem}
use rokit_locator_qr_addon.Server.Deliveries.{addressed, diag_events_lem}

-- Another program has the port.
abbrev taken : Calls
taken = record {
  fd = pos 3;
  keep_alive = pos 0;
  send_timeout = pos 0;
  bind = negsuc 0;
  listen = pos 0;
}

taken_exits :
    diag_socket taken ≡ exits (codes "runtime error:diag socket bind fail!" ∷ codes "-1" ∷ []) true
unfolding diag_socket set_up is_error to_string
taken_exits = refl

abbrev idle : Diagnostics
idle = record { diag_sock_fd = negsuc 0; sent = [] }

-- The first message comes before a client; then one client follows another.
abbrev earlier : List DiagEvent
earlier = sends 4 ∷ accepted (pos 5) ∷ sends 1 ∷ []

diag_events_run :
    (diag_events idle (earlier ++ (accepted (pos 6) ∷ sends 4 ∷ []))).sent
    ≡ (pos 5, 1) ∷ (pos 6, 4) ∷ []
unfolding diag_events diag_event send_diag_message
diag_events_run = refl

set_up_lem_example :
    ((set_up "text" 9081 taken ≡ listens (pos 3) 9081) ↔ Succeeds taken)
    × ((log_of (set_up "text" 9081 taken) ≡ []) ↔ Succeeds taken)
    × ((closes (set_up "text" 9081 taken) ≡ true)
        ↔ ((ltb_ℤ (pos 3) (pos 0) ≡ false) × (pos 0 ≡ pos 0) × ¬ Succeeds taken))
set_up_lem_example = set_up_lem "text" 9081 taken

diag_events_lem_example :
    let after = diag_events idle (earlier ++ (accepted (pos 6) ∷ map sends (4 ∷ 1 ∷ []))) in
    (after.diag_sock_fd ≡ pos 6)
    × (after.sent ≡ (diag_events idle earlier).sent ++ addressed (pos 6) (4 ∷ 1 ∷ []))
diag_events_lem_example = diag_events_lem idle earlier (pos 6) (4 ∷ 1 ∷ [])
