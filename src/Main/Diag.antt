-- ===== src/Main/Diag.antt =====
-- `ThreadHandler::sendDiagMessage` of src/thread_pool.cpp, and the messages that src/main_logic.cpp
-- makes with a `std::bitset`.
use rokit_locator_qr_addon.Base.{ℕ, ◌^◌, List, [], ◌∷◌, ◌++◌, if◌then◌else◌}
use rokit_locator_qr_addon.Base.Int.{ℤ, pos, ltb_ℤ}

-- The socket of the client, set by `diagSocket`, and the messages that were handed to `send`, each with
-- the socket. An error of `send` goes to the log.
pub record Diagnostics : Type 0 where
  pub diag_sock_fd : ℤ
  pub sent : List (ℤ × ℕ)

unfoldable pub send_diag_message : ℕ → Diagnostics → Diagnostics
send_diag_message qr_diagnostics d =
    if ltb_ℤ (pos 0) d.diag_sock_fd
    then record d { sent = d.sent ++ ((d.diag_sock_fd, qr_diagnostics) ∷ []) }
    else d

-- `binBit.reset(); binBit.set(i)`: a code that the user database does not have, and a pose that is
-- too far from the one in the database.
abbrev pub qr_unknown : ℕ
qr_unknown = 2 ^ 0

abbrev pub qr_sloppy : ℕ
qr_sloppy = 2 ^ 2
