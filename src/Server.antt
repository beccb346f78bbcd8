-- ===== src/Server.antt =====
-- The two servers of src/thread_pool.cpp: the socket that `diagSocket` and `recCustomerPack` set up
-- with the same calls, and the loop of `diagSocket` beside `sendDiagMessage`.
pub mod Setup
pub mod Deliveries
mod Tests
use Prim.Native.String.{String}
use rokit_locator_qr_addon.Base.{ℕ, Bool, true, false, List, [], ◌∷◌, ◌++◌, if◌then◌else◌, ◌||◌}
use rokit_locator_qr_addon.Base.Int.{ℤ, pos, ltb_ℤ}
use rokit_locator_qr_addon.Backup.Text.{to_string}
use rokit_locator_qr_addon.Rpc.Json.{codes}
use rokit_locator_qr_addon.Main.Diag.{Diagnostics, send_diag_message}

-- The results of the calls: `socket`, the two of `setsockopt`, `bind` and `listen`.
pub record Calls : Type 0 where
  pub fd : ℤ
  pub keep_alive : ℤ
  pub send_timeout : ℤ
  pub bind : ℤ
  pub listen : ℤ

-- The server listens on a port; or the program exits, with what it has written to the log, and
-- whether it has closed the socket.
pub data Outcome : Type 0 where
  listens : ℤ → ℕ → Outcome
  exits : List (List ℕ) → Bool → Outcome

-- `rc != 0`.
pub is_error : ℤ → Bool
is_error rc = ltb_ℤ rc (pos 0) || ltb_ℤ (pos 0) rc

-- The text of the log for `bind` and the port are those of the caller.
pub set_up : String → ℕ → Calls → Outcome
unfolding is_error
set_up bind_text port c =
    if ltb_ℤ c.fd (pos 0)
    then exits (codes "runtime error:socket create fail!" ∷ []) false
    else if is_error c.keep_alive
    then exits (codes "runtime error:socket set alive fail!" ∷ []) false
    else if is_error c.send_timeout
    then exits (codes "runtime error:socket set timeout fail!" ∷ []) true
    else if is_error c.bind
    then exits (codes bind_text ∷ to_string c.bind ∷ []) true
    else if is_error c.listen
    then exits (codes "runtime error:socket listen fail!" ∷ []) true
    else listens c.fd port

pub diag_socket : Calls → Outcome
diag_socket c = set_up "runtime error:diag socket bind fail!" 9081 c

pub rec_customer_socket : Calls → Outcome
rec_customer_socket c = set_up "runtime error:receive Customer socket bind fail!" 9080 c

-- What happens at the diagnostics server once it listens: a result of `accept` in its loop, and a
-- message that the main loop sends.
pub data DiagEvent : Type 0 where
  accepted : ℤ → DiagEvent
  sends : ℕ → DiagEvent

-- A negative result of `accept` goes to the log, after it has been stored.
pub diag_event : Diagnostics → DiagEvent → Diagnostics
unfolding send_diag_message
diag_event d (accepted fd) = record d { diag_sock_fd = fd }
diag_event d (sends message) = send_diag_message message d

pub diag_events : Diagnostics → List DiagEvent → Diagnostics
unfolding diag_event
diag_events d [] = d
diag_events d (e ∷ events) = diag_events (diag_event d e) events
