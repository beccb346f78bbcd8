-- ===== src/Server/Deliveries.antt =====
-- Which client gets the diagnostic messages (src/thread_pool.cpp).
use mathlib.Core.List.{append_assoc, append-nil}
use rokit_locator_qr_addon.Base.{ℕ, ◌≡◌, refl, List, [], ◌∷◌, ◌++◌, map, if◌then◌else◌, arith}
use rokit_locator_qr_addon.Base.Int.{ℤ, pos, ltb_ℤ}
use rokit_locator_qr_addon.Main.Diag.{Diagnostics, send_diag_message}
use rokit_locator_qr_addon.Server.{DiagEvent, accepted, sends, diag_event, diag_events}

diag_events-append :
    (d : Diagnostics) (xs ys : List DiagEvent)
    → diag_events d (xs ++ ys) ≡ diag_events (diag_events d xs) ys
unfolding diag_events
diag_events-append d [] ys = refl
diag_events-append d (x ∷ xs) ys = diag_events-append (diag_event d x) xs ys

-- What a client gets of messages: nothing if the socket is not one.
abbrev pub addressed : ℤ → List ℕ → List (ℤ × ℕ)
addressed fd messages = if ltb_ℤ (pos 0) fd then map (λ m. (fd, m)) messages else []

diag_events-sends :
    (d : Diagnostics) (messages : List ℕ)
    → diag_events d (map sends messages)
      ≡ record d { sent = d.sent ++ addressed d.diag_sock_fd messages }
unfolding diag_events diag_event send_diag_message
diag_events-sends d [] = ground (arith, append-nil d.sent)
diag_events-sends d (m ∷ messages) = ground (
  arith,
  append-nil d.sent,
  diag_events-sends (send_diag_message m d) messages,
  append_assoc d.sent ((d.diag_sock_fd, m) ∷ []) (map (λ k. (d.diag_sock_fd, k)) messages),
)

-- Whatever has happened before, the messages that are sent between two results of `accept` go in their
-- order to the socket that the first of the two has brought, and to no other; none is sent if that
-- `accept` has failed, though a client of before may still be there.
pub diag_events_lem :
    (d : Diagnostics) (before : List DiagEvent) (fd : ℤ) (messages : List ℕ)
    → let after = diag_events d (before ++ (accepted fd ∷ map sends messages)) in
      (after.diag_sock_fd ≡ fd)
      × (after.sent ≡ (diag_events d before).sent ++ addressed fd messages)
unfolding diag_events diag_event
diag_events_lem d before fd messages =
    rw
      (
        diag_events-append d before (accepted fd ∷ map sends messages),
        diag_events-sends (record (diag_events d before) { diag_sock_fd = fd }) messages,
      )
      (refl, refl)
