-- ===== src/Server/Setup.antt =====
-- When the servers of src/thread_pool.cpp listen, and what is left when they do not.
use Prim.Native.String.{String}
use rokit_locator_qr_addon.Base.{ℕ, ◌≡◌, ◌↔◌, Bool, true, false, List, [], arith}
use rokit_locator_qr_addon.Base.Int.{ℤ, pos, ltb_ℤ}
use rokit_locator_qr_addon.Server.{Calls, Outcome, listens, exits, is_error, set_up}

-- All five calls succeed.
pub record Succeeds (c : Calls) : Type 0 where
  pub fd : ltb_ℤ c.fd (pos 0) ≡ false
  pub keep_alive : c.keep_alive ≡ pos 0
  pub send_timeout : c.send_timeout ≡ pos 0
  pub bind : c.bind ≡ pos 0
  pub listen : c.listen ≡ pos 0

is_error_iff : (rc : ℤ) → (is_error rc ≡ false) ↔ (rc ≡ pos 0)
unfolding is_error
is_error_iff rc = ground arith

-- What the outcome leaves in the log, and whether it closes the socket.
abbrev pub log_of : Outcome → List (List ℕ)
log_of (listens fd port) = []
log_of (exits log closed) = log

abbrev pub closes : Outcome → Bool
closes (listens fd port) = false
closes (exits log closed) = closed

-- The server listens on its port exactly if all five calls succeed, and there is nothing in its log
-- exactly then. It closes the socket exactly if there is one, the first of its options was set, and
-- one of the other three calls fails.
pub set_up_lem :
    (bind_text : String) (port : ℕ) (c : Calls)
    → ((set_up bind_text port c ≡ listens c.fd port) ↔ Succeeds c)
      × ((log_of (set_up bind_text port c) ≡ []) ↔ Succeeds c)
      × ((closes (set_up bind_text port c) ≡ true)
          ↔ ((ltb_ℤ c.fd (pos 0) ≡ false) × (c.keep_alive ≡ pos 0) × ¬ Succeeds c))
unfolding set_up
set_up_lem bind_text port c =
    let a = is_error_iff c.keep_alive in
    let b = is_error_iff c.send_timeout in
    let d = is_error_iff c.bind in
    let e = is_error_iff c.listen in
    (ground (arith, a, b, d, e), ground (arith, a, b, d, e), ground (arith, a, b, d, e))
