-- ===== src/Binary/Connect.antt =====
-- `BinaryInterfaceClient::Connect` of include/binary_interface_client.h. What the operating system
-- does is an argument: whether the address resolves, and the result of each attempt. The pause of a
-- second before the attempts of all rounds but the first is left out, as is the output.
pub mod Rounds
pub mod Sample
mod Tests
use rokit_locator_qr_addon.Base.{
  ℕ, zero, suc, ◌+◌, Bool, true, false, ◌&&◌, Option, none, some, List, [], ◌∷◌,
}

-- The values of `errno` that the loop tells apart.
pub data Errno : Type 0 where
  timed_out net_unreachable refused other : Errno

-- An attempt at one address: `socket` fails, `connect` fails with an `errno`, or there is a handle.
pub data Attempt : Type 0 where
  no_socket : Attempt
  fails : Errno → Attempt
  opens : ℕ → Attempt

-- `Handle` (`none` for a negative one), whether `rc` is negative, and `Error`.
pub record Connecting : Type 0 where
  pub handle : Option ℕ
  pub is_failed : Bool
  pub error : Errno

-- The `for` loop over the addresses, which ends at the first one that connects.
pub walk : List Attempt → Connecting → Connecting
walk [] c = c
walk (no_socket ∷ attempts) c = walk attempts (record c { handle = none })
walk (fails e ∷ attempts) c =
    walk attempts (record c { handle = none; is_failed = true; error = e })
walk (opens h ∷ attempts) c = record c { handle = some h; is_failed = false }

pub is_temporary : Errno → Bool
is_temporary timed_out = true
is_temporary net_unreachable = true
is_temporary refused = true
is_temporary other = false

abbrev pub retry_attempts : ℕ
retry_attempts = 100

-- The `do` loop from round `index` on, with the number of rounds that may still follow; `attempts i`
-- are the attempts of round `i`.
pub connect_rounds : ℕ → ℕ → (ℕ → List Attempt) → Connecting → Connecting
unfolding walk is_temporary
connect_rounds zero index attempts c = walk (attempts index) c
connect_rounds (suc left) index attempts c =
    let c' = walk (attempts index) c in
    elim (c'.is_failed && is_temporary c'.error) [
      | true ↦ connect_rounds left (index + 1) attempts c'
      | false ↦ c'
    ]

-- What the operating system does: `getaddrinfo` with the `errno` after it, the attempts, and
-- `setsockopt` of TCP_NODELAY on a handle.
pub record Network : Type 0 where
  pub resolves : Bool
  pub errno : Errno
  pub attempts : ℕ → List Attempt
  pub sets_no_delay : ℕ → Bool

-- How `Connect` ends: with a handle, or with one of its three exceptions.
pub data Connection : Type 0 where
  connected : ℕ → Connection
  resolve_error connect_error no_delay_error : Connection

pub set_no_delay : Network → Option ℕ → Connection
set_no_delay n none = connect_error
set_no_delay n (some h) = elim (n.sets_no_delay h) [ true ↦ connected h | false ↦ no_delay_error ]

pub connect : Network → Connection
unfolding connect_rounds set_no_delay
connect n = elim n.resolves [
  | false ↦ resolve_error
  | true ↦
      set_no_delay n
        (connect_rounds retry_attempts 0 n.attempts
          (record { handle = none; is_failed = false; error = n.errno })).handle
]
