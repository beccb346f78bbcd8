-- ===== src/Mode.antt =====
-- The operating mode: the constants of include/main_logic.h and `ThreadHandler::listenMode` of
-- src/thread_pool.cpp. A message is a `uint32_t`, given as a number.
pub mod Decode
pub mod Listen
mod Tests
use rokit_locator_qr_addon.Base.{
  ℕ, ◌/◌, ◌%◌, ◌^◌, Bool, true, false, not, ◌&&◌, List, [], ◌∷◌, ◌==◌, if◌then◌else◌,
}

abbrev pub recording : ℕ
recording = 0xff

abbrev pub localization : ℕ
localization = 0xfe

abbrev pub init : ℕ
init = 0xfd

-- `std::bitset<32>::test`.
abbrev pub test : ℕ → ℕ → Bool
test bits i = (bits / 2 ^ i) % 2 == 1

-- The mode that one control mode message stands for.
pub decode : ℕ → ℕ
decode m =
    if not (test m 17) && test m 16 && not (test m 15)
    then recording
    else if not (test m 11) && test m 10 && not (test m 9)
    then localization
    else init

-- What one `client.read` of the loop brings: a whole message (`rv > 0`), the 0 of a connection
-- that the server has closed, or a negative result.
pub data Received : Type 0 where
  message : ℕ → Received
  closed failed : Received

-- The loop after the given reads: the value behind `modePtr`, and whether the loop has ended.
pub record Listening : Type 0 where
  pub mode : ℕ
  pub ended : Bool

-- `while (rv >= 0) { rv = client.read(…); if (rv > 0) … }`, from the mode that the loop finds.
pub listen_mode : ℕ → List Received → Listening
listen_mode mode [] = record { mode = mode; ended = false }
listen_mode mode (message m ∷ reads) = listen_mode (decode m) reads
listen_mode mode (closed ∷ reads) = listen_mode mode reads
listen_mode mode (failed ∷ reads) = record { mode = mode; ended = true }
