-- ===== src/Binary/Connect/Sample.antt =====
-- A ROKIT that is still starting, for the tests of include/binary_interface_client.h.
use rokit_locator_qr_addon.Base.{ℕ, zero, suc, ◌≡◌, refl, true, List, [], ◌∷◌}
use rokit_locator_qr_addon.Binary.Connect.{
  Errno, refused, timed_out, Attempt, no_socket, fails, opens, Network, connected, set_no_delay,
  connect, is_temporary, walk, connect_rounds,
}

-- ROKIT refuses in the first two rounds; in the third one it is there at the second address.
abbrev pub starting : ℕ → List Attempt
starting zero = fails timed_out ∷ fails refused ∷ []
starting (suc zero) = fails refused ∷ no_socket ∷ []
starting (suc (suc i)) = fails refused ∷ opens 5 ∷ []

abbrev pub network : Network
network = record {
  resolves = true;
  errno = Errno.other;
  attempts = starting;
  sets_no_delay = λ h. true;
}

pub network_connects : connect network ≡ connected 5
unfolding connect set_no_delay connect_rounds walk is_temporary
network_connects = refl
