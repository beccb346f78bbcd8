-- ===== src/Binary/Connect/Tests.antt =====
-- A run of `BinaryInterfaceClient::Connect` (include/binary_interface_client.h).
use rokit_locator_qr_addon.Base.{ℕ, zero, suc, ◌≡◌, ◌≤◌, ◌<◌, refl, some, arith}
use rokit_locator_qr_addon.Binary.Connect.{
  refused, retry_attempts, set_no_delay, connect, is_temporary,
}
use rokit_locator_qr_addon.Binary.Connect.Sample.{starting, network}
use rokit_locator_qr_addon.Binary.Connect.Rounds.{IsDown, opened, connect_lem}

network-IsDown : (i : ℕ) → i < 2 → IsDown (starting i)
unfolding is_temporary
network-IsDown zero h = record { error = refused; closed = refl; last = refl; temporary = refl }
network-IsDown (suc zero) h = record {
  error = refused;
  closed = refl;
  last = refl;
  temporary = refl;
}
network-IsDown (suc (suc i)) h = absurd (omega arith)

two_rounds : 2 ≤ retry_attempts
two_rounds = omega arith

connect_lem_example : connect network ≡ set_no_delay network (some 5)
connect_lem_example = connect_lem network 2 (some 5) refl two_rounds network-IsDown (opened 5 refl)
