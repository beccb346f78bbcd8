-- ===== src/Binary.antt =====
-- `BinaryInterfaceClient::read` of include/binary_interface_client.h, over any operating system's
-- `::read`.
pub mod Stream
pub mod Connect
pub mod Delivers
pub mod Ended
pub mod Sample
mod Tests
use rokit_locator_qr_addon.Base.{
  ℕ, zero, suc, ◌-◌, true, false, Option, none, some, List, [], ◌∷◌, ◌++◌, length, ltb,
}

-- A result of `::read`: the bytes that it put into the buffer, the 0 at the end of the stream, or a
-- negative result.
pub data OsRead : Type 0 where
  got : List ℕ → OsRead
  closed failed : OsRead

-- `os_read s n` reads at most `n` bytes from a connection in state `s`.
pub record Os (S : Type 0) : Type 0 where
  pub os_read : S → ℕ → OsRead × S

-- A result of the client's `read`: the number of bytes, or the result that ended it early.
pub data Rv : Type 0 where
  count : ℕ → Rv
  closed failed : Rv

-- What a call of `read` returns, the bytes that it has written to the target, and the connection
-- that it leaves.
pub record Reading (S : Type 0) : Type 0 where
  pub rv : Rv
  pub bytes : List ℕ
  pub rest : S

-- The body after `::read`: a result below 1 ends the loop, and otherwise it goes on with the bytes.
pub after_read :
    {S : Type 0} → (List ℕ → S → Option (Reading S)) → List ℕ → OsRead → S → Option (Reading S)
after_read loop bytes (got bs) s = loop (bytes ++ bs) s
after_read loop bytes OsRead.closed s = some (record { rv = Rv.closed; bytes = bytes; rest = s })
after_read loop bytes OsRead.failed s = some (record { rv = Rv.failed; bytes = bytes; rest = s })

module _ {S : Type 0} ⦃os : Os S⦄ where
  -- `while (bytesRead < size)`, with the bytes read so far. `none` means that the fuel ran out.
  pub read_loop : ℕ → ℕ → List ℕ → S → Option (Reading S)
  unfolding after_read
  read_loop zero size bytes s = none
  read_loop (suc fuel) size bytes s = elim (ltb (length bytes) size) [
    | true ↦
        let (r, s') = os.os_read s (size - length bytes) in
        after_read (λ bs t. read_loop fuel size bs t) bytes r s'
    | false ↦ some (record { rv = count (length bytes); bytes = bytes; rest = s })
  ]

  -- Every round reads a byte at least, so `size` rounds and the last test are enough.
  pub read : ℕ → S → Option (Reading S)
  unfolding read_loop
  read size s = read_loop (suc size) size [] s
