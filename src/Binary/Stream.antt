-- ===== src/Binary/Stream.antt =====
-- What `read` promises over a connection that keeps to POSIX (include/binary_interface_client.h).
use mathlib.Core.List.{append_assoc}
use rokit_locator_qr_addon.Base.{
  ℕ, zero, suc, ◌+◌, ◌-◌, ◌≤◌, ◌<◌, ◌≡◌, refl, ◌⊎◌, inl, inr, ap, Option, some, List, [], ◌++◌,
  length, length-append, ltb, ltb→lt, arith, Bool-cases,
}
use rokit_locator_qr_addon.Binary.{OsRead, got, Os, Rv, count, Reading, after_read, read_loop, read}

-- `stream s` is what the peer will still send: a successful read takes a part of it off the front,
-- of one byte at least and of no more than was asked for, and a read with no bytes takes nothing.
abbrev pub Takes : {S : Type 0} → (S → List ℕ) → S → ℕ → OsRead → S → Type 0
Takes stream s n (got bs) s' = (stream s ≡ bs ++ stream s') × (0 < length bs) × (length bs ≤ n)
Takes stream s n OsRead.closed s' = stream s' ≡ stream s
Takes stream s n OsRead.failed s' = stream s' ≡ stream s

pub record IsPosix {S : Type 0} ⦃os : Os S⦄ (stream : S → List ℕ) : Type 0 where
  pub takes : (s : S) (n : ℕ) → 0 < n → Takes stream s n (os.os_read s n).0 (os.os_read s n).1

abbrev pub Ends : {S : Type 0} → ℕ → Reading S → Type 0
Ends size r =
    ((r.rv ≡ count size) × (length r.bytes ≡ size))
    ⊎ (((r.rv ≡ Rv.closed) ⊎ (r.rv ≡ Rv.failed)) × (length r.bytes < size))

-- A result that has every byte in order: the bytes read before, and those taken off the stream.
abbrev Reads : {S : Type 0} → (S → List ℕ) → ℕ → List ℕ → Option (Reading S) → Type 0
Reads {S} stream size all o =
    (r : Reading S) × (o ≡ some r) × (r.bytes ++ stream r.rest ≡ all) × Ends size r

module _ {S : Type 0} ⦃os : Os S⦄ {stream : S → List ℕ} (posix : IsPosix stream) where
  after_read-Reads :
      (loop : List ℕ → S → Option (Reading S)) (size : ℕ) (bytes : List ℕ) (s : S) (r : OsRead)
      (s' : S)
      → ((bs : List ℕ)
          → 0 < length bs
          → length bs ≤ size - length bytes
          → Reads stream size ((bytes ++ bs) ++ stream s') (loop (bytes ++ bs) s'))
      → length bytes < size
      → Takes stream s (size - length bytes) r s'
      → Reads stream size (bytes ++ stream s) (after_read loop bytes r s')
  unfolding after_read
  after_read-Reads loop size bytes s (got bs) s' ih h t = rw (t.0, ← append_assoc) (ih bs t.1 t.2)
  after_read-Reads loop size bytes s OsRead.closed s' ih h t = (
    record { rv = Rv.closed; bytes = bytes; rest = s' },
    refl,
    ap (◌++◌ bytes) t,
    inr (inl refl, h),
  )
  after_read-Reads loop size bytes s OsRead.failed s' ih h t = (
    record { rv = Rv.failed; bytes = bytes; rest = s' },
    refl,
    ap (◌++◌ bytes) t,
    inr (inr refl, h),
  )

  read_loop-Reads :
      (fuel size : ℕ) (bytes : List ℕ) (s : S)
      → length bytes ≤ size
      → size < length bytes + fuel
      → Reads stream size (bytes ++ stream s) (read_loop fuel size bytes s)
  unfolding read_loop
  read_loop-Reads zero size bytes s h f = absurd (omega arith)
  read_loop-Reads (suc fuel) size bytes s h f = elim (Bool-cases (ltb (length bytes) size)) [
    | inl more ↦
        rw (more, read_loop)
          (after_read-Reads (λ bs t. read_loop fuel size bs t) size bytes s _ _
            (λ bs p q.
              read_loop-Reads fuel size (bytes ++ bs) (os.os_read s (size - length bytes)).1
                (omega (arith, length-append bytes bs, ltb→lt _ _ more))
                (omega (arith, length-append bytes bs)))
            (ltb→lt _ _ more)
            (posix.takes s (size - length bytes) (omega (arith, ltb→lt _ _ more))))
    | inr done ↦
        rw (done, read_loop)
          (
            record { rv = count (length bytes); bytes = bytes; rest = s },
            refl,
            refl,
            inl (ground arith, ground arith),
          )
  ]

  -- Over a connection that keeps to POSIX, `read` of `size` bytes always returns. It loses no byte
  -- and makes none up: the bytes in the target, with what is left on the connection, are what the
  -- peer had still to send. It returns `size` with just so many bytes, or the result of the failed
  -- `::read` with fewer.
  pub read_lem :
      (size : ℕ) (s : S)
      → (r : Reading S) × (read size s ≡ some r)
        × (r.bytes ++ stream r.rest ≡ stream s)
        × Ends size r
  unfolding read
  read_lem size s = read_loop-Reads (suc size) size [] s (omega arith) (omega arith)
