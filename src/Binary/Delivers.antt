-- ===== src/Binary/Delivers.antt =====
-- `read` over a connection that does not end as long as the peer has bytes to send
-- (include/binary_interface_client.h).
use mathlib.Core.List.{append_assoc}
use rokit_locator_qr_addon.Base.{
  ℕ, zero, suc, ◌+◌, ◌-◌, ◌≤◌, ◌<◌, ◌≡◌, refl, sym, ap, ◌∙◌, inl, inr, Option, some, List, [], ◌++◌,
  length, take, drop, take-append, drop-append, length-append, ltb, ltb→lt, arith, Bool-cases,
}
use rokit_locator_qr_addon.Binary.{OsRead, got, Os, count, Reading, after_read, read_loop, read}
use rokit_locator_qr_addon.Binary.Stream.{Takes, IsPosix}

abbrev pub IsGot : OsRead → Type 0
IsGot (got bytes) = Unit
IsGot OsRead.closed = ⊥
IsGot OsRead.failed = ⊥

pub record IsDelivering {S : Type 0} ⦃os : Os S⦄ (stream : S → List ℕ) : Type 0 where
  pub posix : IsPosix stream
  pub delivers : (s : S) (n : ℕ) → 0 < n → 0 < length (stream s) → IsGot (os.os_read s n).0

-- A whole read: the bytes read before, and those that were still to come.
abbrev pub Fills : {S : Type 0} → (S → List ℕ) → ℕ → List ℕ → Option (Reading S) → Type 0
Fills {S} stream size all o =
    (r : Reading S) × (o ≡ some r)
    × (r.rv ≡ count size)
    × (length r.bytes ≡ size)
    × (r.bytes ++ stream r.rest ≡ all)

module _ {S : Type 0} ⦃os : Os S⦄ {stream : S → List ℕ} (delivering : IsDelivering stream) where
  after_read-Fills :
      (loop : List ℕ → S → Option (Reading S)) (size : ℕ) (bytes : List ℕ) (s : S) (r : OsRead)
      (s' : S)
      → ((bs : List ℕ)
          → 0 < length bs
          → length bs ≤ size - length bytes
          → stream s ≡ bs ++ stream s'
          → Fills stream size ((bytes ++ bs) ++ stream s') (loop (bytes ++ bs) s'))
      → IsGot r
      → Takes stream s (size - length bytes) r s'
      → Fills stream size (bytes ++ stream s) (after_read loop bytes r s')
  unfolding after_read
  after_read-Fills loop size bytes s (got bs) s' ih g t =
      rw (t.0, ← append_assoc) (ih bs t.1 t.2 t.0)
  after_read-Fills loop size bytes s OsRead.closed s' ih g t = absurd g
  after_read-Fills loop size bytes s OsRead.failed s' ih g t = absurd g

  read_loop-Fills :
      (fuel size : ℕ) (bytes : List ℕ) (s : S)
      → length bytes ≤ size
      → size < length bytes + fuel
      → size ≤ length bytes + length (stream s)
      → Fills stream size (bytes ++ stream s) (read_loop fuel size bytes s)
  unfolding read_loop
  read_loop-Fills zero size bytes s h f enough = absurd (omega arith)
  read_loop-Fills (suc fuel) size bytes s h f enough = elim (Bool-cases (ltb (length bytes) size)) [
    | inl more ↦
        let less = ltb→lt _ _ more in
        rw (more, read_loop)
          (after_read-Fills (λ bs t. read_loop fuel size bs t) size bytes s _ _
            (λ bs p q e.
              read_loop-Fills fuel size (bytes ++ bs) (os.os_read s (size - length bytes)).1
                (omega (arith, length-append bytes bs)) (omega (arith, length-append bytes bs))
                (omega (
                  arith,
                  length-append bytes bs,
                  ap length e,
                  length-append bs (stream (os.os_read s (size - length bytes)).1),
                )))
            (delivering.delivers s (size - length bytes) (omega arith) (omega arith))
            (delivering.posix.takes s (size - length bytes) (omega arith)))
    | inr done ↦
        rw (done, read_loop)
          (
            record { rv = count (length bytes); bytes = bytes; rest = s },
            refl,
            ground arith,
            ground arith,
            refl,
          )
  ]

  -- What a read of `size` bytes makes of a stream that has as many: all of them, in order, however
  -- the operating system cuts them into pieces.
  pub read-Fills :
      (size : ℕ) (s : S)
      → size ≤ length (stream s)
      → (r : Reading S) × (read size s ≡ some r)
        × (r.rv ≡ count size)
        × (r.bytes ≡ take size (stream s))
        × (stream r.rest ≡ drop size (stream s))
  unfolding read
  read-Fills size s h =
      let (r, e, rv, l, all) =
        read_loop-Fills (suc size) size [] s (omega arith) (omega arith) (omega arith) in
      (
        r,
        e,
        rv,
        sym (take-append r.bytes (stream r.rest))
            ∙ ap (take (length r.bytes)) all
            ∙ ap (λ n. take n (stream s)) l,
        sym (drop-append r.bytes (stream r.rest))
            ∙ ap (drop (length r.bytes)) all
            ∙ ap (λ n. drop n (stream s)) l,
      )
