-- ===== src/Binary/Ended.antt =====
-- `read` over a connection that the peer closes after its last byte
-- (include/binary_interface_client.h).
use rokit_locator_qr_addon.Base.{
  ℕ, zero, suc, ◌+◌, ◌-◌, ◌<◌, ◌≡◌, refl, ap, ◌∙◌, ◌⊎◌, inl, inr, true, Option, some, List, [], ◌∷◌,
  ◌++◌, length, length-append, ltb, arith,
}
use rokit_locator_qr_addon.Binary.{OsRead, got, Os, Rv, Reading, after_read, read_loop, read}
use rokit_locator_qr_addon.Binary.Stream.{Takes}
use rokit_locator_qr_addon.Binary.Delivers.{IsGot, IsDelivering}

pub record IsEnding {S : Type 0} ⦃os : Os S⦄ (stream : S → List ℕ) : Type 0 where
  pub delivering : IsDelivering stream
  pub ends : (s : S) (n : ℕ) → 0 < n → stream s ≡ [] → (os.os_read s n).0 ≡ OsRead.closed

is_empty_or : (l : List ℕ) → (l ≡ []) ⊎ (0 < length l)
is_empty_or [] = inl refl
is_empty_or (x ∷ l) = inr (omega arith)

-- The end of the stream.
abbrev pub Closes : {S : Type 0} → (S → List ℕ) → Option (Reading S) → Type 0
Closes {S} stream o = (r : Reading S) × (o ≡ some r) × (r.rv ≡ Rv.closed) × (stream r.rest ≡ [])

module _ {S : Type 0} ⦃os : Os S⦄ {stream : S → List ℕ} (ending : IsEnding stream) where
  after_read-Closes :
      (loop : List ℕ → S → Option (Reading S)) (n : ℕ) (bytes : List ℕ) (s : S) (r : OsRead)
      (s' : S)
      → ((bs : List ℕ)
          → 0 < length bs
          → stream s ≡ bs ++ stream s'
          → Closes stream (loop (bytes ++ bs) s'))
      → (stream s ≡ [] → r ≡ OsRead.closed)
      → (0 < length (stream s) → IsGot r)
      → Takes stream s n r s'
      → Closes stream (after_read loop bytes r s')
  unfolding after_read
  after_read-Closes loop n bytes s (got bs) s' ih e g t = ih bs t.1 t.0
  after_read-Closes loop n bytes s OsRead.closed s' ih e g t = elim (is_empty_or (stream s)) [
    | inl empty ↦ (record { rv = Rv.closed; bytes = bytes; rest = s' }, refl, refl, t ∙ empty)
    | inr more ↦ absurd (g more)
  ]
  after_read-Closes loop n bytes s OsRead.failed s' ih e g t = elim (is_empty_or (stream s)) [
    | inl empty ↦ cc (e empty)
    | inr more ↦ absurd (g more)
  ]

  read_loop-Closes :
      (fuel size : ℕ) (bytes : List ℕ) (s : S)
      → size < length bytes + fuel
      → length bytes + length (stream s) < size
      → Closes stream (read_loop fuel size bytes s)
  unfolding read_loop
  read_loop-Closes zero size bytes s f short = absurd (omega arith)
  read_loop-Closes (suc fuel) size bytes s f short =
      let more : ltb (length bytes) size ≡ true = ground arith in
      let posix = ending.delivering.posix in
      rw (more, read_loop)
        (after_read-Closes (λ bs t. read_loop fuel size bs t) (size - length bytes) bytes s _ _
          (λ bs p e.
            read_loop-Closes fuel size (bytes ++ bs) (os.os_read s (size - length bytes)).1
              (omega (arith, length-append bytes bs))
              (omega (
                arith,
                length-append bytes bs,
                ap length e,
                length-append bs (stream (os.os_read s (size - length bytes)).1),
              )))
          (ending.ends s (size - length bytes) (omega arith))
          (ending.delivering.delivers s (size - length bytes) (omega arith))
          (posix.takes s (size - length bytes) (omega arith)))

  -- A stream that has fewer bytes than are read: the end is reported, and nothing is left.
  pub read-Closes : (size : ℕ) (s : S) → length (stream s) < size → Closes stream (read size s)
  unfolding read
  read-Closes size s short = read_loop-Closes (suc size) size [] s (omega arith) (omega arith)
