-- ===== src/Binary/Sample.antt =====
-- A stream that brings one byte at a time, for the tests of include/binary_interface_client.h.
use rokit_locator_qr_addon.Base.{ℕ, ◌<◌, ◌≡◌, refl, List, [], ◌∷◌, length, arith}
use rokit_locator_qr_addon.Binary.{OsRead, got, Os}
use rokit_locator_qr_addon.Binary.Stream.{Takes, IsPosix}
use rokit_locator_qr_addon.Binary.Delivers.{IsGot, IsDelivering}
use rokit_locator_qr_addon.Binary.Ended.{IsEnding}

abbrev pub one_byte : List ℕ → ℕ → OsRead × List ℕ
one_byte [] n = (OsRead.closed, [])
one_byte (b ∷ bytes) n = (got (b ∷ []), bytes)

instance abbrev pub slow : Os (List ℕ)
slow = record { os_read = one_byte }

abbrev pub rest_of : List ℕ → List ℕ
rest_of bytes = bytes

slow-Takes : (s : List ℕ) (n : ℕ) → 0 < n → Takes rest_of s n (one_byte s n).0 (one_byte s n).1
slow-Takes [] n h = refl
slow-Takes (b ∷ s) n h = (refl, omega arith, omega arith)

pub slow-IsPosix : IsPosix rest_of
slow-IsPosix = record { takes = slow-Takes }

slow-IsGot : (s : List ℕ) (n : ℕ) → 0 < n → 0 < length s → IsGot (one_byte s n).0
slow-IsGot [] n h l = absurd (omega arith)
slow-IsGot (b ∷ s) n h l = tt

pub slow-IsDelivering : IsDelivering rest_of
slow-IsDelivering = record { posix = slow-IsPosix; delivers = slow-IsGot }

slow-closes : (s : List ℕ) (n : ℕ) → 0 < n → rest_of s ≡ [] → (one_byte s n).0 ≡ OsRead.closed
slow-closes [] n h e = refl
slow-closes (b ∷ s) n h e = absurd (cc)

pub slow-IsEnding : IsEnding rest_of
slow-IsEnding = record { delivering = slow-IsDelivering; ends = slow-closes }
