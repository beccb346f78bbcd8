-- ===== src/Binary/Tests.antt =====
-- Runs of `BinaryInterfaceClient::read` (include/binary_interface_client.h) on a stream that brings
-- one byte at a time.
use rokit_locator_qr_addon.Base.{ℕ, ◌≡◌, refl, some, List, [], ◌∷◌, ◌++◌}
use rokit_locator_qr_addon.Binary.{Rv, count, Reading, read}
use rokit_locator_qr_addon.Binary.Sample.{slow, rest_of, slow-IsPosix}
use rokit_locator_qr_addon.Binary.Stream.{Ends, read_lem}

-- Three bytes of a longer stream, and a stream that ends too soon.
read_runs :
    (read {S = List ℕ} 3 (1 ∷ 2 ∷ 3 ∷ 4 ∷ [])
      ≡ some (record { rv = count 3; bytes = 1 ∷ 2 ∷ 3 ∷ []; rest = 4 ∷ [] }))
    × (read {S = List ℕ} 3 (1 ∷ []) ≡ some (record { rv = Rv.closed; bytes = 1 ∷ []; rest = [] }))
unfolding read
read_runs = (refl, refl)

read_lem_example :
    (r : Reading (List ℕ)) × (read {S = List ℕ} 2 (1 ∷ 2 ∷ 3 ∷ []) ≡ some r)
    × (r.bytes ++ rest_of r.rest ≡ 1 ∷ 2 ∷ 3 ∷ [])
    × Ends 2 r
read_lem_example = read_lem slow-IsPosix 2 (1 ∷ 2 ∷ 3 ∷ [])
