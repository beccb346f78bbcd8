-- ===== src/Mode/Tests.antt =====
-- Runs of src/thread_pool.cpp `listenMode` at given messages.
use rokit_locator_qr_addon.Base.{
  ◌/◌, ◌%◌, ◌^◌, ◌≡◌, ◌≢◌, ◌↔◌, refl, true, false, List, [], ◌∷◌, ◌++◌,
}
use rokit_locator_qr_addon.Mode.{
  recording, localization, init, Received, message, closed, failed, decode, listen_mode,
}
use rokit_locator_qr_addon.Mode.Decode.{decode_fields}
use rokit_locator_qr_addon.Mode.Listen.{listen_mode_lem}

-- Bit 16 alone, bit 10 alone, both, and bits 16 and 15.
decode_runs :
    (decode 0x1_0000 ≡ recording)
    × (decode 0x400 ≡ localization)
    × (decode 0x1_0400 ≡ recording)
    × (decode 0x1_8000 ≡ init)
unfolding decode
decode_runs = (refl, refl, refl, refl)

decode_fields_example :
    ((decode 0x1_8400 ≡ recording) ↔ ((0x1_8400 / 2 ^ 15) % 8 ≡ 2))
    × ((decode 0x1_8400 ≡ localization)
        ↔ (((0x1_8400 / 2 ^ 15) % 8 ≢ 2) × ((0x1_8400 / 2 ^ 9) % 8 ≡ 2)))
    × ((decode 0x1_8400 ≡ init) ↔ (((0x1_8400 / 2 ^ 15) % 8 ≢ 2) × ((0x1_8400 / 2 ^ 9) % 8 ≢ 2)))
decode_fields_example = decode_fields 0x1_8400

abbrev two_reads : List Received
two_reads = message 0x1_0000 ∷ closed ∷ []

listen_mode_lem_example :
    (listen_mode init two_reads ≡ record { mode = recording; ended = false })
    × (listen_mode init (two_reads ++ failed ∷ message 0x400 ∷ [])
        ≡ record { mode = recording; ended = true })
unfolding decode
listen_mode_lem_example = listen_mode_lem init two_reads (message 0x400 ∷ []) (tt, (tt, tt))
