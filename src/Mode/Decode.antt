-- ===== src/Mode/Decode.antt =====
-- What a control mode message stands for, read as two three-bit fields (src/thread_pool.cpp).
use rokit_locator_qr_addon.Base.{◌/◌, ◌%◌, ◌^◌, ◌≡◌, ◌≢◌, ◌↔◌, ◌⊎◌, ℕ, arith}
use rokit_locator_qr_addon.Mode.{recording, localization, init, decode}

-- A message means recording exactly when its bits 17 to 15 are 010; it means localization exactly
-- when these are not 010 and its bits 11 to 9 are; and every other message means init.
pub decode_fields :
    (m : ℕ)
    → ((decode m ≡ recording) ↔ ((m / 2 ^ 15) % 8 ≡ 2))
      × ((decode m ≡ localization) ↔ (((m / 2 ^ 15) % 8 ≢ 2) × ((m / 2 ^ 9) % 8 ≡ 2)))
      × ((decode m ≡ init) ↔ (((m / 2 ^ 15) % 8 ≢ 2) × ((m / 2 ^ 9) % 8 ≢ 2)))
unfolding decode
decode_fields m = (ground arith, ground arith, ground arith)

abbrev pub IsMode : ℕ → Type 0
IsMode n = (n ≡ recording) ⊎ (n ≡ localization) ⊎ (n ≡ init)

pub decode-IsMode : (m : ℕ) → IsMode (decode m)
unfolding decode
decode-IsMode m = ground arith
