-- ===== src/Mode/Listen.antt =====
-- The loop of `ThreadHandler::listenMode` over the results of its reads (src/thread_pool.cpp).
use rokit_locator_qr_addon.Base.{ℕ, ◌≡◌, refl, sym, ◌∙◌, true, false, List, [], ◌∷◌, ◌++◌, All}
use rokit_locator_qr_addon.Mode.{Received, message, closed, failed, decode, listen_mode}

abbrev pub IsNotFailed : Received → Type 0
IsNotFailed (message m) = Unit
IsNotFailed closed = Unit
IsNotFailed failed = ⊥

abbrev pub messages : List Received → List ℕ
messages [] = []
messages (message m ∷ reads) = m ∷ messages reads
messages (_ ∷ reads) = messages reads

-- The mode of the last message, or the old mode if there is none.
abbrev pub last_mode : ℕ → List ℕ → ℕ
last_mode old [] = old
last_mode old (m ∷ []) = decode m
last_mode old (m ∷ n ∷ ms) = last_mode old (n ∷ ms)

last_mode-cons : (old m : ℕ) (ms : List ℕ) → last_mode old (m ∷ ms) ≡ last_mode (decode m) ms
last_mode-cons old m [] = refl
last_mode-cons old m (n ∷ []) = refl
last_mode-cons old m (n ∷ o ∷ ms) =
    last_mode-cons old n (o ∷ ms) ∙ sym (last_mode-cons (decode m) n (o ∷ ms))

-- Reads that do not fail leave the loop running, however many of them report a closed connection,
-- and the mode is that of the last message among them, or the old one; the first failed read ends
-- the loop with that mode, whatever would follow.
pub listen_mode_lem :
    (old : ℕ) (reads later : List Received)
    → All IsNotFailed reads
    → (listen_mode old reads ≡ record { mode = last_mode old (messages reads); ended = false })
      × (listen_mode old (reads ++ failed ∷ later)
          ≡ record { mode = last_mode old (messages reads); ended = true })
unfolding listen_mode
listen_mode_lem old [] later h = (refl, refl)
listen_mode_lem old (message m ∷ reads) later h =
    rw (last_mode-cons old m (messages reads)) (listen_mode_lem (decode m) reads later h.1)
listen_mode_lem old (closed ∷ reads) later h = listen_mode_lem old reads later h.1
listen_mode_lem old (failed ∷ reads) later h = absurd h.0
