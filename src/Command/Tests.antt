-- ===== src/Command/Tests.antt =====
-- Runs of the loop of user commands (src/thread_pool.cpp).
use rokit_locator_qr_addon.Base.{List, [], ◌∷◌}
use rokit_locator_qr_addon.Command.{Getchar, typed, eof}

abbrev keys : List Getchar
keys = typed b'x' ∷ typed 10 ∷ eof ∷ []
