-- ===== src/Command/Quit.antt =====
-- When a user's command ends the program (src/thread_pool.cpp, src/user_command_processing.cpp).
use rokit_locator_qr_addon.Base.{◌≢◌, List}
use rokit_locator_qr_addon.Command.{Getchar, typed, eof}

-- A key that the loop passes over: EOF, or a byte that is not 0 and no q.
abbrev pub IsOther : Getchar → Type 0
IsOther eof = Unit
IsOther (typed c) = (c ≢ 0) × (c ≢ b'q') × (c ≢ b'Q')
