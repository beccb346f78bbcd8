-- ===== src/Main/Loop/Tests.antt =====
-- Turns of the loop of src/main_logic.cpp.
use mathlib.Core.List.Sublistᴰ
use rokit_locator_qr_addon.Customer.{accept}
use rokit_locator_qr_addon.Handover.Sample.{start, taken, taken_package, one_turn}
use rokit_locator_qr_addon.Handover.Order.{IsOrdered}
use rokit_locator_qr_addon.Main.Loop.Sample.{first, second, first-IsCounted, second-IsCounted}
use rokit_locator_qr_addon.Main.Loop.Announced.{shown, main_loop-announced}
use rokit_locator_qr_addon.Base.{sym, map, ◌≤◌, ℕ, ◌+◌, ◌^◌, ◌<◌, ◌≡◌, refl, false, [], ◌∷◌, arith}
use rokit_locator_qr_addon.Base.Int.{ℤ}
use rokit_locator_qr_addon.Double.Whole.{whole}
use rokit_locator_qr_addon.Db.{lookup}
use rokit_locator_qr_addon.Db.Memory.{
  UserTable, SelfTable, user_memory, self_memory, user_contents, user_memory-IsSqlite,
  user_memory-IsReliable,
}
use rokit_locator_qr_addon.Main.{World}
use rokit_locator_qr_addon.Main.Sample.{code, set, world, world-IsOpen, server-IsAnswering}
use rokit_locator_qr_addon.Main.Round.Counts.{IsOpen}
use rokit_locator_qr_addon.Main.Loop.{going, main_loop}
use rokit_locator_qr_addon.Main.Loop.Counts.{seen, count_in, main_loop-counts}

small_counts : (id : ℕ) → count_in id (user_contents (world (code 1 false)).user.db) + 2 < 2 ^ 31
unfolding lookup
small_counts id = ground arith

main_loop-counts_example :
    (w' : World ℤ UserTable SelfTable ℕ) × (main_loop set
        (first ∷ second ∷ [])
        (world (code 1 false))
      ≡ going w')
    × IsOpen user_contents w'.user
    × ((id : ℕ)
        → count_in id w'.user.db
          ≡ count_in id (world (code 1 false)).user.db + seen id (first ∷ second ∷ []))
main_loop-counts_example =
    main_loop-counts user_memory-IsSqlite user_memory-IsReliable set server-IsAnswering
      (first ∷ second ∷ []) (world (code 1 false)) (first-IsCounted, (second-IsCounted, tt))
      world-IsOpen small_counts

-- The receiving thread announces the package of the code 7, and the main loop takes it.
start-IsOrdered : IsOrdered start
unfolding accept
start-IsOrdered z = Sublistᴰ.slnil

first_turn : map (λ s. s.devi_info) (first ∷ []) ≡ taken.handled
first_turn = sym taken_package

first_small : (id : ℕ) → count_in id (user_contents (world (code 1 false)).user.db) + 1 < 2 ^ 31
first_small id = omega (arith, small_counts id)

main_loop-announced_example :
    (w' : World ℤ UserTable SelfTable ℕ) × (main_loop set (first ∷ []) (world (code 1 false))
      ≡ going w')
    × ((id : ℕ)
        → (count_in id (user_contents (world (code 1 false)).user.db)
            ≤ count_in id (user_contents w'.user.db))
          × (count_in id (user_contents w'.user.db)
              ≤ count_in id (user_contents (world (code 1 false)).user.db)
                + shown id taken.receiver.notices))
main_loop-announced_example =
    main_loop-announced user_memory-IsSqlite user_memory-IsReliable set server-IsAnswering
      (first ∷ []) (world (code 1 false)) one_turn start-IsOrdered refl first_turn
      (first-IsCounted, tt) world-IsOpen first_small
