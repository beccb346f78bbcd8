-- ===== src/Customer/Tests.antt =====
-- Runs of the receiving loop of `recCustomerPack` (src/thread_pool.cpp) on given packages.
use rokit_locator_qr_addon.Base.{ℕ, ◌≡◌, refl, [], ◌∷◌, ◌++◌}
use rokit_locator_qr_addon.Base.Int.{ℤ, pos, negsuc}
use rokit_locator_qr_addon.Double.Whole.{whole}
use rokit_locator_qr_addon.Dm.{CustomerPackage}
use rokit_locator_qr_addon.Customer.{
  received, closed, failed, uint32_max, reverse_deviation, accept, receive, receive_all,
}
use rokit_locator_qr_addon.Customer.Changes.{errors, announces_change, announces_first}

abbrev shown : ℕ → CustomerPackage ℤ
shown id = record { dm_id = id; deviation_x = pos 1; deviation_y = pos 2; deviation_a = pos 3 }

abbrev reversed : ℕ → CustomerPackage ℤ
reversed id = record {
  dm_id = id;
  deviation_x = negsuc 0;
  deviation_y = negsuc 1;
  deviation_a = negsuc 2;
}

-- A code that is shown twice, one error, and a code after it.
announces_runs :
    (receive_all
      (accept (shown 0))
      (received (shown 7) ∷ received (shown 7) ∷ failed ∷ received (shown 8) ∷ [])).notices
    ≡ reversed 7 ∷ reversed 8 ∷ []
unfolding receive_all receive accept reverse_deviation
announces_runs = refl

announces_change_example :
    (receive_all
      (accept (shown 0))
      (closed ∷ received (shown 7) ∷ (errors 1 ++ (received (shown 8) ∷ [])))).notices
    ≡ (receive_all (accept (shown 0)) (closed ∷ received (shown 7) ∷ [])).notices
      ++ (reverse_deviation (shown 8) ∷ [])
announces_change_example = announces_change (accept (shown 0)) (closed ∷ []) (shown 7) (shown 8) 1

announces_first_example :
    (receive_all
      (accept (shown 0))
      (received (shown 7) ∷ closed ∷ (errors 2 ++ (received (shown uint32_max) ∷ [])))).notices
    ≡ (receive_all (accept (shown 0)) (received (shown 7) ∷ [])).notices ++ []
announces_first_example =
    announces_first (accept (shown 0)) (received (shown 7) ∷ []) (shown uint32_max) 2
