-- ===== src/Handover/Sample.antt =====
-- Steps of the two threads of src/thread_pool.cpp, for the tests.
use rokit_locator_qr_addon.Base.{ℕ, ◌≡◌, refl, [], ◌∷◌}
use rokit_locator_qr_addon.Base.Int.{ℤ, pos, negsuc}
use rokit_locator_qr_addon.Double.Whole.{whole}
use rokit_locator_qr_addon.Dm.{CustomerPackage}
use rokit_locator_qr_addon.Customer.{received, accept, receive, reverse_deviation}
use rokit_locator_qr_addon.Handover.{
  waiting, woken, triggering, returned, Threads, announces, is_free, notify, announced, waits,
  takes, Reaches, here, step,
}

abbrev pub sent_package : ℕ → CustomerPackage ℤ
sent_package id = record {
  dm_id = id;
  deviation_x = negsuc 0;
  deviation_y = negsuc 1;
  deviation_a = negsuc 2;
}

-- Before the loop waits for the first time.
abbrev pub start : Threads ℤ
start = record { receiver = accept (sent_package 0); place = returned; handled = []; spurious = 0 }

abbrev pub at_wait : Threads ℤ
at_wait = record start { place = waiting }

abbrev pub notified : Threads ℤ
notified = record at_wait {
  receiver = receive start.receiver (received (sent_package 7));
  place = woken;
}

abbrev pub taken : Threads ℤ
taken = record notified { place = triggering; handled = notified.receiver.devi_info ∷ [] }

pub one_turn : Reaches start taken
unfolding accept announces is_free notify
one_turn =
    step
      (step (step here (waits start refl))
        (announced at_wait (received (sent_package 7)) refl refl))
      (takes notified refl)

-- The package that the main loop takes.
pub taken_package :
    taken.handled
    ≡ record { dm_id = 7; deviation_x = pos 1; deviation_y = pos 2; deviation_a = pos 3 } ∷ []
unfolding accept receive reverse_deviation
taken_package = refl
