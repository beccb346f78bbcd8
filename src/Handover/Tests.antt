-- ===== src/Handover/Tests.antt =====
-- Steps of the two threads of src/thread_pool.cpp.
use rokit_locator_qr_addon.Base.{inl, ◌≡◌, refl, true, false, arith}
use rokit_locator_qr_addon.Base.Int.{ℤ}
use rokit_locator_qr_addon.Double.Whole.{whole}
use rokit_locator_qr_addon.Dm.{CustomerPackage}
use rokit_locator_qr_addon.Customer.{received, accept, reverse_deviation}
use rokit_locator_qr_addon.Handover.{waiting, returned, Threads, announces, Reaches}
use rokit_locator_qr_addon.Handover.Sample.{sent_package, start, taken, one_turn}
use rokit_locator_qr_addon.Handover.Turns.{IsBounded, Reaches-IsBounded, announcement_lost}
use rokit_locator_qr_addon.Handover.Origin.{IsServed, Reaches-IsServed}

start-IsBounded : IsBounded start
unfolding accept
start-IsBounded = omega arith

Reaches-IsBounded_example : IsBounded taken
Reaches-IsBounded_example = Reaches-IsBounded one_turn start-IsBounded

start-announces : announces start.receiver (received (sent_package 7)) ≡ true
unfolding accept announces
start-announces = refl

start-place : start.place ≡ returned
start-place = refl

announcement_lost_example :
    (u : Threads ℤ) × Reaches start u
    × (u.place ≡ waiting)
    × (u.handled ≡ start.handled)
    × (u.receiver.devi_info ≡ reverse_deviation (sent_package 7))
    × ((q : CustomerPackage ℤ) → q.dm_id ≡ 7 → announces u.receiver (received q) ≡ false)
announcement_lost_example = announcement_lost start (sent_package 7) start-place start-announces

start-IsServed : IsServed (sent_package 0) start
unfolding accept
start-IsServed = record { current = inl refl; turns = tt }

Reaches-IsServed_example : IsServed (sent_package 0) taken
Reaches-IsServed_example = Reaches-IsServed (sent_package 0) one_turn start-IsServed
