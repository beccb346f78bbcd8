-- ===== src/Handover.antt =====
-- How the receiving thread hands packages over to the main loop: the mutex `myMutex` and the condition
-- variable `myCond` between `recCustomerPack` and `dmTrigger` (src/thread_pool.cpp), with the lock that
-- the body of the loop takes (src/main_logic.cpp).
pub mod Turns
pub mod Origin
pub mod Order
pub mod Sample
mod Tests
use rokit_locator_qr_addon.Base.{ℕ, ◌+◌, ◌≡◌, Bool, true, false, not, List, [], ◌∷◌, ◌++◌, ◌==◌}
use rokit_locator_qr_addon.Double.{Double}
use rokit_locator_qr_addon.Dm.{CustomerPackage}
use rokit_locator_qr_addon.Customer.{Recv, received, closed, failed, Receiver, receive}

-- Where the main loop stands: in `wait`; notified, without the mutex yet; in the rest of `dmTrigger`;
-- before the lock of the body; in the body; and before the lock of `dmTrigger`.
pub data Place : Type 0 where
  waiting woken triggering triggered running returned : Place

pub record Threads (D : Type 0) : Type 0 where
  pub receiver : Receiver D
  pub place : Place
  -- What `dmTrigger` has read from `*deviInfo`, turn by turn.
  pub handled : List (CustomerPackage D)
  -- How often `wait` has returned without a notification.
  pub spurious : ℕ

-- Whether the main loop does not hold the mutex.
pub is_free : Place → Bool
is_free triggering = false
is_free running = false
is_free waiting = true
is_free woken = true
is_free triggered = true
is_free returned = true

-- `notify_one`.
pub notify : Place → Place
notify waiting = woken
notify woken = woken
notify triggering = triggering
notify triggered = triggered
notify running = running
notify returned = returned

-- Whether a result of `recv` brings a package that is announced.
unfoldable pub announces : {D : Type 0} → Receiver D → Recv D → Bool
announces r (received p) = not (p.dm_id == r.id_record)
announces r closed = false
announces r failed = false

-- One step of either thread. An announcement takes the mutex; other results of `recv` do not.
pub data Step {D : Type 0} ⦃fl : Double D⦄ : Threads D → Threads D → Type 0 where
  announced :
      (t : Threads D) (e : Recv D)
      → announces t.receiver e ≡ true
      → is_free t.place ≡ true
      → Step t (record t { receiver = receive t.receiver e; place = notify t.place })
  quiet :
      (t : Threads D) (e : Recv D)
      → announces t.receiver e ≡ false
      → Step t (record t { receiver = receive t.receiver e })
  wakes_up :
      (t : Threads D)
      → t.place ≡ waiting
      → Step t (record t { place = woken; spurious = t.spurious + 1 })
  takes :
      (t : Threads D)
      → t.place ≡ woken
      → Step t (record t { place = triggering; handled = t.handled ++ (t.receiver.devi_info ∷ []) })
  returns : (t : Threads D) → t.place ≡ triggering → Step t (record t { place = triggered })
  locks : (t : Threads D) → t.place ≡ triggered → Step t (record t { place = running })
  unlocks : (t : Threads D) → t.place ≡ running → Step t (record t { place = returned })
  waits : (t : Threads D) → t.place ≡ returned → Step t (record t { place = waiting })

pub data Reaches {D : Type 0} ⦃fl : Double D⦄ (t : Threads D) : Threads D → Type 0 where
  here : Reaches t t
  step : {u v : Threads D} → Reaches t u → Step u v → Reaches t v
