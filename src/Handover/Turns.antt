-- ===== src/Handover/Turns.antt =====
-- Which packages the main loop gets (src/thread_pool.cpp).
use rokit_locator_qr_addon.Base.{
  ℕ, ◌+◌, ◌≤◌, ◌≡◌, refl, true, false, [], ◌∷◌, length, length-append, arith,
}
use rokit_locator_qr_addon.Double.{Double}
use rokit_locator_qr_addon.Dm.{CustomerPackage}
use rokit_locator_qr_addon.Customer.{
  Recv, received, closed, failed, Receiver, reverse_deviation, receive,
}
use rokit_locator_qr_addon.Handover.{
  Place, waiting, woken, triggering, triggered, running, returned, Threads, is_free, notify,
  announces, Step, announced, quiet, wakes_up, takes, returns, locks, unlocks, waits, Reaches, here,
  step,
}

-- 1 if the main loop is notified and has not yet taken its package.
abbrev pub pending : Place → ℕ
pending woken = 1
pending waiting = 0
pending triggering = 0
pending triggered = 0
pending running = 0
pending returned = 0

-- The turns, the one that is to come included, are at most the announcements and the wake-ups
-- without one.
abbrev pub IsBounded : {D : Type 0} → Threads D → Type 0
IsBounded t = length t.handled + pending t.place ≤ length t.receiver.notices + t.spurious

pending-notify : (p : Place) → pending (notify p) ≤ pending p + 1
unfolding notify
pending-notify waiting = omega arith
pending-notify woken = omega arith
pending-notify triggering = omega arith
pending-notify triggered = omega arith
pending-notify running = omega arith
pending-notify returned = omega arith

module _ {D : Type 0} ⦃fl : Double D⦄ where
  announced_notices :
      (r : Receiver D) (e : Recv D)
      → announces r e ≡ true
      → length (receive r e).notices ≡ length r.notices + 1
  unfolding announces receive
  announced_notices r (received p) h =
      ground (arith, length-append r.notices (reverse_deviation p ∷ []))
  announced_notices r closed h = absurd cc
  announced_notices r failed h = absurd cc

  quiet_notices :
      (r : Receiver D) (e : Recv D) → announces r e ≡ false → (receive r e).notices ≡ r.notices
  unfolding announces receive
  quiet_notices r (received p) h = ground arith
  quiet_notices r closed h = refl
  quiet_notices r failed h = refl

  Step-IsBounded : (t u : Threads D) → Step t u → IsBounded t → IsBounded u
  Step-IsBounded t _ (announced _ e h f) b =
      omega (arith, announced_notices t.receiver e h, pending-notify t.place)
  Step-IsBounded t _ (quiet _ e h) b = rw (quiet_notices t.receiver e h) b
  Step-IsBounded t _ (wakes_up _ h) b = omega arith
  Step-IsBounded t _ (takes _ h) b =
      ground (arith, length-append t.handled (t.receiver.devi_info ∷ []))
  Step-IsBounded t _ (returns _ h) b = omega arith
  Step-IsBounded t _ (locks _ h) b = omega arith
  Step-IsBounded t _ (unlocks _ h) b = omega arith
  Step-IsBounded t _ (waits _ h) b = omega arith

  -- Whatever the order of the steps of the two threads, the main loop has at most one turn for each
  -- announced package and each wake-up of `wait` without a notification, if it is so at the start.
  pub Reaches-IsBounded : {t u : Threads D} → Reaches t u → IsBounded t → IsBounded u
  Reaches-IsBounded here b = b
  Reaches-IsBounded (step r s) b = Step-IsBounded _ _ s (Reaches-IsBounded r b)

  -- A package that is announced after a turn, before the main loop waits again, can be lost: a state
  -- is reached in which the loop waits, `*deviInfo` holds the package, and no turn has been made with
  -- it; and no package with the same id is announced from there, which would wake the loop.
  pub announcement_lost :
      (t : Threads D) (p : CustomerPackage D)
      → t.place ≡ returned
      → announces t.receiver (received p) ≡ true
      → (u : Threads D) × Reaches t u
        × (u.place ≡ waiting)
        × (u.handled ≡ t.handled)
        × (u.receiver.devi_info ≡ reverse_deviation p)
        × ((q : CustomerPackage D) → q.dm_id ≡ p.dm_id → announces u.receiver (received q) ≡ false)
  unfolding announces receive is_free notify
  announcement_lost t p h a =
      let v = record t { receiver = receive t.receiver (received p); place = notify t.place } in
      (
        record v { place = waiting },
        step (step here (announced t (received p) a (rw h refl))) (waits v (rw h refl)),
        refl,
        refl,
        ground arith,
        λ q e. ground arith,
      )
