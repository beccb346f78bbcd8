-- ===== src/Handover/Order.antt =====
-- In which order the main loop gets the packages (src/thread_pool.cpp).
use mathlib.Core.List.{Sublistᴰ, append-nil}
use mathlib.Core.List.Sublistᴰ
use rokit_locator_qr_addon.Base.{◌≡◌, refl, subst, true, false, List, [], ◌∷◌, ◌++◌, arith}
use rokit_locator_qr_addon.Double.{Double}
use rokit_locator_qr_addon.Dm.{CustomerPackage}
use rokit_locator_qr_addon.Customer.{Recv, received, closed, failed, Receiver, receive}
use rokit_locator_qr_addon.Handover.{
  Place, waiting, woken, triggering, triggered, running, returned, Threads, notify, announces, Step,
  announced, quiet, wakes_up, takes, returns, locks, unlocks, waits, Reaches, here, step,
}

-- The package that a notified main loop will take.
abbrev pub queued : {D : Type 0} → Place → CustomerPackage D → List (CustomerPackage D)
queued woken p = p ∷ []
queued waiting p = []
queued triggering p = []
queued triggered p = []
queued running p = []
queued returned p = []

-- If no `wait` has returned by itself, the packages of the turns are among those announced, in their
-- order, each at most as often.
abbrev pub IsOrdered : {D : Type 0} → Threads D → Type 0
IsOrdered t =
    t.spurious ≡ 0 → Sublistᴰ (t.handled ++ queued t.place t.receiver.devi_info) t.receiver.notices

module _ {A : Type 0} where
  pub init-Sublistᴰ : (l m n : List A) → Sublistᴰ (l ++ m) n → Sublistᴰ l n
  init-Sublistᴰ l m n s =
      Sublistᴰ.trans
        (subst (λ k. Sublistᴰ k (l ++ m)) (append-nil l)
          (Sublistᴰ.append (Sublistᴰ.refl l) (Sublistᴰ.nil-sublist m)))
        s

  append-Sublistᴰ : (l m n : List A) → Sublistᴰ l n → Sublistᴰ l (n ++ m)
  append-Sublistᴰ l m n s =
      subst (λ k. Sublistᴰ k (n ++ m)) (append-nil l) (Sublistᴰ.append s (Sublistᴰ.nil-sublist m))

module _ {D : Type 0} ⦃fl : Double D⦄ where
  announced_notices :
      (r : Receiver D) (e : Recv D)
      → announces r e ≡ true
      → (receive r e).notices ≡ r.notices ++ ((receive r e).devi_info ∷ [])
  unfolding announces receive
  announced_notices r (received p) h = ground arith
  announced_notices r closed h = absurd (cc)
  announced_notices r failed h = absurd (cc)

  quiet_receiver :
      (r : Receiver D) (e : Recv D)
      → announces r e ≡ false
      → ((receive r e).notices ≡ r.notices) × ((receive r e).devi_info ≡ r.devi_info)
  unfolding announces receive
  quiet_receiver r (received p) h = ground arith
  quiet_receiver r closed h = (refl, refl)
  quiet_receiver r failed h = (refl, refl)

  -- An announcement while the turns so far are in order.
  notify-Sublistᴰ :
      (p : Place) (handled notices : List (CustomerPackage D)) (old new : CustomerPackage D)
      → Sublistᴰ (handled ++ queued p old) notices
      → Sublistᴰ (handled ++ queued (notify p) new) (notices ++ (new ∷ []))
  unfolding notify
  notify-Sublistᴰ waiting handled notices old new s =
      Sublistᴰ.append (init-Sublistᴰ handled [] notices s) (Sublistᴰ.refl _)
  notify-Sublistᴰ woken handled notices old new s =
      Sublistᴰ.append (init-Sublistᴰ handled (old ∷ []) notices s) (Sublistᴰ.refl _)
  notify-Sublistᴰ triggering handled notices old new s = append-Sublistᴰ _ _ _ s
  notify-Sublistᴰ triggered handled notices old new s = append-Sublistᴰ _ _ _ s
  notify-Sublistᴰ running handled notices old new s = append-Sublistᴰ _ _ _ s
  notify-Sublistᴰ returned handled notices old new s = append-Sublistᴰ _ _ _ s

  Step-IsOrdered : (t u : Threads D) → Step t u → IsOrdered t → IsOrdered u
  Step-IsOrdered t _ (announced _ e a f) h z = rw (announced_notices t.receiver e a) (
      notify-Sublistᴰ t.place t.handled t.receiver.notices t.receiver.devi_info
        (receive t.receiver e).devi_info (h z))
  Step-IsOrdered t _ (quiet _ e a) h z =
      let (notices, devi_info) = quiet_receiver t.receiver e a in rw (notices, devi_info) (h z)
  Step-IsOrdered t _ (wakes_up _ p) h z = absurd (omega arith)
  Step-IsOrdered t _ (takes _ p) h z =
      rw (append-nil (t.handled ++ (t.receiver.devi_info ∷ []))) (rw p at (h z))
  Step-IsOrdered t _ (returns _ p) h z = rw p at (h z)
  Step-IsOrdered t _ (locks _ p) h z = rw p at (h z)
  Step-IsOrdered t _ (unlocks _ p) h z = rw p at (h z)
  Step-IsOrdered t _ (waits _ p) h z = rw p at (h z)

  -- Whatever the order of the steps of the two threads: as long as no `wait` has returned without a
  -- notification, the packages with which turns were made, and the one that a notified main loop will
  -- take, are some of the announced ones in the order of their announcements, if it is so at the start.
  pub Reaches-IsOrdered : {t u : Threads D} → Reaches t u → IsOrdered t → IsOrdered u
  Reaches-IsOrdered here h = h
  Reaches-IsOrdered (step r s) h = Step-IsOrdered _ _ s (Reaches-IsOrdered r h)
