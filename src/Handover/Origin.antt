-- ===== src/Handover/Origin.antt =====
-- Where the packages come from with which the main loop makes its turns (src/thread_pool.cpp).
use rokit_locator_qr_addon.Base.{
  ◌≡◌, refl, ◌⊎◌, inl, inr, List, [], ◌∷◌, ◌++◌, All, All-append, arith, subst, sym,
}
use rokit_locator_qr_addon.Double.{Double}
use rokit_locator_qr_addon.Dm.{CustomerPackage}
use rokit_locator_qr_addon.Customer.{Recv, received, closed, failed, Receiver, receive}
use rokit_locator_qr_addon.Handover.{
  Threads, Step, announced, quiet, wakes_up, takes, returns, locks, unlocks, waits, Reaches, here,
  step,
}

abbrev pub Occurs : {A : Type 0} → A → List A → Type 0
Occurs a [] = ⊥
Occurs a (b ∷ l) = (a ≡ b) ⊎ Occurs a l

Occurs-append : {A : Type 0} (a : A) (l m : List A) → Occurs a l → Occurs a (l ++ m)
Occurs-append a [] m h = absurd h
Occurs-append a (b ∷ l) m (inl e) = inl e
Occurs-append a (b ∷ l) m (inr h) = inr (Occurs-append a l m h)

Occurs-last : {A : Type 0} (a : A) (l : List A) → Occurs a (l ++ (a ∷ []))
Occurs-last a [] = inl refl
Occurs-last a (b ∷ l) = inr (Occurs-last a l)

All-weaken :
    {A : Type 0} (l m ps : List A) → All (λ p. Occurs p l) ps → All (λ p. Occurs p (l ++ m)) ps
All-weaken l m [] h = tt
All-weaken l m (p ∷ ps) h = (Occurs-append p l m h.0, All-weaken l m ps h.1)

-- `*deviInfo` and the package of each turn were announced, or are the value `d` that `*deviInfo` had
-- at first.
pub record IsServed {D : Type 0} (d : CustomerPackage D) (t : Threads D) : Type 0 where
  pub current : Occurs t.receiver.devi_info (d ∷ t.receiver.notices)
  pub turns : All (λ p. Occurs p (d ∷ t.receiver.notices)) t.handled

module _ {D : Type 0} ⦃fl : Double D⦄ where
  -- The receiver goes on with no announcement, or with one of what it then holds.
  Goes : Receiver D → Receiver D → Type 0
  Goes r s =
      ((s.devi_info ≡ r.devi_info) × (s.notices ≡ r.notices))
      ⊎ (s.notices ≡ r.notices ++ (s.devi_info ∷ []))

  receive-Goes : (r : Receiver D) (e : Recv D) → Goes r (receive r e)
  unfolding Goes receive
  receive-Goes r (received p) = ground arith
  receive-Goes r closed = inl (refl, refl)
  receive-Goes r failed = inl (refl, refl)

  Goes-IsServed :
      (d : CustomerPackage D) (t : Threads D) (s : Receiver D)
      → Goes t.receiver s
      → IsServed d t
      → IsServed d (record t { receiver = s })
  unfolding Goes
  Goes-IsServed d t s (inl g) h = record {
    current =
        subst (λ c. Occurs c (d ∷ s.notices)) (sym g.0)
          (subst (λ l. Occurs t.receiver.devi_info (d ∷ l)) (sym g.1) h.current);
    turns = rw g.1 h.turns;
  }
  Goes-IsServed d t s (inr g) h = record {
    current = rw g (inr (Occurs-last s.devi_info t.receiver.notices));
    turns = rw g (All-weaken (d ∷ t.receiver.notices) (s.devi_info ∷ []) t.handled h.turns);
  }

  Step-IsServed : (d : CustomerPackage D) (t u : Threads D) → Step t u → IsServed d t → IsServed d u
  Step-IsServed d t _ (announced _ e a f) h =
      let g = Goes-IsServed d t _ (receive-Goes t.receiver e) h in
      record { current = g.current; turns = g.turns }
  Step-IsServed d t _ (quiet _ e a) h = Goes-IsServed d t _ (receive-Goes t.receiver e) h
  Step-IsServed d t _ (wakes_up _ e) h = record { current = h.current; turns = h.turns }
  Step-IsServed d t _ (takes _ e) h = record {
    current = h.current;
    turns = All-append _ _ _ h.turns (h.current, tt);
  }
  Step-IsServed d t _ (returns _ e) h = record { current = h.current; turns = h.turns }
  Step-IsServed d t _ (locks _ e) h = record { current = h.current; turns = h.turns }
  Step-IsServed d t _ (unlocks _ e) h = record { current = h.current; turns = h.turns }
  Step-IsServed d t _ (waits _ e) h = record { current = h.current; turns = h.turns }

  -- Whatever the order of the steps of the two threads, each turn of the main loop is made with a
  -- package that was announced, or with the first value of `*deviInfo`, if it is so at the start.
  pub Reaches-IsServed :
      (d : CustomerPackage D) {t u : Threads D} → Reaches t u → IsServed d t → IsServed d u
  Reaches-IsServed d here h = h
  Reaches-IsServed d (step r s) h = Step-IsServed d _ _ s (Reaches-IsServed d r h)
