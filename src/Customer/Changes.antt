-- ===== src/Customer/Changes.antt =====
-- Which packages `recCustomerPack` of src/thread_pool.cpp announces to the main loop.
use mathlib.Core.List.{append-nil}
use rokit_locator_qr_addon.Base.{
  ℕ, zero, suc, ◌≡◌, refl, List, [], ◌∷◌, ◌++◌, ◌==◌, if◌then◌else◌, arith,
}
use rokit_locator_qr_addon.Double.{Double}
use rokit_locator_qr_addon.Dm.{CustomerPackage}
use rokit_locator_qr_addon.Customer.{
  Recv, received, closed, failed, Receiver, uint32_max, reverse_deviation, accept, receive,
  receive_all,
}

abbrev pub errors : {D : Type 0} → ℕ → List (Recv D)
errors zero = []
errors (suc n) = failed ∷ errors n

-- The last package of a list; `d` if it is empty.
abbrev pub last_or : {D : Type 0} → CustomerPackage D → List (CustomerPackage D) → CustomerPackage D
last_or d [] = d
last_or d (p ∷ ps) = last_or p ps

last_or-append :
    {D : Type 0} (d p : CustomerPackage D) (ps : List (CustomerPackage D))
    → last_or d (ps ++ (p ∷ [])) ≡ p
last_or-append d p [] = refl
last_or-append d p (q ∷ ps) = last_or-append q p ps

module _ {D : Type 0} ⦃fl : Double D⦄ where
  receive_all-append :
      (r : Receiver D) (xs ys : List (Recv D))
      → receive_all r (xs ++ ys) ≡ receive_all (receive_all r xs) ys
  unfolding receive_all
  receive_all-append r [] ys = refl
  receive_all-append r (x ∷ xs) ys = receive_all-append (receive r x) xs ys

  receive-id_record :
      (r : Receiver D) (p : CustomerPackage D) → (receive r (received p)).id_record ≡ p.dm_id
  unfolding receive
  receive-id_record r p = ground arith

  after_errors :
      (n : ℕ) (r : Receiver D) (q : CustomerPackage D)
      → (receive_all r (errors n ++ (received q ∷ []))).notices
        ≡ r.notices ++ (if q.dm_id == r.id_record then [] else reverse_deviation q ∷ [])
  unfolding receive_all receive
  after_errors zero r q = ground (arith, append-nil r.notices)
  after_errors (suc n) r q = after_errors n _ q

  -- A package that comes after another one of the connection, with nothing but failed calls of
  -- `recv` in between, is announced exactly if it shows another id, with the signs of its deviations
  -- reversed; whatever came before.
  pub announces_change :
      (r : Receiver D) (before : List (Recv D)) (p q : CustomerPackage D) (n : ℕ)
      → (receive_all r (before ++ (received p ∷ (errors n ++ (received q ∷ []))))).notices
        ≡ (receive_all r (before ++ (received p ∷ []))).notices
          ++ (if q.dm_id == p.dm_id then [] else reverse_deviation q ∷ [])
  unfolding receive_all receive
  announces_change r before p q n =
      rw
        (
          receive_all-append r before (received p ∷ (errors n ++ (received q ∷ []))),
          receive_all-append r before (received p ∷ []),
        )
        (rw (receive-id_record (receive_all r before) p) at
          (after_errors n (receive (receive_all r before) (received p)) q))

  -- The first package of a new connection is announced exactly if its id is not 2 ^ 32 - 1, also if
  -- the last connection ended with the same id.
  pub announces_first :
      (r : Receiver D) (before : List (Recv D)) (q : CustomerPackage D) (n : ℕ)
      → (receive_all r (before ++ (closed ∷ (errors n ++ (received q ∷ []))))).notices
        ≡ (receive_all r before).notices
          ++ (if q.dm_id == uint32_max then [] else reverse_deviation q ∷ [])
  unfolding receive_all receive
  announces_first r before q n =
      rw (receive_all-append r before (closed ∷ (errors n ++ (received q ∷ []))))
        (after_errors n (receive (receive_all r before) closed) q)

  IsCurrent : CustomerPackage D → Receiver D → Type 0
  IsCurrent d r = r.devi_info ≡ last_or d r.notices

  receive-IsCurrent :
      (d : CustomerPackage D) (r : Receiver D) (e : Recv D)
      → IsCurrent d r
      → IsCurrent d (receive r e)
  unfolding receive IsCurrent
  receive-IsCurrent d r failed h = h
  receive-IsCurrent d r closed h = h
  receive-IsCurrent d r (received p) h =
      ground (arith, last_or-append d (reverse_deviation p) r.notices)

  receive_all-IsCurrent :
      (d : CustomerPackage D) (r : Receiver D) (events : List (Recv D))
      → IsCurrent d r
      → IsCurrent d (receive_all r events)
  unfolding receive_all
  receive_all-IsCurrent d r [] h = h
  receive_all-IsCurrent d r (e ∷ events) h =
      receive_all-IsCurrent d (receive r e) events (receive-IsCurrent d r e h)

  -- `*deviInfo` holds the package that was announced last, or its first value if none was.
  pub receive_all-last :
      (d : CustomerPackage D) (events : List (Recv D))
      → (receive_all (accept d) events).devi_info
        ≡ last_or d (receive_all (accept d) events).notices
  unfolding IsCurrent accept
  receive_all-last d events = receive_all-IsCurrent d (accept d) events refl
