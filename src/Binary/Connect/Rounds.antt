-- ===== src/Binary/Connect/Rounds.antt =====
-- How many rounds `Connect` makes, and how it ends (include/binary_interface_client.h).
use rokit_locator_qr_addon.Base.{
  ℕ, zero, suc, ◌+◌, ◌-◌, ◌≤◌, ◌<◌, ◌≡◌, refl, true, false, ◌&&◌, Option, none, some, List, [], ◌∷◌,
  arith, subst, ap, Option-cases, inl, inr,
}
use rokit_locator_qr_addon.Binary.Connect.{
  Errno, Attempt, no_socket, fails, opens, Connecting, walk, is_temporary, retry_attempts,
  connect_rounds, Network, set_no_delay, connect,
}

-- The handle of the first attempt of a round that connects.
abbrev pub first_open : List Attempt → Option ℕ
first_open [] = none
first_open (opens h ∷ attempts) = some h
first_open (no_socket ∷ attempts) = first_open attempts
first_open (fails e ∷ attempts) = first_open attempts

abbrev pub or_else : Option Errno → Errno → Errno
or_else none e = e
or_else (some e') e = e'

-- The error of the last `connect` of a round that fails.
abbrev pub last_error : List Attempt → Option Errno
last_error [] = none
last_error (opens h ∷ attempts) = none
last_error (no_socket ∷ attempts) = last_error attempts
last_error (fails e ∷ attempts) = some (or_else (last_error attempts) e)

-- A round without a connection, whose last error may go away.
pub record IsDown (attempts : List Attempt) : Type 0 where
  pub error : Errno
  pub closed : first_open attempts ≡ none
  pub last : last_error attempts ≡ some error
  pub temporary : is_temporary error ≡ true

-- A round that ends the loop, with the handle if there is one; `is_last` is for the last round.
pub data Decides (is_last : Type 0) (attempts : List Attempt) : Option ℕ → Type 0 where
  opened : (h : ℕ) → first_open attempts ≡ some h → Decides is_last attempts (some h)
  fatal :
      (e : Errno)
      → first_open attempts ≡ none
      → last_error attempts ≡ some e
      → is_temporary e ≡ false
      → Decides is_last attempts none
  out_of_rounds : is_last → IsDown attempts → Decides is_last attempts none

walk_opened :
    (h : ℕ) (attempts : List Attempt) (c : Connecting)
    → first_open attempts ≡ some h
    → ((walk attempts c).handle ≡ some h) × ((walk attempts c).is_failed ≡ false)
unfolding walk
walk_opened h [] c e = cc
walk_opened h (opens k ∷ attempts) c e = ground arith
walk_opened h (no_socket ∷ attempts) c e = walk_opened h attempts _ e
walk_opened h (fails x ∷ attempts) c e = walk_opened h attempts _ e

walk_closed :
    (attempts : List Attempt) (c : Connecting)
    → first_open attempts ≡ none
    → last_error attempts ≡ none
    → c.handle ≡ none
    → ((walk attempts c).handle ≡ none)
      × ((walk attempts c).is_failed ≡ c.is_failed)
      × ((walk attempts c).error ≡ c.error)
unfolding walk
walk_closed [] c o e h = (h, refl, refl)
walk_closed (opens k ∷ attempts) c o e h = absurd (cc)
walk_closed (no_socket ∷ attempts) c o e h = walk_closed attempts _ o e refl
walk_closed (fails x ∷ attempts) c o e h = absurd (cc)

walk_failed :
    (x : Errno) (attempts : List Attempt) (c : Connecting)
    → first_open attempts ≡ none
    → last_error attempts ≡ some x
    → ((walk attempts c).handle ≡ none)
      × ((walk attempts c).is_failed ≡ true)
      × ((walk attempts c).error ≡ x)
unfolding walk
walk_failed x [] c o e = cc
walk_failed x (opens k ∷ attempts) c o e = cc
walk_failed x (no_socket ∷ attempts) c o e = walk_failed x attempts _ o e
walk_failed x (fails y ∷ attempts) c o e = elim (Option-cases (last_error attempts)) [
  | inl none_later ↦ ground (
    arith,
    walk_closed attempts (record { handle = none; is_failed = true; error = y }) o none_later refl,
  )
  | inr (z, later) ↦ ground (
    arith,
    walk_failed z attempts (record { handle = none; is_failed = true; error = y }) o later,
  )
]

stops :
    (left index : ℕ) (attempts : ℕ → List Attempt) (c : Connecting)
    → ((walk (attempts index) c).is_failed && is_temporary (walk (attempts index) c).error) ≡ false
    → connect_rounds left index attempts c ≡ walk (attempts index) c
unfolding connect_rounds
stops zero index attempts c h = refl
stops (suc left) index attempts c h = rw (h, connect_rounds)

decided :
    (r : Option ℕ) (left index : ℕ) (attempts : ℕ → List Attempt) (c : Connecting)
    → Decides (left ≡ 0) (attempts index) r
    → (connect_rounds left index attempts c).handle ≡ r
unfolding connect_rounds
decided _ left index attempts c (opened h o) =
    let (handle, failed) = walk_opened h (attempts index) c o in
    rw (stops left index attempts c (ground arith)) handle
decided _ left index attempts c (fatal e o l t) =
    let (handle, failed, error) = walk_failed e (attempts index) c o l in
    rw (stops left index attempts c (ground arith)) handle
decided _ zero index attempts c (out_of_rounds z d) =
    (walk_failed d.error (attempts index) c d.closed d.last).0
decided _ (suc left) index attempts c (out_of_rounds z d) = absurd (omega arith)

rounds :
    (r : Option ℕ) (k left index : ℕ) (attempts : ℕ → List Attempt) (c : Connecting)
    → ((i : ℕ) → i < k → IsDown (attempts (index + i)))
    → Decides (left ≡ 0) (attempts (index + k)) r
    → (connect_rounds (left + k) index attempts c).handle ≡ r
unfolding connect_rounds
rounds r zero left index attempts c down d =
    let e : left + 0 ≡ left = omega arith in
    let f : index + 0 ≡ index = omega arith in rw e (decided r left index attempts c (rw f at d))
rounds r (suc k) left index attempts c down d =
    let e : left + suc k ≡ suc (left + k) = omega arith in
    let f : index + 0 ≡ index = omega arith in
    let first : IsDown (attempts index) = rw f at (down 0 (omega arith)) in
    let (_, failed, error) = walk_failed first.error (attempts index) c first.closed first.last in
    let again : ((walk (attempts index) c).is_failed
          && is_temporary (walk (attempts index) c).error)
        ≡ true =
      ground (arith, first.temporary) in
    rw (e, again, connect_rounds)
      (rounds r k left (index + 1) attempts (walk (attempts index) c)
        (λ i h.
          let g : index + 1 + i ≡ index + suc i = omega arith in rw g (down (suc i) (omega arith)))
        (let g : index + 1 + k ≡ index + suc k = omega arith in rw g d))

Decides-map :
    {P Q : Type 0} {attempts : List Attempt} {r : Option ℕ}
    → (P → Q)
    → Decides P attempts r
    → Decides Q attempts r
Decides-map f (opened h o) = opened h o
Decides-map f (fatal e o l t) = fatal e o l t
Decides-map f (out_of_rounds p d) = out_of_rounds (f p) d

-- If the address resolves, and the rounds before round `k` are without a connection and their last
-- errors may go away, then round `k` decides, which is at most the round with number 100: `Connect`
-- has the handle of the first attempt of that round that connects; it throws if there is none and the
-- last error is one that does not go away; and it throws if this is round 100. A handle that does not
-- take TCP_NODELAY makes it throw too.
pub connect_lem :
    (n : Network) (k : ℕ) (r : Option ℕ)
    → n.resolves ≡ true
    → k ≤ retry_attempts
    → ((i : ℕ) → i < k → IsDown (n.attempts i))
    → Decides (k ≡ retry_attempts) (n.attempts k) r
    → connect n ≡ set_no_delay n r
unfolding connect
connect_lem n k r resolved h down d =
    let start : Connecting = record { handle = none; is_failed = false; error = n.errno } in
    let e : (retry_attempts - k) + k ≡ retry_attempts = omega arith in
    let handle : (connect_rounds retry_attempts 0 n.attempts start).handle ≡ r =
      subst (λ t. (connect_rounds t 0 n.attempts start).handle ≡ r) e
        (rounds r k (retry_attempts - k) 0 n.attempts start
          (λ i p. let z : 0 + i ≡ i = omega arith in rw z (down i p))
          (let z : 0 + k ≡ k = omega arith in rw z (Decides-map (λ q. omega arith) d))) in
    rw (resolved, connect) (ap (set_no_delay n) handle)
