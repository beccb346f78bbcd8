-- ===== src/Customer.antt =====
-- The receiving loop of `ThreadHandler::recCustomerPack` (src/thread_pool.cpp), over the results of
-- its calls of `recv`.
pub mod Changes
mod Tests
use rokit_locator_qr_addon.Base.{ℕ, ◌+◌, ◌-◌, ◌^◌, List, [], ◌∷◌, ◌++◌, ◌==◌, if◌then◌else◌}
use rokit_locator_qr_addon.Double.{Double}
use rokit_locator_qr_addon.Dm.{CustomerPackage}

-- What `recv` brings: the package that then stands in `localPackage`, the 0 of a closed connection,
-- or a negative result. (`localPackage` is zeroed before each call, so a short read leaves zeros.)
pub data Recv (D : Type 0) : Type 0 where
  received : CustomerPackage D → Recv D
  closed failed : Recv D

-- The variables of the loop, `*deviInfo`, what it held at each `notify_one`, and how many errors
-- went to the log and connections were accepted.
pub record Receiver (D : Type 0) : Type 0 where
  pub id_record : ℕ
  pub devi_info : CustomerPackage D
  pub notices : List (CustomerPackage D)
  pub errors : ℕ
  pub accepts : ℕ

abbrev pub uint32_max : ℕ
uint32_max = 2 ^ 32 - 1

module _ {D : Type 0} where
  -- At `ACCEPT` for the first time, with the package that `*deviInfo` holds.
  unfoldable pub accept : CustomerPackage D → Receiver D
  accept devi_info = record {
    id_record = uint32_max;
    devi_info = devi_info;
    notices = [];
    errors = 0;
    accepts = 1;
  }

module _ {D : Type 0} ⦃fl : Double D⦄ where
  -- The user sends the pose of the lens in the code's coordinates; here its signs are reversed.
  unfoldable pub reverse_deviation : CustomerPackage D → CustomerPackage D
  reverse_deviation p = record p {
    deviation_x = fl.mul p.deviation_x fl.minus_one;
    deviation_y = fl.mul p.deviation_y fl.minus_one;
    deviation_a = fl.mul p.deviation_a fl.minus_one;
  }

  announce : Receiver D → CustomerPackage D → Receiver D
  announce r p = record r {
    id_record = p.dm_id;
    devi_info = reverse_deviation p;
    notices = r.notices ++ (reverse_deviation p ∷ []);
  }

  -- One round of `while (1)`, with the `goto` back to `ACCEPT`.
  unfoldable pub receive : Receiver D → Recv D → Receiver D
  unfolding announce
  receive r failed = record r { errors = r.errors + 1 }
  receive r closed = record r { id_record = uint32_max; accepts = r.accepts + 1 }
  receive r (received p) = if p.dm_id == r.id_record then r else announce r p

  pub receive_all : Receiver D → List (Recv D) → Receiver D
  receive_all r [] = r
  receive_all r (e ∷ events) = receive_all (receive r e) events
