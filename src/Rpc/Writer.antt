-- ===== src/Rpc/Writer.antt =====
-- The calls of a `rapidjson::Writer`, as src/rpc_client.cpp makes them, and the one value that a
-- sequence of calls writes. Like the writer, the reader below accepts no key outside an object, no
-- value in an object without a key, and nothing behind the first whole value.
use rokit_locator_qr_addon.Base.{ℕ, Bool, Option, none, some, List, [], ◌∷◌}
use rokit_locator_qr_addon.Base.Int.{ℤ}
use rokit_locator_qr_addon.Rpc.Json.{Json, Members, end, field, object}

pub data Call (D : Type 0) : Type 0 where
  start_object end_object : Call D
  key : List ℕ → Call D
  string : List ℕ → Call D
  double : D → Call D
  int : ℤ → Call D
  bool : Bool → Call D

-- An object that is being written: its members so far, and the key that waits for its value.
pub record Frame (D : Type 0) : Type 0 where
  pub members : Members D
  pub waiting : Option (List ℕ)

-- The open objects, the innermost first, or the whole value.
pub data Writing (D : Type 0) : Type 0 where
  opened : List (Frame D) → Writing D
  whole : Json D → Writing D

module _ {D : Type 0} where
  pub add_member : List ℕ → Json D → Members D → Members D
  add_member k v end = field k v end
  add_member k v (field j w ms) = field j w (add_member k v ms)

  put_in : Json D → Members D → Option (List ℕ) → List (Frame D) → Option (Writing D)
  unfolding add_member
  put_in v members none frames = none
  put_in v members (some k) frames =
      some (opened (record { members = add_member k v members; waiting = none } ∷ frames))

  put : Json D → List (Frame D) → Option (Writing D)
  unfolding put_in
  put v [] = some (whole v)
  put v (f ∷ frames) = put_in v f.members f.waiting frames

  abbrev new_frame : Frame D
  new_frame = record { members = end; waiting = none }

  open_in : Option (List ℕ) → Frame D → List (Frame D) → Option (Writing D)
  open_in none f frames = none
  open_in (some k) f frames = some (opened (new_frame ∷ f ∷ frames))

  name_in : Option (List ℕ) → List ℕ → Frame D → List (Frame D) → Option (Writing D)
  name_in none k f frames = some (opened (record f { waiting = some k } ∷ frames))
  name_in (some j) k f frames = none

  close_in : Option (List ℕ) → Members D → List (Frame D) → Option (Writing D)
  unfolding put
  close_in none members frames = put (object members) frames
  close_in (some k) members frames = none

  call : List (Frame D) → Call D → Option (Writing D)
  unfolding put open_in name_in close_in
  call [] start_object = some (opened (new_frame ∷ []))
  call (f ∷ frames) start_object = open_in f.waiting f frames
  call [] end_object = none
  call (f ∷ frames) end_object = close_in f.waiting f.members frames
  call [] (key k) = none
  call (f ∷ frames) (key k) = name_in f.waiting k f frames
  call frames (string s) = put (Json.string s) frames
  call frames (double d) = put (Json.double d) frames
  call frames (int n) = put (Json.int n) frames
  call frames (bool b) = put (Json.bool b) frames

  calls : Writing D → List (Call D) → Option (Json D)
  unfolding call
  calls (opened frames) [] = none
  calls (whole v) [] = some v
  calls (opened frames) (c ∷ cs) = elim (call frames c) [ none ↦ none | some w ↦ calls w cs ]
  calls (whole v) (c ∷ cs) = none

  -- The value that the calls write, if they write one whole value.
  unfoldable pub written : List (Call D) → Option (Json D)
  unfolding calls
  written cs = calls (opened []) cs
