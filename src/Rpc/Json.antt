-- ===== src/Rpc/Json.antt =====
-- JSON values and the access to them that src/rpc_client.cpp makes by rapidjson. `none` is a failed
-- assertion of rapidjson (a missing member, or a value of another type), which ends the program.
use Prim.Native.Char.{code}
use Prim.Native.String.{String}
use rokit_locator_qr_addon.Base.{
  ℕ, ◌^◌, Bool, true, false, ◌&&◌, Option, none, some, List, [], ◌∷◌, ltb, ◌==◌, if◌then◌else◌,
}
use rokit_locator_qr_addon.Base.Int.{ℤ, pos, negsuc}

abbrev pub codes : String → List ℕ
codes String.[] = []
codes (String.◌∷◌ c s) = code c ∷ codes s

abbrev pub text_eq : List ℕ → List ℕ → Bool
text_eq [] [] = true
text_eq (c ∷ s) (d ∷ t) = c == d && text_eq s t
text_eq _ _ = false

mutual
  pub data Json (D : Type 0) : Type 0 where
    null : Json D
    bool : Bool → Json D
    int : ℤ → Json D
    double : D → Json D
    string : List ℕ → Json D
    array : Items D → Json D
    object : Members D → Json D

  pub data Items (D : Type 0) : Type 0 where
    nil : Items D
    cons : Json D → Items D → Items D

  pub data Members (D : Type 0) : Type 0 where
    end : Members D
    field : List ℕ → Json D → Members D → Members D

module _ {D : Type 0} where
  pub find_member : List ℕ → Members D → Option (Json D)
  find_member name end = none
  find_member name (field k v ms) = if text_eq k name then some v else find_member name ms

  -- `v[name]`, and `HasMember`: both assert that `v` is an object.
  unfoldable pub get_member : List ℕ → Json D → Option (Json D)
  unfolding find_member
  get_member name (object ms) = find_member name ms
  get_member name v = none

  unfoldable pub has_member : List ℕ → Json D → Option Bool
  unfolding find_member
  has_member name (object ms) = elim (find_member name ms) [
    | none ↦ some false
    | some v ↦ some true
  ]
  has_member name v = none

  unfoldable pub get_int : Json D → Option ℤ
  get_int (int (pos n)) = if ltb n (2 ^ 31) then some (pos n) else none
  get_int (int (negsuc n)) = if ltb n (2 ^ 31) then some (negsuc n) else none
  get_int v = none

  unfoldable pub get_int64 : Json D → Option ℤ
  get_int64 (int (pos n)) = if ltb n (2 ^ 63) then some (pos n) else none
  get_int64 (int (negsuc n)) = if ltb n (2 ^ 63) then some (negsuc n) else none
  get_int64 v = none

  unfoldable pub get_uint64 : Json D → Option ℕ
  get_uint64 (int (pos n)) = if ltb n (2 ^ 64) then some n else none
  get_uint64 v = none

  unfoldable pub get_string : Json D → Option (List ℕ)
  get_string (string s) = some s
  get_string v = none
