-- ===== src/Backup/Text.antt =====
-- The functions of the standard library that `checkDate` of src/database_controller.cpp calls on
-- texts: `std::string::substr`, `std::stoi` and `std::to_string`.
pub mod Digits
use rokit_locator_qr_addon.Base.{
  ◌>>=◌, ℕ, zero, suc, ◌+◌, ◌-◌, ◌*◌, ◌/◌, ◌%◌, Bool, ◌&&◌, ◌||◌, true, false, Option, none, some,
  List, [], ◌∷◌, ltb, leb, ◌==◌, if◌then◌else◌, length, take, drop,
}
use rokit_locator_qr_addon.Base.Int.{ℤ, pos, negsuc, sub_ℕ}

unfoldable pub substr : List ℕ → ℕ → ℕ → Option (List ℕ)
substr text at n = if ltb (length text) at then none else some (take n (drop at text))

is_space : ℕ → Bool
is_space c = c == 32 || (leb 9 c && leb c 13)

is_digit : ℕ → Bool
is_digit c = leb b'0' c && leb c b'9'

-- The digits up to the first other character.
value : ℕ → List ℕ → ℕ
unfolding is_digit
value acc [] = acc
value acc (c ∷ text) =
    let rest = value (acc * 10 + (c - b'0')) text in if is_digit c then rest else acc

-- Behind the sign; an exception if no digit stands there.
unsigned : List ℕ → Option ℕ
unfolding is_digit value
unsigned [] = none
unsigned (c ∷ text) = if is_digit c then some (value 0 (c ∷ text)) else none

signed : List ℕ → Option ℤ
unfolding unsigned
signed [] = none
signed (c ∷ text) =
    if c == b'-'
    then unsigned text >>= (λ n. some (sub_ℕ 0 n))
    else if c == b'+'
    then unsigned text >>= (λ n. some (pos n))
    else unsigned (c ∷ text) >>= (λ n. some (pos n))

skip_spaces : List ℕ → List ℕ
unfolding is_space
skip_spaces [] = []
skip_spaces (c ∷ text) = let rest = skip_spaces text in if is_space c then rest else c ∷ text

unfoldable pub stoi : List ℕ → Option ℤ
unfolding signed skip_spaces
stoi text = signed (skip_spaces text)

-- The decimal digits of `n` in front of `text`. Each round drops a digit, so `suc n` rounds do.
digits : ℕ → ℕ → List ℕ → List ℕ
digits zero n text = text
digits (suc fuel) n text =
    let rest = digits fuel (n / 10) ((b'0' + n % 10) ∷ text) in
    if ltb n 10 then (b'0' + n) ∷ text else rest

unfoldable pub to_string : ℤ → List ℕ
unfolding digits
to_string (pos n) = digits (suc n) n []
to_string (negsuc n) = b'-' ∷ digits (suc (suc n)) (suc n) []
