-- ===== src/Backup/Text/Digits.antt =====
-- The texts that `std::to_string` writes and `std::stoi` reads, at the widths of a date
-- (src/database_controller.cpp).
use rokit_locator_qr_addon.Base.{
  ℕ, suc, ◌+◌, ◌-◌, ◌*◌, ◌/◌, ◌%◌, ◌≤◌, ◌<◌, ◌≡◌, some, [], ◌∷◌, arith, subst, sym,
}
use rokit_locator_qr_addon.Base.Int.{pos}
use rokit_locator_qr_addon.Backup.Text.{digits, to_string, stoi}

digits_four :
    (f y : ℕ)
    → 1000 ≤ y
    → y < 10_000
    → digits (suc (suc (suc (suc f)))) y []
      ≡ (b'0' + y / 1000) ∷ (b'0' + y / 100 % 10) ∷ (b'0' + y / 10 % 10) ∷ (b'0' + y % 10) ∷ []
unfolding digits
digits_four f y lo hi = ground arith

pub to_string_four :
    (y : ℕ)
    → 1000 ≤ y
    → y < 10_000
    → to_string (pos y)
      ≡ (b'0' + y / 1000) ∷ (b'0' + y / 100 % 10) ∷ (b'0' + y / 10 % 10) ∷ (b'0' + y % 10) ∷ []
unfolding to_string
to_string_four y lo hi =
    let e : y ≡ suc (suc (suc (y - 3))) = omega arith in
    subst
      (λ k.
        digits (suc k) y []
        ≡ (b'0' + y / 1000) ∷ (b'0' + y / 100 % 10) ∷ (b'0' + y / 10 % 10) ∷ (b'0' + y % 10) ∷ [])
      (sym e) (digits_four (y - 3) y lo hi)

pub stoi_four :
    (a b c d : ℕ)
    → a < 10
    → b < 10
    → c < 10
    → d < 10
    → stoi ((b'0' + a) ∷ (b'0' + b) ∷ (b'0' + c) ∷ (b'0' + d) ∷ [])
      ≡ some (pos (1000 * a + 100 * b + 10 * c + d))
unfolding stoi
stoi_four a b c d ha hb hc hd = ground arith

pub stoi_two :
    (a b : ℕ) → a < 10 → b < 10 → stoi ((b'0' + a) ∷ (b'0' + b) ∷ []) ≡ some (pos (10 * a + b))
unfolding stoi
stoi_two a b ha hb = ground arith

pub to_string_one : (n : ℕ) → n < 10 → to_string (pos n) ≡ (b'0' + n) ∷ []
unfolding to_string
to_string_one n h = ground arith

digits_two :
    (f n : ℕ)
    → 10 ≤ n
    → n < 100
    → digits (suc (suc f)) n [] ≡ (b'0' + n / 10) ∷ (b'0' + n % 10) ∷ []
unfolding digits
digits_two f n lo hi = ground arith

pub to_string_two :
    (n : ℕ) → 10 ≤ n → n < 100 → to_string (pos n) ≡ (b'0' + n / 10) ∷ (b'0' + n % 10) ∷ []
unfolding to_string
to_string_two n lo hi =
    let e : n ≡ suc (n - 1) = omega arith in
    subst (λ k. digits (suc k) n [] ≡ (b'0' + n / 10) ∷ (b'0' + n % 10) ∷ []) (sym e)
      (digits_two (n - 1) n lo hi)
