-- ===== src/Double/Whole.antt =====
-- Whole numbers in the place of the doubles, for the tests.
use rokit_locator_qr_addon.Base.{ℕ, zero, suc, ◌+◌, ◌*◌, ◌/◌, leb, if◌then◌else◌}
use rokit_locator_qr_addon.Base.Int.{ℤ, pos, negsuc, pos_part, neg_part, sub_ℕ, ltb_ℤ}
use rokit_locator_qr_addon.Double.{Double}

abbrev times : ℤ → ℤ → ℤ
times a b =
    sub_ℕ (pos_part a * pos_part b + neg_part a * neg_part b)
      (pos_part a * neg_part b + neg_part a * pos_part b)

abbrev power : ℤ → ℕ → ℤ
power a zero = pos 1
power a (suc n) = times a (power a n)

-- The largest number up to the second argument whose square is not over the first one.
abbrev root : ℕ → ℕ → ℕ
root n zero = 0
root n (suc r) = let rest = root n r in if leb (suc r * suc r) n then suc r else rest

instance abbrev pub whole : Double ℤ
whole = record {
  nought = pos 0;
  minus_one = negsuc 0;
  of_ℕ = λ n. pos n;
  add = λ a b. sub_ℕ (pos_part a + pos_part b) (neg_part a + neg_part b);
  sub = λ a b. sub_ℕ (pos_part a + neg_part b) (neg_part a + pos_part b);
  mul = times;
  div = λ a b. sub_ℕ (pos_part a / pos_part b) (neg_part a / pos_part b);
  pow = λ a b. power a (pos_part b);
  sqrt = λ a. pos (root (pos_part a) (pos_part a));
  gt = λ a b. ltb_ℤ b a;
  six_decimals = λ a. a;
}
