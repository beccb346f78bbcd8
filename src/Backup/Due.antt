-- ===== src/Backup/Due.antt =====
-- When `checkDate` of src/database_controller.cpp finds a backup due, and the date that it writes.
use rokit_locator_qr_addon.Base.{
  ℕ, ◌+◌, ◌*◌, ◌/◌, ◌%◌, ◌≤◌, ◌<◌, ◌≡◌, ◌≢◌, ◌⊎◌, ◌↔◌, refl, Bool, true, false, some, List, [], ◌∷◌,
  arith, if◌then◌else◌, Bool-cases, ltb, ltb→lt, inl, inr,
}
use rokit_locator_qr_addon.Base.Int.{pos, ◌-ℤ◌}
use rokit_locator_qr_addon.Backup.{
  MyDate, Tm, parse_date, today, two_digits, new_time, is_due, check_date,
}
use rokit_locator_qr_addon.Backup.Text.{substr}
use rokit_locator_qr_addon.Base.{◌>>=◌}
use rokit_locator_qr_addon.Backup.Text.Digits.{
  to_string_one, to_string_two, to_string_four, stoi_four, stoi_two,
}

abbrev pub date : ℕ → ℕ → ℕ → MyDate
date y m d = record { year = pos y; month = pos m; day = pos d }

-- A year of four digits, a month and a day.
pub record IsDate (y m d : ℕ) : Type 0 where
  pub year_ge : 1000 ≤ y
  pub year_lt : y < 10_000
  pub month_ge : 1 ≤ m
  pub month_le : m ≤ 12
  pub day_ge : 1 ≤ d
  pub day_le : d ≤ 31

two_digits_lem : (n : ℕ) → n < 100 → two_digits (pos n) ≡ (b'0' + n / 10) ∷ (b'0' + n % 10) ∷ []
unfolding two_digits
two_digits_lem n h = elim (Bool-cases (ltb n 10)) [
  | inl small ↦ rw (to_string_one n (ltb→lt n 10 small)) (ground arith)
  | inr large ↦ rw (to_string_two n (ground arith) h) (ground arith)
]

parse_date-texts :
    (a b c d m n p q : ℕ)
    → a < 10
    → b < 10
    → c < 10
    → d < 10
    → m < 10
    → n < 10
    → p < 10
    → q < 10
    → parse_date (
        (b'0' + a)
        ∷ (b'0' + b)
        ∷ (b'0' + c)
        ∷ (b'0' + d)
        ∷ (b'0' + m)
        ∷ (b'0' + n)
        ∷ (b'0' + p)
        ∷ (b'0' + q)
        ∷ [])
      ≡ some (date (1000 * a + 100 * b + 10 * c + d) (10 * m + n) (10 * p + q))
unfolding parse_date substr
parse_date-texts a b c d m n p q ha hb hc hd hm hn hp hq =
    rw (stoi_four a b c d ha hb hc hd, stoi_two m n hm hn, stoi_two p q hp hq) refl

-- The date that `checkDate` writes is read back by the next `checkDate`: eight digits, for a year
-- of four digits.
pub parse_date-new_time :
    (y m d : ℕ) → IsDate y m d → parse_date (new_time (date y m d)) ≡ some (date y m d)
unfolding new_time
parse_date-new_time y m d v =
    rw
      (
        to_string_four y v.year_ge v.year_lt,
        two_digits_lem m (omega arith),
        two_digits_lem d (omega arith),
        parse_date-texts (y / 1000) (y / 100 % 10) (y / 10 % 10) (y % 10) (m / 10) (m % 10) (d / 10)
            (d % 10) (omega arith) (omega arith) (omega arith) (omega arith) (omega arith)
            (omega arith) (omega arith) (omega arith),
      )
      (ground arith)

is_due_iff :
    (y m d y' m' d' : ℕ)
    → IsDate y m d
    → IsDate y' m' d'
    → (is_due (date y m d) (date y' m' d') ≡ true) ↔ ((y ≢ y') ⊎ (32 * m + d + 32 < 32 * m' + d'))
unfolding is_due ◌-ℤ◌
is_due_iff y m d y' m' d' v w = ground arith

-- The local time is a date.
abbrev pub IsToday : Tm → Type 0
IsToday p = IsDate (p.tm_year + 1900) (p.tm_mon + 1) p.tm_mday

-- With the last date as `checkDate` writes it, it never throws. It finds a backup due exactly when
-- the year has changed or, in one year, more than a month has gone by, counting a month from a day
-- to the same day of the next month; then the file holds today's date, and otherwise it is unchanged.
pub check_date_lem :
    (y m d : ℕ) (p : Tm) (file : List ℕ)
    → IsDate y m d
    → IsToday p
    → (due : Bool) × (check_date (new_time (date y m d)) p file
        ≡ some (due, if due then new_time (today p) else file))
      × ((due ≡ true)
          ↔ ((y ≢ p.tm_year + 1900) ⊎ (32 * m + d + 32 < 32 * (p.tm_mon + 1) + p.tm_mday)))
unfolding check_date
check_date_lem y m d p file v w = (
  is_due (date y m d) (today p),
  rw (parse_date-new_time y m d v) (ground arith),
  is_due_iff y m d (p.tm_year + 1900) (p.tm_mon + 1) p.tm_mday v w,
)

pub check_date_due :
    (last : List ℕ) (p : Tm) (file text : List ℕ)
    → check_date last p file ≡ some (true, text)
    → text ≡ new_time (today p)
unfolding check_date
check_date_due last p file text e = ground arith

-- After a backup, a `checkDate` on the same day, with the date that the first one wrote, finds none
-- due and leaves the file alone.
pub check_date_again :
    (p : Tm) (file : List ℕ)
    → IsToday p
    → check_date (new_time (today p)) p file ≡ some (false, file)
unfolding check_date
check_date_again p file w =
    rw (parse_date-new_time (p.tm_year + 1900) (p.tm_mon + 1) p.tm_mday w, ◌>>=◌)
      (elim (Bool-cases (is_due (today p) (today p))) [
        | inl due ↦
            absurd (elim ((is_due_iff _ _ _ _ _ _ w w).0 due) [
              | inl ne ↦ ne refl
              | inr lt ↦ omega arith
            ])
        | inr old ↦ rw old
      ])
