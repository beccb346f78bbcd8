-- ===== src/Backup.antt =====
-- `BackupDbController::checkDate` of src/database_controller.cpp and `MyDate` of
-- include/main_logic.h. A text is the list of its character codes. The local time and the text under
-- `last_backup_time` in the configuration file are arguments; `none` is an exception of `substr` or
-- `stoi`, which nothing catches.
pub mod Text
pub mod Due
mod Tests
use rokit_locator_qr_addon.Base.{
  ℕ, ◌+◌, Bool, true, false, not, ◌&&◌, Option, none, some, List, [], ◌∷◌, ◌++◌, ltb, if◌then◌else◌,
}
use rokit_locator_qr_addon.Base.Int.{ℤ, pos, ◌-ℤ◌, ltb_ℤ, eq_ℤ}
use Text.{substr, stoi, to_string}
use rokit_locator_qr_addon.Base.{◌>>=◌}

pub record MyDate : Type 0 where
  pub year : ℤ
  pub month : ℤ
  pub day : ℤ

-- The fields of `tm` that the code reads.
pub record Tm : Type 0 where
  pub tm_year : ℕ
  pub tm_mon : ℕ
  pub tm_mday : ℕ

pub parse_date : List ℕ → Option MyDate
parse_date text = do
  year_text ← substr text 0 4
  year ← stoi year_text
  month_text ← substr text 4 2
  month ← stoi month_text
  day_text ← substr text 6 2
  day ← stoi day_text
  some (record { year = year; month = month; day = day })

pub today : Tm → MyDate
today p = record { year = pos (p.tm_year + 1900); month = pos (p.tm_mon + 1); day = pos p.tm_mday }

-- A month or a day, with a leading zero below 10.
pub two_digits : ℤ → List ℕ
two_digits n = if ltb_ℤ n (pos 10) then b'0' ∷ to_string n else to_string n

unfoldable pub new_time : MyDate → List ℕ
unfolding two_digits
new_time d = to_string d.year ++ (two_digits d.month ++ two_digits d.day)

-- The three tests of `checkDate`, in their order.
pub is_due : MyDate → MyDate → Bool
is_due origin now =
    if not (eq_ℤ origin.year now.year)
    then true
    else if ltb_ℤ (pos 1) (now.month -ℤ origin.month)
    then true
    else if ltb_ℤ origin.day now.day && eq_ℤ (now.month -ℤ origin.month) (pos 1)
    then true
    else false

-- The result, and the text under `last_backup_time` afterwards.
unfoldable pub check_date : List ℕ → Tm → List ℕ → Option (Bool × List ℕ)
unfolding parse_date today new_time is_due
check_date last_backup_date now file = do
  origin ← parse_date last_backup_date
  let tmp = today now
  if is_due origin tmp then some (true, new_time tmp) else some (false, file)
