-- ===== src/Db/Memory.antt =====
-- A table in memory in the place of SQLite, for the tests: it keeps to the laws.
use mathlib.Core.List.Permᴰ
use rokit_locator_qr_addon.Base.{
  ◌≡◌, refl, true, false, Option, none, some, List, [], take, is_some,
}
use rokit_locator_qr_addon.Base.Int.{ℤ}
use rokit_locator_qr_addon.Db.{
  Sql, insert, update, select, keep_rows_size, Answer, Sqlite, Schema, Table, matching, meaning,
  IsSqlite, IsReliable,
}
use rokit_locator_qr_addon.Db.User.{Row}
use rokit_locator_qr_addon.Db.User
use rokit_locator_qr_addon.Db.Self.{SelfRow}
use rokit_locator_qr_addon.Db.Self

module _ {R : Type 0} (schema : Schema R) where
  abbrev pub selected : Sql R → Table R → List R
  selected (select id limit) t = take limit (matching schema id t.rows)
  selected (insert r) t = []
  selected (update r) t = []
  selected (keep_rows_size max) t = []

  abbrev pub answer : Sql R → Table R → Option (Table R) → Answer R × Table R
  answer s t none = (record { ok = false; rows = [] }, t)
  answer s t (some t') = (record { ok = true; rows = selected s t }, t')

  unfoldable pub memory : Sqlite R (Table R)
  unfolding meaning
  memory = record { exec = λ s t. answer s t (meaning schema s t) }

  abbrev same : Table R → Table R
  same t = t

  answer-some :
      (s : Sql R) (t : Table R) (o : Option (Table R))
      → (answer s t o).0.ok ≡ true
      → o ≡ some (answer s t o).1
  answer-some s t none e = cc
  answer-some s t (some t') e = refl

  answer-none :
      (s : Sql R) (t : Table R) (o : Option (Table R))
      → (answer s t o).0.ok ≡ false
      → (answer s t o).1 ≡ t
  answer-none s t none e = refl
  answer-none s t (some t') e = cc

  answer-ok : (s : Sql R) (t : Table R) (o : Option (Table R)) → (answer s t o).0.ok ≡ is_some o
  answer-ok s t none = refl
  answer-ok s t (some t') = refl

  memory-IsSqlite : IsSqlite schema ⦃sqlite = memory⦄ same
  unfolding memory
  memory-IsSqlite = record {
    succeeds = λ s t. answer-some s t (meaning schema s t);
    fails = λ s t. answer-none s t (meaning schema s t);
    delivers = λ id limit t _. (matching schema id t.rows, Permᴰ.refl _, refl);
  }

  memory-IsReliable : IsReliable schema ⦃sqlite = memory⦄ same
  unfolding memory
  memory-IsReliable = record { answers = λ s t. answer-ok s t (meaning schema s t) }

abbrev pub UserTable : Type 0
UserTable = Table (Row ℤ)

abbrev pub SelfTable : Type 0
SelfTable = Table (SelfRow ℤ)

instance abbrev pub user_memory : Sqlite (Row ℤ) UserTable
user_memory = memory User.schema

instance abbrev pub self_memory : Sqlite (SelfRow ℤ) SelfTable
self_memory = memory Self.schema

abbrev pub user_contents : UserTable → UserTable
user_contents t = t

abbrev pub self_contents : SelfTable → SelfTable
self_contents t = t

pub user_memory-IsSqlite : IsSqlite User.schema user_contents
user_memory-IsSqlite = memory-IsSqlite User.schema

pub user_memory-IsReliable : IsReliable User.schema user_contents
user_memory-IsReliable = memory-IsReliable User.schema

pub self_memory-IsSqlite : IsSqlite Self.schema self_contents
self_memory-IsSqlite = memory-IsSqlite Self.schema
