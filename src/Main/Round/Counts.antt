-- ===== src/Main/Round/Counts.antt =====
-- What one statement does to the counts of the user database (src/database_controller.cpp).
use rokit_locator_qr_addon.Base.{
  ℕ, ◌+◌, ◌≡◌, ◌≢◌, ◌∙◌, Bool, true, false, ◌==◌, Option, none, some, List, arith, if◌then◌else◌,
  ap, is_some, ==_refl,
}
use rokit_locator_qr_addon.Double.{Double}
use rokit_locator_qr_addon.Dm.{DmInfo}
use rokit_locator_qr_addon.Db.{
  insert, update, select, Sqlite, Table, IsSqlite, IsReliable, lookup, has, meaning,
}
use rokit_locator_qr_addon.Db.Rows.{has-lookup}
use rokit_locator_qr_addon.Db.User.{Row, UserDb, schema, to_row, add_content, update_data_base}
use rokit_locator_qr_addon.Db.User.Retrieve.{IsUserTable}
use rokit_locator_qr_addon.Db.User.Write.{add_content_lem, update_data_base_lem}

abbrev pub cnt_of : {D : Type 0} → Option (Row D) → ℕ
cnt_of none = 0
cnt_of (some r) = r.dm_cnt

abbrev pub enable_of : {D : Type 0} → Option (Row D) → Bool
enable_of none = false
enable_of (some r) = r.enable

-- From `old` to `new` one sighting of the code `id` is counted: its row shows one more, or there is
-- now one that shows 1; the row is as enabled as before; and the other rows are the same.
pub record Counts {D : Type 0} (id : ℕ) (old new : List (Row D)) : Type 0 where
  pub cnt : cnt_of (lookup schema id new) ≡ cnt_of (lookup schema id old) + 1
  pub enable : enable_of (lookup schema id new) ≡ enable_of (lookup schema id old)
  pub others : (i : ℕ) → i ≢ id → lookup schema i new ≡ lookup schema i old

-- The user database, between two rounds.
pub record IsOpen {D UDb : Type 0} (contents : UDb → Table (Row D)) (u : UserDb UDb) : Type 0 where
  pub table : IsUserTable (contents u.db)
  pub flag : u.whether_cb ≡ false

-- One row is stored under its id.
abbrev pub Stores : {D : Type 0} → Row D → List (Row D) → List (Row D) → Type 0
Stores r old new =
    (i : ℕ) → lookup schema i new ≡ (if r.dm_id == i then some r else lookup schema i old)

pub Stores-Counts :
    {D : Type 0} (r : Row D) (old new : List (Row D))
    → Stores r old new
    → r.dm_cnt ≡ cnt_of (lookup schema r.dm_id old) + 1
    → r.enable ≡ enable_of (lookup schema r.dm_id old)
    → Counts r.dm_id old new
Stores-Counts r old new st c e = record {
  cnt = rw (st r.dm_id, ==_refl r.dm_id) c;
  enable = rw (st r.dm_id, ==_refl r.dm_id) e;
  others = λ i ne. ground (arith, st i);
}

module _ {D Db : Type 0} ⦃fl : Double D⦄ ⦃sqlite : Sqlite (Row D) Db⦄
    {contents : Db → Table (Row D)} (laws : IsSqlite schema contents)
    (reliable : IsReliable schema contents) where
  insert_answers :
      (r : Row D) (db : Db)
      → has schema r.dm_id (contents db).rows ≡ false
      → (sqlite.exec (insert r) db).0.ok ≡ true
  unfolding meaning
  insert_answers r db h = ground (arith, reliable.answers (insert r) db)

  update_answers : (r : Row D) (db : Db) → (sqlite.exec (update r) db).0.ok ≡ true
  unfolding meaning
  update_answers r db = reliable.answers (update r) db

  pub select_answers : (id limit : ℕ) (db : Db) → (sqlite.exec (select id limit) db).0.ok ≡ true
  unfolding meaning
  select_answers id limit db = reliable.answers (select id limit) db

  pub add_content-Stores :
      (dm : DmInfo D) (u : UserDb Db)
      → IsUserTable (contents u.db)
      → lookup schema dm.id (contents u.db).rows ≡ none
      → Stores (to_row dm) (contents u.db).rows (contents (add_content dm u).db).rows
  unfolding to_row
  add_content-Stores dm u t absent i =
      let ok = insert_answers (to_row dm) u.db (has-lookup schema dm.id _ ∙ ap is_some absent) in
      (rw ok at ((add_content_lem laws dm u t).1 i))

  pub update_data_base-Stores :
      (dm : DmInfo D) (u : UserDb Db) (r : Row D)
      → IsUserTable (contents u.db)
      → lookup schema dm.id (contents u.db).rows ≡ some r
      → Stores (to_row dm) (contents u.db).rows (contents (update_data_base dm u).db).rows
  unfolding to_row
  update_data_base-Stores dm u r t present i =
      let stored = (update_data_base_lem laws dm u t).1 i in
      let here = has-lookup schema dm.id (contents u.db).rows ∙ ap is_some present in
      ground (arith, stored, here, update_answers (to_row dm) u.db)
