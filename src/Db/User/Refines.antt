-- ===== src/Db/User/Refines.antt =====
-- The user database of src/database_controller.cpp as a map from ids to rows: which rows come first
-- in the table, and how SQLite finds them, has no part in what the program gets.
use rokit_locator_qr_addon.Base.{
  ℕ, ◌^◌, ◌<◌, ◌≡◌, refl, ap, ◌∙◌, Bool, true, false, not, Option, none, some, List, [], ◌∷◌, ◌==◌,
  if◌then◌else◌, is_some, All, arith,
}
use rokit_locator_qr_addon.Double.{Double}
use rokit_locator_qr_addon.Dm.{DmInfo}
use rokit_locator_qr_addon.Db.{
  insert, update, select, Sqlite, Table, IsSqlite, IsReliable, lookup, meaning,
}
use rokit_locator_qr_addon.Db.Rows.{has-lookup}
use rokit_locator_qr_addon.Db.User.{
  Row, schema, UserDb, to_row, retrieve_usr_db, add_content, update_data_base,
}
use rokit_locator_qr_addon.Db.User.Retrieve.{
  IsUserTable, wanted, load, retrieved, retrieve_usr_db_lem,
}
use rokit_locator_qr_addon.Db.User.Write.{add_content_lem, update_data_base_lem}

-- The calls that the program makes of the controller.
pub data Op (D : Type 0) : Type 0 where
  retrieves : ℕ → DmInfo D → Op D
  adds updates : DmInfo D → Op D

abbrev pub IsSmall : {D : Type 0} → Op D → Type 0
IsSmall (retrieves garbage dm) = dm.id < 2 ^ 32
IsSmall (adds dm) = Unit
IsSmall (updates dm) = Unit

-- The specification.
abbrev pub Codes : Type 0 → Type 0
Codes D = ℕ → Option (Row D)

abbrev pub set : {D : Type 0} → ℕ → Row D → Codes D → Codes D
set id r codes i = if id == i then some r else codes i

module _ {D : Type 0} ⦃fl : Double D⦄ where
  abbrev pub answer : DmInfo D → Option (Row D) → Bool × DmInfo D
  answer dm none = (false, dm)
  answer dm (some r) = (true, load r)

  -- A code is added if it is not there, and updated if it is; a retrieval finds it, but never the id 0.
  abbrev pub spec : List (Op D) → Codes D → List (Bool × DmInfo D) × Codes D
  spec [] codes = ([], codes)
  spec (retrieves garbage dm ∷ ops) codes =
      let (answers, codes') = spec ops codes in
      (answer dm (if dm.id == 0 then none else codes dm.id) ∷ answers, codes')
  spec (adds dm ∷ ops) codes =
      spec ops (λ i. if is_some (codes dm.id) then codes i else set dm.id (to_row dm) codes i)
  spec (updates dm ∷ ops) codes =
      spec ops (λ i. if is_some (codes dm.id) then set dm.id (to_row dm) codes i else codes i)

module _ {D Db : Type 0} ⦃fl : Double D⦄ ⦃sqlite : Sqlite (Row D) Db⦄ where
  -- The calls on the controller, and what the retrievals return.
  abbrev pub run : List (Op D) → UserDb Db → List (Bool × DmInfo D) × UserDb Db
  run [] u = ([], u)
  run (retrieves garbage dm ∷ ops) u =
      let (found, dm', u') = retrieve_usr_db garbage dm u in
      let (answers, end) = run ops u' in ((found, dm') ∷ answers, end)
  run (adds dm ∷ ops) u = run ops (add_content dm u)
  run (updates dm ∷ ops) u = run ops (update_data_base dm u)

  retrieved_lem :
      (dm : DmInfo D) (db : Db) (o : Option (Row D))
      → (((retrieved dm db o).0, (retrieved dm db o).1) ≡ answer dm o)
        × ((retrieved dm db o).2.whether_cb ≡ false)
        × ((retrieved dm db o).2.db ≡ db)
  retrieved_lem dm db none = (refl, refl, refl)
  retrieved_lem dm db (some r) = (refl, refl, refl)

-- The map that a controller stands for.
pub record Refines {D Db : Type 0} (contents : Db → Table (Row D)) (u : UserDb Db) (codes : Codes D)
    : Type 0 where
  pub table : IsUserTable (contents u.db)
  pub flag : u.whether_cb ≡ false
  pub finds : (i : ℕ) → lookup schema i (contents u.db).rows ≡ codes i

module _ {D Db : Type 0} ⦃fl : Double D⦄ ⦃sqlite : Sqlite (Row D) Db⦄
    {contents : Db → Table (Row D)} (laws : IsSqlite schema contents)
    (reliable : IsReliable schema contents) where
  select_ok : (id : ℕ) (u : UserDb Db) → (sqlite.exec (select id 1) u.db).0.ok ≡ true
  unfolding meaning
  select_ok id u = reliable.answers (select id 1) u.db

  retrieve-Refines :
      (garbage : ℕ) (dm : DmInfo D) (u : UserDb Db) (codes : Codes D)
      → dm.id < 2 ^ 32
      → Refines contents u codes
      → let (found, dm', u') = retrieve_usr_db garbage dm u in
        ((found, dm') ≡ answer dm (if dm.id == 0 then none else codes dm.id))
        × Refines contents u' codes
  retrieve-Refines garbage dm u codes h f =
      let (e, keeps) = retrieve_usr_db_lem laws garbage dm u f.table f.flag h in
      let row = wanted (sqlite.exec (select dm.id 1) u.db).0.ok dm.id (contents u.db).rows in
      let db = (sqlite.exec (select dm.id 1) u.db).1 in
      let wants : row ≡ (if dm.id == 0 then none else codes dm.id) =
        ground (arith, select_ok dm.id u, f.finds dm.id) in
      let (same, flag, left) = retrieved_lem dm db row in
      let same_db : (retrieve_usr_db garbage dm u).2.db ≡ db = ap (λ t. t.2.db) e ∙ left in
      (
        ap (λ t. (t.0, t.1)) e ∙ same ∙ ap (answer dm) wants,
        record {
          table = rw (same_db, keeps) f.table;
          flag = ap (λ t. t.2.whether_cb) e ∙ flag;
          finds = λ i. rw (same_db, keeps) (f.finds i);
        },
      )

  insert_ok :
      (dm : DmInfo D) (u : UserDb Db) (codes : Codes D)
      → Refines contents u codes
      → (sqlite.exec (insert (to_row dm)) u.db).0.ok ≡ not (is_some (codes dm.id))
  unfolding meaning to_row
  insert_ok dm u codes f =
      reliable.answers (insert (to_row dm)) u.db
      ∙ ground (arith, has-lookup schema dm.id (contents u.db).rows, f.finds dm.id)

  update_ok : (dm : DmInfo D) (u : UserDb Db) → (sqlite.exec (update (to_row dm)) u.db).0.ok ≡ true
  unfolding meaning
  update_ok dm u = reliable.answers (update (to_row dm)) u.db

  add-Refines :
      (dm : DmInfo D) (u : UserDb Db) (codes : Codes D)
      → Refines contents u codes
      → Refines contents
          (add_content dm u)
          (λ i. if is_some (codes dm.id) then codes i else set dm.id (to_row dm) codes i)
  unfolding add_content
  add-Refines dm u codes f =
      let (table, finds, _) = add_content_lem laws dm u f.table in
      record {
        table = table;
        flag = f.flag;
        finds = λ i. finds i ∙ ground (arith, insert_ok dm u codes f, f.finds i);
      }

  update-Refines :
      (dm : DmInfo D) (u : UserDb Db) (codes : Codes D)
      → Refines contents u codes
      → Refines contents
          (update_data_base dm u)
          (λ i. if is_some (codes dm.id) then set dm.id (to_row dm) codes i else codes i)
  unfolding update_data_base
  update-Refines dm u codes f =
      let (table, finds) = update_data_base_lem laws dm u f.table in
      record {
        table = table;
        flag = f.flag;
        finds = λ i.
            finds i
            ∙ ground (arith, update_ok dm u, f.finds i, has-lookup schema i (contents u.db).rows);
      }

  -- Over an SQLite that fails only on a primary key, and from a table with one row for each code, any
  -- run of retrievals (of ids of 32 bits), additions and updates gives the answers of a map from ids to
  -- rows, and ends with a table with one row for each code, in which each id finds the row that the map
  -- then has.
  pub run-Refines :
      (ops : List (Op D)) (u : UserDb Db) (codes : Codes D)
      → All IsSmall ops
      → Refines contents u codes
      → ((run ops u).0 ≡ (spec ops codes).0) × Refines contents (run ops u).1 (spec ops codes).1
  run-Refines [] u codes h f = (refl, f)
  run-Refines (retrieves garbage dm ∷ ops) u codes h f =
      let (same, f') = retrieve-Refines garbage dm u codes h.0 f in
      let (answers, end) = run-Refines ops _ codes h.1 f' in (rw (same, answers) refl, end)
  run-Refines (adds dm ∷ ops) u codes h f =
      run-Refines ops (add_content dm u) _ h.1 (add-Refines dm u codes f)
  run-Refines (updates dm ∷ ops) u codes h f =
      run-Refines ops (update_data_base dm u) _ h.1 (update-Refines dm u codes f)
