-- ===== src/Db/User/Retrieve.antt =====
-- What `retrieveUsrDb` of src/database_controller.cpp finds.
use mathlib.Core.List.{Permᴰ}
use rokit_locator_qr_addon.Base.{
  ℕ, ◌^◌, ◌<◌, ◌≡◌, refl, subst, ◌∙◌, ap, inl, inr, Bool, true, false, not, ◌&&◌, Option, none,
  some, List, [], ◌∷◌, ◌==◌, if◌then◌else◌, arith, Bool-cases, take,
}
use rokit_locator_qr_addon.Double.{Double}
use rokit_locator_qr_addon.Dm.{DmInfo, new_info}
use rokit_locator_qr_addon.Db.{select, Sqlite, Table, IsSqlite, lookup}
use rokit_locator_qr_addon.Db.Rows.{
  Unique, matching-Unique, to_list, perm-to_list, lookup-dm_id, select_keeps,
}
use rokit_locator_qr_addon.Db.User.{Row, schema, UserDb, retrieve_call_back, retrieve_usr_db}

take-to_list : {R : Type 0} (o : Option R) → take 1 (to_list o) ≡ to_list o
take-to_list none = refl
take-to_list (some r) = refl

-- The table as the program keeps it: each code has one row at most, and there is no trigger.
pub record IsUserTable {D : Type 0} (t : Table (Row D)) : Type 0 where
  pub unique : Unique schema t.rows
  pub unlimited : t.limit ≡ none

abbrev pub wanted : {D : Type 0} → Bool → ℕ → List (Row D) → Option (Row D)
wanted ok id rows = if ok && not (id == 0) then lookup schema id rows else none

module _ {D : Type 0} ⦃fl : Double D⦄ where
  -- The code that a row stands for.
  abbrev pub load : Row D → DmInfo D
  load r = retrieve_call_back (new_info 0) r

  -- The result of a retrieval that finds the given row, or none.
  abbrev pub retrieved :
      {Db : Type 0} → DmInfo D → Db → Option (Row D) → Bool × DmInfo D × UserDb Db
  retrieved dm db none = (false, dm, record { db = db; whether_cb = false })
  retrieved dm db (some r) = (true, load r, record { db = db; whether_cb = false })

module _ {D Db : Type 0} ⦃fl : Double D⦄ ⦃sqlite : Sqlite (Row D) Db⦄
    {contents : Db → Table (Row D)} (laws : IsSqlite schema contents) where
  delivered :
      (id : ℕ) (db : Db)
      → IsUserTable (contents db)
      → (sqlite.exec (select id 1) db).0.ok ≡ true
      → (sqlite.exec (select id 1) db).0.rows ≡ to_list (lookup schema id (contents db).rows)
  delivered id db t ok =
      let (found, perm, e) = laws.delivers id 1 db ok in
      let all : found ≡ to_list (lookup schema id (contents db).rows) =
        perm-to_list _
          (subst (Permᴰ found) (matching-Unique schema id (contents db).rows t.unique) perm) in
      e ∙ ap (take 1) all ∙ take-to_list _

  retrieve_found :
      (garbage : ℕ) (dm : DmInfo D) (u : UserDb Db)
      → IsUserTable (contents u.db)
      → u.whether_cb ≡ false
      → dm.id < 2 ^ 32
      → (o : Option (Row D)) → lookup schema dm.id (contents u.db).rows ≡ o
      → (sqlite.exec (select dm.id 1) u.db).0.ok ≡ true
      → retrieve_usr_db garbage dm u
        ≡ retrieved dm (sqlite.exec (select dm.id 1) u.db).1 (if not (dm.id == 0) then o else none)
  unfolding retrieve_usr_db
  retrieve_found garbage dm u t flag h none e ok =
      let rows : (sqlite.exec (select dm.id 1) u.db).0.rows ≡ [] =
        delivered dm.id u.db t ok ∙ ap to_list e in
      ground arith
  retrieve_found garbage dm u t flag h (some r) e ok =
      let rows : (sqlite.exec (select dm.id 1) u.db).0.rows ≡ r ∷ [] =
        delivered dm.id u.db t ok ∙ ap to_list e in
      ground (arith, lookup-dm_id schema dm.id (contents u.db).rows r e)

  retrieve_failed :
      (garbage : ℕ) (dm : DmInfo D) (u : UserDb Db)
      → (sqlite.exec (select dm.id 1) u.db).0.ok ≡ false
      → retrieve_usr_db garbage dm u ≡ retrieved dm (sqlite.exec (select dm.id 1) u.db).1 none
  unfolding retrieve_usr_db
  retrieve_failed garbage dm u bad = ground arith

  -- A retrieval succeeds exactly if the select does, the id is not 0, and the table has a row with
  -- this id, which `dmPtr` then holds; otherwise `dmPtr` is unchanged. The table stays as it is, the
  -- callback's flag is down again, and the uninitialised id has no part in it.
  pub retrieve_usr_db_lem :
      (garbage : ℕ) (dm : DmInfo D) (u : UserDb Db)
      → IsUserTable (contents u.db)
      → u.whether_cb ≡ false
      → dm.id < 2 ^ 32
      → let (answer, db) = sqlite.exec (select dm.id 1) u.db in
        (retrieve_usr_db garbage dm u
          ≡ retrieved dm db (wanted answer.ok dm.id (contents u.db).rows))
        × (contents db ≡ contents u.db)
  retrieve_usr_db_lem garbage dm u t flag h = (
    elim (Bool-cases (sqlite.exec (select dm.id 1) u.db).0.ok) [
      | inl ok ↦
          rw ok (
            retrieve_found garbage dm u t flag h (lookup schema dm.id (contents u.db).rows) refl ok)
      | inr bad ↦ rw bad (retrieve_failed garbage dm u bad)
    ],
    select_keeps schema laws dm.id 1 u.db,
  )
