-- ===== src/Main/Start/Opens.antt =====
-- What the databases are after the start of `main` (src/main_logic.cpp).
use Prim.Native.Nat.{max}
use rokit_locator_qr_addon.Base.{
  ℕ, ◌+◌, ◌*◌, ◌<◌, ◌≤◌, ◌≡◌, ◌≢◌, ◌⊎◌, ◌↔◌, refl, ap, ◌∙◌, Bool, true, false, none, some, List, [],
  ◌∷◌, length, is_some, arith, Option, Option-cases, if◌then◌else◌, inl, inr,
}
use rokit_locator_qr_addon.Backup.{Tm, check_date, new_time, today}
use rokit_locator_qr_addon.Backup.Due.{date, IsDate, IsToday, check_date_lem}
use rokit_locator_qr_addon.Double.{Double}
use rokit_locator_qr_addon.Dm.{Config, DmInfo}
use rokit_locator_qr_addon.Db.{keep_rows_size, Sqlite, Table, IsSqlite, meaning}
use rokit_locator_qr_addon.Db.Self.{SelfRow, schema, create_trigger, add_content}
use rokit_locator_qr_addon.Db.Self.Bound.{add_content_bound}
use rokit_locator_qr_addon.Db.Files.{
  backup_usr_db, open_backup_db, open_user_db, open_self_db, create_user_table, create_self_table,
  add_trigger,
}
use rokit_locator_qr_addon.Main.Start.{Disk, Started, back_up, start_up}

trigger_meaning :
    {D : Type 0} (n : ℕ) (t t' : Table (SelfRow D))
    → meaning schema (keep_rows_size n) t ≡ some t'
    → (t'.limit ≡ some n) × (t'.rows ≡ t.rows)
unfolding meaning
trigger_meaning n t t' e = ground arith

-- The databases that SQLite opens and the tables in them.
pub record Opens {UDb SDb BDb : Type 0} (disk : Disk UDb SDb BDb) (user : UDb) (table : SDb)
    (backup : BDb) : Type 0 where
  pub user_file : UDb
  pub self_file : SDb
  pub open_user : disk.open_user ≡ some user_file
  pub open_self : disk.open_self ≡ some self_file
  pub create_user : disk.create_user user_file ≡ some user
  pub create_self : disk.create_self self_file ≡ some table
  pub open_backup : disk.open_backup ≡ some backup

module _ {D SDb : Type 0} ⦃fl : Double D⦄ ⦃self_sqlite : Sqlite (SelfRow D) SDb⦄ where
  -- The sightings of a run.
  abbrev pub add_all : List (DmInfo D) → SDb → SDb
  add_all [] db = db
  add_all (dm ∷ dms) db = add_all dms (add_content dm db)

-- The copy if `sqlite3_backup` could begin, and the backup as it was opened if not.
abbrev pub copied : {B : Type 0} → Option B → B → B
copied none backup = backup
copied (some copy) backup = copy

back_up_lem :
    {UDb SDb BDb : Type 0} (disk : Disk UDb SDb BDb) (user : UDb) (db : SDb) (backup : BDb)
    (due : Bool) (file now : List ℕ)
    → disk.open_backup ≡ some backup
    → (st : Started UDb SDb BDb) × ((back_up disk user db due (if due then now else file)).result
        ≡ some st)
      × (st.user ≡ user)
      × (st.self_db ≡ db)
      × (((st.backup ≡ some (copied (disk.copy user backup) backup)) × (st.file ≡ now))
          ⊎ ((st.backup ≡ none) × (st.file ≡ file)))
      × (is_some st.backup ≡ due)
unfolding back_up backup_usr_db open_backup_db
back_up_lem disk user db backup false file now o = (_, refl, refl, refl, inr (refl, refl), refl)
back_up_lem disk user db backup true file now o = elim (Option-cases (disk.copy user backup)) [
  | inl none_made ↦ (
    record { user = user; self_db = db; backup = some backup; file = now },
    rw (o, none_made) refl,
    refl,
    refl,
    inl (rw none_made refl, refl),
    refl,
  )
  | inr (copy, made) ↦ (
    record { user = user; self_db = db; backup = some copy; file = now },
    rw (o, made) refl,
    refl,
    refl,
    inl (rw made refl, refl),
    refl,
  )
]

module _ {D SDb : Type 0} ⦃fl : Double D⦄ ⦃self_sqlite : Sqlite (SelfRow D) SDb⦄
    {contents : SDb → Table (SelfRow D)} (laws : IsSqlite schema contents) where
  add_all-bound :
      (n : ℕ) (dms : List (DmInfo D)) (db : SDb)
      → (contents db).limit ≡ some n
      → length (contents (add_all dms db)).rows ≤ max n (length (contents db).rows)
  add_all-bound n [] db h = omega arith
  add_all-bound n (dm ∷ dms) db h =
      let (limit, _, size) = add_content_bound laws n dm db h in
      ground (arith, add_all-bound n dms (add_content dm db) limit)

  start_up-back_up :
      {UDb BDb : Type 0} (config : Config D) (now : Tm) (file : List ℕ) (disk : Disk UDb SDb BDb)
      (user : UDb) (table : SDb) (backup : BDb) (due : Bool) (text : List ℕ)
      → Opens disk user table backup
      → check_date config.last_backup_date now file ≡ some (due, text)
      → (self_sqlite.exec (keep_rows_size config.max_row_self_db) table).0.ok ≡ true
      → (start_up config now file disk).result
        ≡ (back_up disk user
            (self_sqlite.exec (keep_rows_size config.max_row_self_db) table).1
            due
            text).result
  unfolding start_up create_trigger open_user_db open_self_db create_user_table create_self_table
      add_trigger
  start_up-back_up config now file disk user table backup due text o checked ok =
      rw (o.open_user, o.open_self, o.create_user, o.create_self, ok, checked, start_up)

  -- With databases that open, a valid date of the last backup, a valid local time and a trigger that
  -- can be added, the program gets through its start. The user database is then as it
  -- was opened, and the self database has its rows; a backup is made exactly if the year has changed or
  -- more than a month has gone by, and then the configuration has the date of today, though the backup
  -- is as it was if the copy could not begin; and whatever sightings are stored in the run, the self
  -- database has at most as many rows as the configuration says, or as it had at the start if these
  -- are more.
  pub start_up_lem :
      {UDb BDb : Type 0} (config : Config D) (now : Tm) (file : List ℕ) (disk : Disk UDb SDb BDb)
      (user : UDb) (table : SDb) (backup : BDb) (y m d : ℕ)
      → Opens disk user table backup
      → config.last_backup_date ≡ new_time (date y m d)
      → IsDate y m d
      → IsToday now
      → (self_sqlite.exec (keep_rows_size config.max_row_self_db) table).0.ok ≡ true
      → (st : Started UDb SDb BDb) × ((start_up config now file disk).result ≡ some st)
        × (st.user ≡ user)
        × ((contents st.self_db).rows ≡ (contents table).rows)
        × (((st.backup ≡ some (copied (disk.copy user backup) backup))
              × (st.file ≡ new_time (today now)))
            ⊎ ((st.backup ≡ none) × (st.file ≡ file)))
        × ((is_some st.backup ≡ true)
            ↔ ((y ≢ now.tm_year + 1900) ⊎ (32 * m + d + 32 < 32 * (now.tm_mon + 1) + now.tm_mday)))
        × ((dms : List (DmInfo D))
            → length (contents (add_all dms st.self_db)).rows
              ≤ max config.max_row_self_db (length (contents table).rows))
  start_up_lem config now file disk user table backup y m d o last v w ok =
      let (due, date_lem, due_lem) = check_date_lem y m d now file v w in
      let (limit, rows) = trigger_meaning config.max_row_self_db _ _ (laws.succeeds _ _ ok) in
      let (st, outcome, user_lem, self_lem, backup_lem, has_backup) =
        back_up_lem disk user (self_sqlite.exec (keep_rows_size config.max_row_self_db) table).1
          backup due file (new_time (today now)) o.open_backup in
      (
        st,
        start_up-back_up config now file disk user table backup _ _ o
              (ap (λ k. check_date k now file) last ∙ date_lem) ok
            ∙ outcome,
        user_lem,
        rw (self_lem) rows,
        backup_lem,
        rw has_backup due_lem,
        λ dms.
            ground (arith, add_all-bound config.max_row_self_db dms st.self_db (rw self_lem limit)),
      )
