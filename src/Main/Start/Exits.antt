-- ===== src/Main/Start/Exits.antt =====
-- Why the start of `main` (src/main_logic.cpp) ends the program, and what its log then says.
use Prim.Native.String.{String}
use rokit_locator_qr_addon.Base.{
  ℕ, ◌≡◌, refl, Bool, true, false, none, some, List, [], ◌∷◌, ◌++◌, map, take,
}
use rokit_locator_qr_addon.Backup.{Tm, check_date}
use rokit_locator_qr_addon.Double.{Double}
use rokit_locator_qr_addon.Dm.{Config}
use rokit_locator_qr_addon.Db.{keep_rows_size, Sqlite}
use rokit_locator_qr_addon.Db.Self.{SelfRow, create_trigger}
use rokit_locator_qr_addon.Db.Files.{
  open_backup_db, open_user_db, open_self_db, create_user_table, create_self_table, add_trigger,
}
use rokit_locator_qr_addon.Rpc.Json.{codes}
use rokit_locator_qr_addon.Main.Start.{Disk, back_up, start_up}

-- The entries of the calls that succeed, in their order.
abbrev pub successes : List String
successes =
    "Opened user database successfully" ∷ "Opened self database successfully"
    ∷ "Create user table successfully" ∷ "Create self table successfully"
    ∷ "Add trigger successfully" ∷ []

-- The first so many of them, and the entry of the call that fails.
abbrev pub until : ℕ → String → List String
until n failure = take n successes ++ (failure ∷ [])

module _ {D UDb SDb BDb : Type 0} ⦃fl : Double D⦄ ⦃self_sqlite : Sqlite (SelfRow D) SDb⦄
    (config : Config D) (now : Tm) (file : List ℕ) (disk : Disk UDb SDb BDb) where
  abbrev pub adds : SDb → Bool
  adds table = (self_sqlite.exec (keep_rows_size config.max_row_self_db) table).0.ok

  -- The results up to the one that ends the program, and the texts in the log.
  pub data Exits : List String → Type 0 where
    no_user : disk.open_user ≡ none → Exits (until 0 "Can't open user database: ")
    no_self :
        (u : UDb)
        → disk.open_user ≡ some u
        → disk.open_self ≡ none
        → Exits (until 1 "Can't open self database:")
    no_user_table :
        (u : UDb) (s : SDb)
        → disk.open_user ≡ some u
        → disk.open_self ≡ some s
        → disk.create_user u ≡ none
        → Exits (until 2 "Can't create user table: ")
    no_self_table :
        (u u' : UDb) (s : SDb)
        → disk.open_user ≡ some u
        → disk.open_self ≡ some s
        → disk.create_user u ≡ some u'
        → disk.create_self s ≡ none
        → Exits (until 3 "Can't create self table: ")
    no_trigger :
        (u u' : UDb) (s s' : SDb)
        → disk.open_user ≡ some u
        → disk.open_self ≡ some s
        → disk.create_user u ≡ some u'
        → disk.create_self s ≡ some s'
        → adds s' ≡ false
        → Exits (until 4 "Can't add trigger: ")
    no_date :
        (u u' : UDb) (s s' : SDb)
        → disk.open_user ≡ some u
        → disk.open_self ≡ some s
        → disk.create_user u ≡ some u'
        → disk.create_self s ≡ some s'
        → adds s' ≡ true
        → check_date config.last_backup_date now file ≡ none
        → Exits successes
    no_backup :
        (u u' : UDb) (s s' : SDb) (text : List ℕ)
        → disk.open_user ≡ some u
        → disk.open_self ≡ some s
        → disk.create_user u ≡ some u'
        → disk.create_self s ≡ some s'
        → adds s' ≡ true
        → check_date config.last_backup_date now file ≡ some (true, text)
        → disk.open_backup ≡ none
        → Exits (until 5 "Can't open backup database: ")

  -- The start as far as the trigger, from its first result on.
  pub Exits-log :
      (texts : List String)
      → Exits texts
      → start_up config now file disk ≡ record { log = map codes texts; result = none }
  unfolding start_up back_up create_trigger open_user_db open_self_db create_user_table
      create_self_table add_trigger open_backup_db
  Exits-log _ (no_user a) = rw (a) refl
  Exits-log _ (no_self u a b) = rw (a, b) refl
  Exits-log _ (no_user_table u s a b c) = rw (a, b, c) refl
  Exits-log _ (no_self_table u u' s a b c d) = rw (a, b, c, d) refl
  Exits-log _ (no_trigger u u' s s' a b c d e) = rw (a, b, c, d, e) refl
  Exits-log _ (no_date u u' s s' a b c d e f) = rw (a, b, c, d, e, f) refl
  Exits-log _ (no_backup u u' s s' text a b c d e f g) = rw (a, b, c, d, e, f, g) refl
