-- ===== src/Db/Files.antt =====
-- The opening of the databases, the creation of their tables and the copy of the user database
-- (src/database_controller.cpp), with what goes to the log. What SQLite does is an argument.
use Prim.Native.String.{String}
use rokit_locator_qr_addon.Base.{ℕ, Option, none, some, List, [], ◌∷◌, ◌++◌, if◌then◌else◌}
use rokit_locator_qr_addon.Double.{Double}
use rokit_locator_qr_addon.Dm.{Config}
use rokit_locator_qr_addon.Db.{Sqlite}
use rokit_locator_qr_addon.Db.Self.{SelfRow, create_trigger}
use rokit_locator_qr_addon.Rpc.Json.{codes}

-- What a part of the start leaves: its entries in the log, and its result; `none` if the program exits.
pub record Logged (A : Type 0) : Type 0 where
  pub log : List (List ℕ)
  pub result : Option A

module _ {A B : Type 0} where
  abbrev pub and_then : List (List ℕ) → Option A → (A → Logged B) → Logged B
  and_then log none f = record { log = log; result = none }
  and_then log (some a) f = let rest = f a in record { log = log ++ rest.log; result = rest.result }

  infixl 5 ◌>>=◌
  abbrev pub ◌>>=◌ : Logged A → (A → Logged B) → Logged B
  l >>= f = and_then l.log l.result f

module _ {A : Type 0} where
  abbrev pub quiet : Option A → Logged A
  quiet result = record { log = []; result = result }

  -- The texts that follow a call which fails, and the program exits, or which succeeds.
  abbrev pub reports : String → String → Option A → Logged A
  reports failure success none = record { log = codes failure ∷ []; result = none }
  reports failure success (some a) = record { log = codes success ∷ []; result = some a }

  unfoldable pub open_user_db : Option A → Logged A
  open_user_db r = reports "Can't open user database: " "Opened user database successfully" r

  unfoldable pub create_user_table : Option A → Logged A
  create_user_table r = reports "Can't create user table: " "Create user table successfully" r

  unfoldable pub open_self_db : Option A → Logged A
  open_self_db r = reports "Can't open self database:" "Opened self database successfully" r

  unfoldable pub create_self_table : Option A → Logged A
  create_self_table r = reports "Can't create self table: " "Create self table successfully" r

  unfoldable pub open_backup_db : Option A → Logged A
  open_backup_db r = reports "Can't open backup database: " "Opened backup database successfully" r

  -- With the copy that `sqlite3_backup_step` makes, or none if `sqlite3_backup_init` fails.
  unfoldable pub backup_usr_db : Option A → A → Logged A
  backup_usr_db (some copy) backup = quiet (some copy)
  backup_usr_db none backup = record {
    log = codes "user database backup create fail" ∷ [];
    result = some backup;
  }

module _ {D SDb : Type 0} ⦃fl : Double D⦄ ⦃self_sqlite : Sqlite (SelfRow D) SDb⦄ where
  -- `createTrigger` with its entries.
  unfoldable pub add_trigger : Config D → SDb → Logged SDb
  unfolding create_trigger
  add_trigger config db =
      let (ok, db') = create_trigger config db in
      reports "Can't add trigger: " "Add trigger successfully" (if ok then some db' else none)
