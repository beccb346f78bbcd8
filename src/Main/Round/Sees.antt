-- ===== src/Main/Round/Sees.antt =====
-- How a round of src/main_logic.cpp counts the sightings of a code in the user database.
use mathlib.Core.Option.{some-injective}
use rokit_locator_qr_addon.Base.{
  ◌⊎◌, ℕ, ◌^◌, ◌<◌, ◌≡◌, ◌≢◌, refl, ◌∙◌, inl, inr, Bool, true, false, Option, none, some, List,
  arith, ap, subst, sym,
}
use rokit_locator_qr_addon.Base.{>>=-some}
use rokit_locator_qr_addon.Double.{Double}
use rokit_locator_qr_addon.Dm.{CustomerPackage, update_cnt, clear_remaining_info}
use rokit_locator_qr_addon.Mode.{recording, localization}
use rokit_locator_qr_addon.Db.{select, Sqlite, Table, IsSqlite, IsReliable, lookup}
use rokit_locator_qr_addon.Db.Rows.{lookup-dm_id}
use rokit_locator_qr_addon.Db.User.{
  Row, schema, retrieve_usr_db, retrieve_call_back, to_row, add_content, update_data_base,
}
use rokit_locator_qr_addon.Db.User.Retrieve.{load, retrieved, wanted, retrieve_usr_db_lem}
use rokit_locator_qr_addon.Db.User.Write.{add_content_lem, update_data_base_lem}
use rokit_locator_qr_addon.Db.Self.{SelfRow}
use rokit_locator_qr_addon.Main.{World, Setting, add_to_self}
use rokit_locator_qr_addon.Main.Round.{
  retrieve_or, known_recording, unknown_recording, known_localization, unknown_localization,
  handle_recording, handle_localization, main_round,
}
use rokit_locator_qr_addon.Main.Round.Keeps.{
  Updates, known_recording-Updates, known_localization-Updates,
}
use rokit_locator_qr_addon.Main.Round.Counts.{
  cnt_of, Counts, IsOpen, Stores-Counts, select_answers, add_content-Stores,
  update_data_base-Stores,
}

-- A new code goes to the user database with the count 1.
pub record Adds {D UDb SDb Net : Type 0} ⦃fl : Double D⦄ ⦃user_sqlite : Sqlite (Row D) UDb⦄
    (w w' : World D UDb SDb Net) : Type 0 where
  pub user : w'.user ≡ add_content w'.dm w.user
  pub id : w'.dm.id ≡ w.dm.id
  pub cnt : w'.dm.cnt ≡ 1
  pub enable : w'.dm.enable ≡ false

module _ {D UDb SDb Net : Type 0} ⦃fl : Double D⦄ ⦃user_sqlite : Sqlite (Row D) UDb⦄
    ⦃self_sqlite : Sqlite (SelfRow D) SDb⦄ where
  unknown_recording-Adds : (w : World D UDb SDb Net) → Adds w (unknown_recording w)
  unfolding unknown_recording add_to_self update_cnt clear_remaining_info
  unknown_recording-Adds w = ground arith

  unknown_localization-Adds : (w : World D UDb SDb Net) → Adds w (unknown_localization w)
  unfolding unknown_localization add_to_self update_cnt clear_remaining_info
  unknown_localization-Adds w = ground arith

wanted-lookup :
    {D : Type 0} (ok : Bool) (id : ℕ) (rows : List (Row D))
    → ok ≡ true
    → id ≢ 0
    → wanted ok id rows ≡ lookup schema id rows
wanted-lookup ok id rows h nz = ground arith

-- What a round does to the user database, with the code that `dmPtr` shows before it.
pub record Sees {D UDb SDb Net : Type 0} (contents : UDb → Table (Row D))
    (w w' : World D UDb SDb Net) : Type 0 where
  pub is_open : IsOpen contents w'.user
  pub counts : Counts w.dm.id (contents w.user.db).rows (contents w'.user.db).rows

module _ {D UDb SDb Net : Type 0} ⦃fl : Double D⦄ ⦃user_sqlite : Sqlite (Row D) UDb⦄
    ⦃self_sqlite : Sqlite (SelfRow D) SDb⦄ {contents : UDb → Table (Row D)}
    (laws : IsSqlite schema contents) (reliable : IsReliable schema contents) where
  Adds-Sees :
      (w w' : World D UDb SDb Net)
      → IsOpen contents w.user
      → Adds w w'
      → lookup schema w.dm.id (contents w.user.db).rows ≡ none
      → Sees contents w w'
  unfolding add_content to_row
  Adds-Sees w w' o a absent =
      let absent' : lookup schema w'.dm.id (contents w.user.db).rows ≡ none = rw a.id absent in
      record {
        is_open =
            rw a.user
              (record { table = (add_content_lem laws w'.dm w.user o.table).0; flag = o.flag });
        counts =
            rw (a.user, ← a.id)
              (Stores-Counts (to_row w'.dm) _ _
                (add_content-Stores laws reliable w'.dm w.user o.table absent') (ground arith)
                (ground arith));
      }

  Updates-Sees :
      (w w' : World D UDb SDb Net) (r : Row D)
      → IsOpen contents w.user
      → Updates w w'
      → lookup schema w.dm.id (contents w.user.db).rows ≡ some r
      → w.dm.cnt ≡ r.dm_cnt
      → w.dm.enable ≡ r.enable
      → r.dm_cnt < 2 ^ 31
      → Sees contents w w'
  unfolding update_data_base to_row
  Updates-Sees w w' r o a present cnt enable small =
      let present' : lookup schema w'.dm.id (contents w.user.db).rows ≡ some r = rw a.id present in
      record {
        is_open =
            rw a.user (record {
              table = (update_data_base_lem laws w'.dm w.user o.table).0;
              flag = o.flag;
            });
        counts =
            rw (a.user, ← a.id)
              (Stores-Counts (to_row w'.dm) _ _
                (update_data_base-Stores laws reliable w'.dm w.user r o.table present')
                (ground arith) (ground arith));
      }

  Sees-from :
      (w0 w w' : World D UDb SDb Net)
      → w0.dm.id ≡ w.dm.id
      → contents w0.user.db ≡ contents w.user.db
      → Sees contents w0 w'
      → Sees contents w w'
  Sees-from w0 w w' id same s = record {
    is_open = s.is_open;
    counts =
        subst (λ t. Counts w.dm.id (Table.rows t) (contents w'.user.db).rows) same
          (subst (λ k. Counts k (contents w0.user.db).rows (contents w'.user.db).rows) id s.counts);
  }

  module _ (known : World D UDb SDb Net → Option (World D UDb SDb Net))
      (unknown : World D UDb SDb Net → World D UDb SDb Net)
      (updates : (w w' : World D UDb SDb Net) → known w ≡ some w' → Updates w w')
      (adds : (w : World D UDb SDb Net) → Adds w (unknown w)) where
    after_retrieve :
        (garbage : ℕ) (w w' : World D UDb SDb Net) (db : UDb) (o : Option (Row D))
        → IsOpen contents w.user
        → contents db ≡ contents w.user.db
        → w.dm.id < 2 ^ 32
        → lookup schema w.dm.id (contents w.user.db).rows ≡ o
        → cnt_of o < 2 ^ 31
        → retrieve_usr_db garbage w.dm w.user ≡ retrieved w.dm db o
        → retrieve_or garbage known unknown w ≡ some w'
        → Sees contents w w'
    unfolding retrieve_or retrieve_call_back
    after_retrieve garbage w w' db none o same small found below outcome e =
        let w0 = record w { user = record { db = db; whether_cb = false } } in
        let e' : some (unknown w0) ≡ some w' = rw outcome at e in
        Sees-from w0 w w' refl same (
          Adds-Sees w0 w' (record { table = rw same o.table; flag = refl })
            (subst (Adds w0) (some-injective _ _ e') (adds w0)) (rw same found))
    after_retrieve garbage w w' db (some r) o same small found below outcome e =
        let w0 = record w { dm = load r; user = record { db = db; whether_cb = false } } in
        let e' : known w0 ≡ some w' = rw outcome at e in
        let id : w0.dm.id ≡ w.dm.id = omega (arith, lookup-dm_id schema w.dm.id _ r found) in
        Sees-from w0 w w' id same (
          Updates-Sees w0 w' r (record { table = rw same o.table; flag = refl }) (updates w0 w' e')
            (rw (id, same) found) (ground arith) refl below)

    retrieve_or-Sees :
        (garbage : ℕ) (w w' : World D UDb SDb Net)
        → IsOpen contents w.user
        → w.dm.id ≢ 0
        → w.dm.id < 2 ^ 32
        → cnt_of (lookup schema w.dm.id (contents w.user.db).rows) < 2 ^ 31
        → retrieve_or garbage known unknown w ≡ some w'
        → Sees contents w w'
    retrieve_or-Sees garbage w w' o nz small below e =
        let db = (user_sqlite.exec (select w.dm.id 1) w.user.db).1 in
        let (result, same) = retrieve_usr_db_lem laws garbage w.dm w.user o.table o.flag small in
        let ok = select_answers laws reliable w.dm.id 1 w.user.db in
        after_retrieve garbage w w' db _ o same small refl below
          (result ∙ ap (retrieved w.dm db) (wanted-lookup _ w.dm.id _ ok nz)) e

  handle_recording-Sees :
      (garbage : ℕ) (set : Setting D Net) (devi : CustomerPackage D) (w w' : World D UDb SDb Net)
      → IsOpen contents w.user
      → w.dm.id ≢ 0
      → w.dm.id < 2 ^ 32
      → cnt_of (lookup schema w.dm.id (contents w.user.db).rows) < 2 ^ 31
      → handle_recording garbage set devi w ≡ some w'
      → Sees contents w w'
  unfolding handle_recording
  handle_recording-Sees garbage set devi w w' =
      retrieve_or-Sees (known_recording set devi) unknown_recording
        (known_recording-Updates set devi) unknown_recording-Adds garbage w w'

  handle_localization-Sees :
      (garbage : ℕ) (set : Setting D Net) (w w' : World D UDb SDb Net)
      → IsOpen contents w.user
      → w.dm.id ≢ 0
      → w.dm.id < 2 ^ 32
      → cnt_of (lookup schema w.dm.id (contents w.user.db).rows) < 2 ^ 31
      → handle_localization garbage set w ≡ some w'
      → Sees contents w w'
  unfolding handle_localization
  handle_localization-Sees garbage set w w' =
      retrieve_or-Sees (known_localization set) unknown_localization
        (known_localization-Updates set) unknown_localization-Adds garbage w w'

  -- With an SQLite that fails only on a primary key, a round that comes to its end in recording or
  -- in localization mode counts its code: the row of the code shows one sighting more, or is there
  -- and shows 1, and is as enabled as before; the rows of the other codes are the same; and the
  -- table has still one row for a code. The id must not be 0, and the count be below 2 ^ 31.
  pub main_round-Sees :
      (garbage : ℕ) (set : Setting D Net) (devi : CustomerPackage D) (mode : ℕ)
      (w w' : World D UDb SDb Net)
      → (mode ≡ recording) ⊎ (mode ≡ localization)
      → IsOpen contents w.user
      → w.dm.id ≢ 0
      → w.dm.id < 2 ^ 32
      → cnt_of (lookup schema w.dm.id (contents w.user.db).rows) < 2 ^ 31
      → main_round garbage set devi mode mode w ≡ some w'
      → Sees contents w w'
  unfolding main_round
  main_round-Sees garbage set devi mode w w' (inl m) o nz small below e =
      Sees-from (record w { ori = w.dm }) w w' refl refl
        (handle_recording-Sees garbage set devi (record w { ori = w.dm }) w' o nz small below
          (sym (>>=-some _) ∙ subst (λ k. main_round garbage set devi k k w ≡ some w') m e))
  main_round-Sees garbage set devi mode w w' (inr m) o nz small below e =
      Sees-from (record w { ori = w.dm }) w w' refl refl
        (handle_localization-Sees garbage set (record w { ori = w.dm }) w' o nz small below
          (subst (λ k. main_round garbage set devi k k w ≡ some w') m e))
