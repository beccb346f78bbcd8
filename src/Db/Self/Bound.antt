-- ===== src/Db/Self/Bound.antt =====
-- How the trigger of the self database bounds its table (src/database_controller.cpp).
use rokit_locator_qr_addon.Base.{
  ◌&&◌, ◌+◌, ℕ, ◌≡◌, refl, ◌∙◌, inl, inr, some, List, [], ◌∷◌, ◌++◌, if◌then◌else◌, arith,
  Bool-cases, ltb, length, length-append, drop,
}
use rokit_locator_qr_addon.Double.{Double}
use rokit_locator_qr_addon.Dm.{DmInfo}
use rokit_locator_qr_addon.Db.{insert, Sqlite, Table, IsSqlite, meaning, trim}
use rokit_locator_qr_addon.Db.Self.{SelfRow, schema, to_self_row, add_content}

trim-drop :
    {D : Type 0} (max : ℕ) (rows : List (SelfRow D))
    → trim schema (some max) rows ≡ (if ltb max (length rows) then drop 1 rows else rows)
unfolding trim
trim-drop max [] = ground arith
trim-drop max (r ∷ rows) = ground arith

insert_meaning :
    {D : Type 0} (max : ℕ) (r : SelfRow D) (t t' : Table (SelfRow D))
    → t.limit ≡ some max
    → meaning schema (insert r) t ≡ some t'
    → (t'.rows ≡ trim schema (some max) (t.rows ++ (r ∷ []))) × (t'.limit ≡ some max)
unfolding meaning
insert_meaning max r t t' h e = ground arith

length-drop_one :
    {D : Type 0} (rows : List (SelfRow D)) (r : SelfRow D)
    → length (drop 1 (rows ++ (r ∷ []))) ≡ length rows
length-drop_one [] r = refl
length-drop_one (s ∷ rows) r = omega (arith, length-append rows (r ∷ []))

length-cut :
    {D : Type 0} (max : ℕ) (old : List (SelfRow D)) (r : SelfRow D)
    → let all = old ++ (r ∷ []) in
      length (if ltb max (length all) then drop 1 all else all)
      ≡ (if ltb (length old) max then length old + 1 else length old)
length-cut max old r = ground (arith, length-append old (r ∷ []), length-drop_one old r)

module _ {D Db : Type 0} ⦃fl : Double D⦄ ⦃sqlite : Sqlite (SelfRow D) Db⦄
    {contents : Db → Table (SelfRow D)} (laws : IsSqlite schema contents) where
  -- With the trigger for `max` rows, `addContent` appends the row of the code, or fails and changes
  -- nothing. If the table then has more than `max` rows, its one oldest row goes: so a table with fewer
  -- than `max` rows grows by one with each success, and any other keeps its size: one that is larger
  -- than `max` never shrinks.
  pub add_content_bound :
      (max : ℕ) (dm : DmInfo D) (db : Db)
      → (contents db).limit ≡ some max
      → let old = (contents db).rows in
        let new = (contents (add_content dm db)).rows in
        let all = old ++ (to_self_row dm ∷ []) in
        let ok = (sqlite.exec (insert (to_self_row dm)) db).0.ok in
        ((contents (add_content dm db)).limit ≡ some max)
        × (new ≡ (if ok then if ltb max (length all) then drop 1 all else all else old))
        × (length new ≡ (if ok && ltb (length old) max then length old + 1 else length old))
  unfolding add_content
  add_content_bound max dm db h =
      elim (Bool-cases (sqlite.exec (insert (to_self_row dm)) db).0.ok) [
        | inl ok ↦
            let (rows, limit) = insert_meaning max (to_self_row dm) _ _ h (laws.succeeds _ _ ok) in
            let new = rows ∙ trim-drop max _ in
            rw (ok, new) (limit, refl, length-cut max (contents db).rows (to_self_row dm))
        | inr bad ↦ rw (bad, laws.fails _ _ bad) (h, refl, refl)
      ]
