-- ===== src/Db/User/Write.antt =====
-- What `addContent` and `updateDataBase` of the user database do (src/database_controller.cpp).
use rokit_locator_qr_addon.Base.{
  ℕ, ◌≡◌, refl, ◌∙◌, inl, inr, true, false, ◌&&◌, none, some, List, [], ◌∷◌, ◌++◌, ◌==◌,
  if◌then◌else◌, arith, Bool-cases, Option-cases, map,
}
use rokit_locator_qr_addon.Double.{Double}
use rokit_locator_qr_addon.Dm.{DmInfo}
use rokit_locator_qr_addon.Db.{insert, update, Sqlite, Table, IsSqlite, has, lookup, meaning}
use rokit_locator_qr_addon.Db.Rows.{
  lookup-dm_id, lookup-append, append-Unique, lookup-map, map-Unique, written, has-lookup,
}
use rokit_locator_qr_addon.Db.User.{Row, schema, UserDb, to_row, add_content, update_data_base}
use rokit_locator_qr_addon.Db.User.Retrieve.{IsUserTable}

insert_meaning :
    {D : Type 0} (r : Row D) (t t' : Table (Row D))
    → t.limit ≡ none
    → meaning schema (insert r) t ≡ some t'
    → (has schema r.dm_id t.rows ≡ false) × (t'.rows ≡ t.rows ++ (r ∷ [])) × (t'.limit ≡ none)
unfolding meaning
insert_meaning r t t' h e = ground arith

update_meaning :
    {D : Type 0} (r : Row D) (t t' : Table (Row D))
    → meaning schema (update r) t ≡ some t'
    → (t'.rows ≡ map (written schema r) t.rows) × (t'.limit ≡ t.limit)
unfolding meaning
update_meaning r t t' e = ground arith

rewrite_row :
    {D : Type 0} (i : ℕ) (r : Row D) (rows : List (Row D))
    → lookup schema i (map (written schema r) rows)
      ≡ (if r.dm_id == i && has schema i rows then some r else lookup schema i rows)
rewrite_row i r rows = elim (Option-cases (lookup schema i rows)) [
  | inl e ↦
      rw (lookup-map schema (λ new old. refl) i r rows, has-lookup schema i rows, e) (ground arith)
  | inr (s, e) ↦
      rw (lookup-map schema (λ new old. refl) i r rows, has-lookup schema i rows, e)
        (ground (arith, lookup-dm_id schema i rows s e))
]

module _ {D Db : Type 0} ⦃fl : Double D⦄ ⦃sqlite : Sqlite (Row D) Db⦄
    {contents : Db → Table (Row D)} (laws : IsSqlite schema contents) where
  -- `addContent` either fails and changes nothing, or there was no row with the id of the code and
  -- now there is one, with the values of the code; it touches no other row.
  pub add_content_lem :
      (dm : DmInfo D) (u : UserDb Db)
      → IsUserTable (contents u.db)
      → let t = contents (add_content dm u).db in
        let ok = (sqlite.exec (insert (to_row dm)) u.db).0.ok in
        IsUserTable t
        × ((i : ℕ)
            → lookup schema i t.rows ≡ (
                if ok && dm.id == i
                then some (to_row dm)
                else lookup schema i (contents u.db).rows))
        × (ok ≡ true → has schema dm.id (contents u.db).rows ≡ false)
  unfolding add_content
  add_content_lem dm u w = elim (Bool-cases (sqlite.exec (insert (to_row dm)) u.db).0.ok) [
    | inl ok ↦
        let (fresh, rows, limit) =
          insert_meaning (to_row dm) _ _ w.unlimited (laws.succeeds _ _ ok) in
        rw (ok, rows)
          (
            record { unique = append-Unique schema _ _ fresh w.unique; unlimited = limit },
            λ i. lookup-append schema i _ (to_row dm) fresh,
            λ _. fresh,
          )
    | inr bad ↦ rw (bad, laws.fails _ _ bad) (w, λ i. refl, λ e. cc)
  ]

  -- `updateDataBase` either fails and changes nothing, or the row with the id of the code, if there
  -- is one, has the values of the code; it touches no other row, and adds none.
  pub update_data_base_lem :
      (dm : DmInfo D) (u : UserDb Db)
      → IsUserTable (contents u.db)
      → let t = contents (update_data_base dm u).db in
        let ok = (sqlite.exec (update (to_row dm)) u.db).0.ok in
        IsUserTable t
        × ((i : ℕ)
            → lookup schema i t.rows ≡ (
                if ok && (dm.id == i && has schema i (contents u.db).rows)
                then some (to_row dm)
                else lookup schema i (contents u.db).rows))
  unfolding update_data_base
  update_data_base_lem dm u w = elim (Bool-cases (sqlite.exec (update (to_row dm)) u.db).0.ok) [
    | inl ok ↦
        let (rows, limit) = update_meaning (to_row dm) _ _ (laws.succeeds _ _ ok) in
        rw (ok, rows)
          (
            record {
              unique = map-Unique schema (λ new old. refl) _ _ w.unique;
              unlimited = limit ∙ w.unlimited;
            },
            λ i. rewrite_row i (to_row dm) _,
          )
    | inr bad ↦ rw (bad, laws.fails _ _ bad) (w, λ i. refl)
  ]
