-- ===== src/Db/Rows.antt =====
-- What the statements of `Db` do to the rows that a key finds.
use mathlib.Core.List.{Permᴰ}
use rokit_locator_qr_addon.Base.{
  is_some, sym, Bool-cases, inl, inr, ℕ, ◌≡◌, refl, false, ◌||◌, Option, none, some, List, [], ◌∷◌,
  ◌++◌, map, ◌==◌, if◌then◌else◌, arith, ==_iff,
}
use mathlib.Core.Option
use mathlib.Core.Option.{some-injective}
use rokit_locator_qr_addon.Db.{
  Schema, has, lookup, matching, Sqlite, Table, IsSqlite, select, meaning,
}

perm-nil : {R : Type 0} {l m : List R} → Permᴰ l m → m ≡ [] → l ≡ []
perm-nil Permᴰ.nil e = refl
perm-nil (Permᴰ.cons f d) e = cc
perm-nil (Permᴰ.swap f g) e = cc
perm-nil (Permᴰ.trans c d) e = perm-nil c (perm-nil d e)

perm-singleton : {R : Type 0} {l m : List R} (r : R) → Permᴰ l m → m ≡ r ∷ [] → l ≡ r ∷ []
perm-singleton r Permᴰ.nil e = e
perm-singleton r (Permᴰ.cons f d) e = cc (perm-nil d (cc))
perm-singleton r (Permᴰ.swap f g) e = cc
perm-singleton r (Permᴰ.trans c d) e = perm-singleton r c (perm-singleton r d e)

abbrev pub to_list : {R : Type 0} → Option R → List R
to_list none = []
to_list (some r) = r ∷ []

-- The order in which rows are delivered does not matter where there is one at most.
pub perm-to_list : {R : Type 0} {l : List R} (o : Option R) → Permᴰ l (to_list o) → l ≡ to_list o
perm-to_list none p = perm-nil p refl
perm-to_list (some r) p = perm-singleton r p refl

module _ {R : Type 0} (schema : Schema R) where
  open schema use {dm_id, primary, write}

  abbrev pub Unique : List R → Type 0
  Unique [] = Unit
  Unique (r ∷ rows) = (has schema (dm_id r) rows ≡ false) × Unique rows

  pub has-lookup : (id : ℕ) (rows : List R) → has schema id rows ≡ is_some (lookup schema id rows)
  unfolding has lookup
  has-lookup id [] = refl
  has-lookup id (r ∷ rows) = ground (arith, has-lookup id rows)

  pub lookup-dm_id :
      (id : ℕ) (rows : List R) (r : R) → lookup schema id rows ≡ some r → dm_id r ≡ id
  unfolding lookup
  lookup-dm_id id [] r e = cc
  lookup-dm_id id (s ∷ rows) r e = ground (arith, lookup-dm_id id rows r)

  matching-none :
      (id : ℕ) (rows : List R) → has schema id rows ≡ false → matching schema id rows ≡ []
  unfolding has matching
  matching-none id [] h = refl
  matching-none id (r ∷ rows) h = ground (arith, matching-none id rows)

  pub matching-Unique :
      (id : ℕ) (rows : List R)
      → Unique rows
      → matching schema id rows ≡ to_list (lookup schema id rows)
  unfolding has lookup matching
  matching-Unique id [] u = refl
  matching-Unique id (r ∷ rows) u =
      ground (arith, matching-Unique id rows u.1, matching-none id rows, ==_iff (dm_id r) id)

  pub lookup-append :
      (id : ℕ) (rows : List R) (r : R)
      → has schema (dm_id r) rows ≡ false
      → lookup schema id (rows ++ (r ∷ []))
        ≡ (if dm_id r == id then some r else lookup schema id rows)
  unfolding has lookup
  lookup-append id [] r h = refl
  lookup-append id (s ∷ rows) r h = ground (arith, lookup-append id rows r)

  has-append :
      (id : ℕ) (rows : List R) (r : R)
      → has schema id (rows ++ (r ∷ [])) ≡ has schema id rows || dm_id r == id
  unfolding has
  has-append id [] r = ground arith
  has-append id (s ∷ rows) r = ground (arith, has-append id rows r)

  pub append-Unique :
      (rows : List R) (r : R)
      → has schema (dm_id r) rows ≡ false
      → Unique rows
      → Unique (rows ++ (r ∷ []))
  unfolding has
  append-Unique [] r h u = (refl, tt)
  append-Unique (s ∷ rows) r h u =
      (ground (arith, has-append (dm_id s) rows r), append-Unique rows r (ground arith) u.1)

  -- What `update` does to one row.
  abbrev pub written : R → R → R
  written r s = if dm_id s == dm_id r then write r s else s

  module _ (keeps : (new old : R) → dm_id (write new old) ≡ dm_id old) where
    dm_id-written : (r s : R) → dm_id (written r s) ≡ dm_id s
    dm_id-written r s = ground (arith, keeps r s)

    has-map :
        (id : ℕ) (r : R) (rows : List R) → has schema id (map (written r) rows) ≡ has schema id rows
    unfolding has
    has-map id r [] = refl
    has-map id r (s ∷ rows) = rw (dm_id-written r s, has-map id r rows)

    pub lookup-map :
        (id : ℕ) (r : R) (rows : List R)
        → lookup schema id (map (written r) rows) ≡ (
            if dm_id r == id
            then Option.map (write r) (lookup schema id rows)
            else lookup schema id rows)
    unfolding lookup
    lookup-map id r [] = ground arith
    lookup-map id r (s ∷ rows) = ground (arith, lookup-map id r rows, keeps r s)

    pub map-Unique : (r : R) (rows : List R) → Unique rows → Unique (map (written r) rows)
    map-Unique r [] u = tt
    map-Unique r (s ∷ rows) u =
        (rw (dm_id-written r s, has-map (dm_id s) r rows) u.0, map-Unique r rows u.1)

module _ {R Db : Type 0} (schema : Schema R) ⦃sqlite : Sqlite R Db⦄ {contents : Db → Table R}
    (laws : IsSqlite schema contents) where
  -- A select leaves the table alone, whether it succeeds or not.
  pub select_keeps :
      (id limit : ℕ) (db : Db) → contents (sqlite.exec (select id limit) db).1 ≡ contents db
  unfolding meaning
  select_keeps id limit db = elim (Bool-cases (sqlite.exec (select id limit) db).0.ok) [
    | inl ok ↦ sym (some-injective _ _ (laws.succeeds (select id limit) db ok))
    | inr bad ↦ laws.fails (select id limit) db bad
  ]
