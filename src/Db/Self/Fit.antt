-- ===== src/Db/Self/Fit.antt =====
-- What `fitPose` computes from the self database (src/database_controller.cpp).
use mathlib.Core.List.{Permᴰ}
use rokit_locator_qr_addon.Base.{
  length-take, ℕ, ◌≡◌, refl, sym, subst, ◌∙◌, ap, true, List, zero, suc, [], ◌∷◌, ◌==◌,
  if◌then◌else◌, arith, length, take, All,
}
use rokit_locator_qr_addon.Db.Rows.{select_keeps}
use Prim.Native.Nat.{min}
use rokit_locator_qr_addon.Double.{Double}
use rokit_locator_qr_addon.Dm.{DmInfo}
use rokit_locator_qr_addon.Db.{select, Sqlite, Table, IsSqlite, matching, meaning}
use rokit_locator_qr_addon.Db.Self.{SelfRow, schema, no_pose, sum_poses, divide, fit_pose}

-- How many rows of the table show an id.
abbrev pub count : {D : Type 0} → ℕ → List (SelfRow D) → ℕ
count id [] = 0
count id (r ∷ rows) = if r.dm_id == id then suc (count id rows) else count id rows

abbrev pub Shows : {D : Type 0} → ℕ → SelfRow D → Type 0
Shows id r = r.dm_id ≡ id

All-matching :
    {D : Type 0} (id : ℕ) (rows : List (SelfRow D)) → All (Shows id) (matching schema id rows)
unfolding matching
All-matching id [] = tt
All-matching id (r ∷ rows) = ground (arith, All-matching id rows)

length-matching :
    {D : Type 0} (id : ℕ) (rows : List (SelfRow D))
    → length (matching schema id rows) ≡ count id rows
unfolding matching
length-matching id [] = refl
length-matching id (r ∷ rows) = ground (arith, length-matching id rows)

length-perm : {R : Type 0} {l m : List R} → Permᴰ l m → length l ≡ length m
length-perm Permᴰ.nil = refl
length-perm (Permᴰ.cons f d) = ap suc (length-perm d)
length-perm (Permᴰ.swap f g) = refl
length-perm (Permᴰ.trans c d) = length-perm c ∙ length-perm d

All-perm : {R : Type 0} (P : R → Type 0) {l m : List R} → Permᴰ l m → All P m → All P l
All-perm P Permᴰ.nil h = tt
All-perm P (Permᴰ.cons f d) h = (subst P (sym f) h.0, All-perm P d h.1)
All-perm P (Permᴰ.swap f g) h = (subst P (sym f) h.1.0, (subst P (sym g) h.0, h.1.1))
All-perm P (Permᴰ.trans c d) h = All-perm P c (All-perm P d h)

All-take : {R : Type 0} (P : R → Type 0) (n : ℕ) (l : List R) → All P l → All P (take n l)
All-take P zero l h = tt
All-take P (suc n) [] h = tt
All-take P (suc n) (x ∷ l) h = (h.0, All-take P n l h.1)

module _ {D Db : Type 0} ⦃fl : Double D⦄ ⦃sqlite : Sqlite (SelfRow D) Db⦄
    {contents : Db → Table (SelfRow D)} (laws : IsSqlite schema contents) where
  -- If its select succeeds, `fitPose` adds up the poses of rows of the code's own id, `threshold` of
  -- them or as many as the table has if these are fewer, and divides by `threshold` in either case.
  -- Of the code only the pose changes, and the table stays as it is.
  pub fit_pose_lem :
      (threshold : ℕ) (dm : DmInfo D) (db : Db)
      → (sqlite.exec (select dm.id threshold) db).0.ok ≡ true
      → (samples : List (SelfRow D)) × ((fit_pose threshold dm db).0
          ≡ record dm { pose = divide (sum_poses no_pose samples) threshold })
        × All (Shows dm.id) samples
        × (length samples ≡ min threshold (count dm.id (contents db).rows))
        × (contents (fit_pose threshold dm db).1 ≡ contents db)
  unfolding fit_pose meaning
  fit_pose_lem threshold dm db ok =
      let (found, perm, e) = laws.delivers dm.id threshold db ok in
      (
        (sqlite.exec (select dm.id threshold) db).0.rows,
        rw ok refl,
        subst (All (Shows dm.id)) (sym e)
            (All-take _ threshold found (All-perm _ perm (All-matching dm.id _))),
        rw e (
            length-take threshold found
            ∙ ap (min threshold) (length-perm perm ∙ length-matching dm.id _)),
        rw ok (select_keeps schema laws dm.id threshold db),
      )
