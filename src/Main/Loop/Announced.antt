-- ===== src/Main/Loop/Announced.antt =====
-- From the packages that the receiving thread announces to the counts in the user database
-- (src/thread_pool.cpp, src/main_logic.cpp).
use mathlib.Core.List.{Sublistᴰ}
use rokit_locator_qr_addon.Base.{
  ℕ, suc, ◌+◌, ◌^◌, ◌≤◌, ◌<◌, ◌≡◌, refl, ◌∙◌, ap, ◌==◌, if◌then◌else◌, List, [], ◌∷◌, map, length,
  All, arith,
}
use rokit_locator_qr_addon.Double.{Double}
use rokit_locator_qr_addon.Dm.{CustomerPackage}
use rokit_locator_qr_addon.Db.{Sqlite, Table, IsSqlite, IsReliable}
use rokit_locator_qr_addon.Db.User.{Row, schema}
use rokit_locator_qr_addon.Db.Self.{SelfRow}
use rokit_locator_qr_addon.Handover.{Threads, Reaches}
use rokit_locator_qr_addon.Handover.Order.{queued, init-Sublistᴰ, IsOrdered, Reaches-IsOrdered}
use rokit_locator_qr_addon.Main.{World, Setting}
use rokit_locator_qr_addon.Main.Round.Counts.{IsOpen}
use rokit_locator_qr_addon.Main.Round.Ends.{IsAnswering}
use rokit_locator_qr_addon.Main.Loop.{Sighting, going, main_loop}
use rokit_locator_qr_addon.Main.Loop.Counts.{IsCounted, seen, count_in, main_loop-counts}

-- How many of the packages show a code.
abbrev pub shown : {D : Type 0} → ℕ → List (CustomerPackage D) → ℕ
shown id [] = 0
shown id (p ∷ ps) = if p.dm_id == id then suc (shown id ps) else shown id ps

seen-shown :
    {D : Type 0} (id : ℕ) (ss : List (Sighting D))
    → seen id ss ≡ shown id (map (λ s. s.devi_info) ss)
seen-shown id [] = refl
seen-shown id (s ∷ ss) = ground (arith, seen-shown id ss)

shown-Sublistᴰ :
    {D : Type 0} (id : ℕ) {ps qs : List (CustomerPackage D)}
    → Sublistᴰ ps qs
    → shown id ps ≤ shown id qs
shown-Sublistᴰ id Sublistᴰ.slnil = omega arith
shown-Sublistᴰ id (Sublistᴰ.cons s) = ground (arith, shown-Sublistᴰ id s)
shown-Sublistᴰ id (Sublistᴰ.cons-cons e s) =
    ground (arith, shown-Sublistᴰ id s, ap CustomerPackage.dm_id e)

module _ {D UDb SDb Net : Type 0} ⦃fl : Double D⦄ ⦃user_sqlite : Sqlite (Row D) UDb⦄
    ⦃self_sqlite : Sqlite (SelfRow D) SDb⦄ {contents : UDb → Table (Row D)}
    (laws : IsSqlite schema contents) (reliable : IsReliable schema contents) (set : Setting D Net)
    (answering : IsAnswering set.http) where
  -- The receiving thread and the main loop, in any order of their steps in which no `wait` returns
  -- without a notification: the turns that were made with the packages count each code at most as
  -- often as it was announced, and never take a count away. The other conditions are those under
  -- which the loop counts its turns.
  pub main_loop-announced :
      {t u : Threads D} (ss : List (Sighting D)) (w : World D UDb SDb Net)
      → Reaches t u
      → IsOrdered t
      → u.spurious ≡ 0
      → map (λ s. s.devi_info) ss ≡ u.handled
      → All IsCounted ss
      → IsOpen contents w.user
      → ((id : ℕ) → count_in id (contents w.user.db) + length ss < 2 ^ 31)
      → (w' : World D UDb SDb Net) × (main_loop set ss w ≡ going w')
        × ((id : ℕ)
            → (count_in id (contents w.user.db) ≤ count_in id (contents w'.user.db))
              × (count_in id (contents w'.user.db)
                  ≤ count_in id (contents w.user.db) + shown id u.receiver.notices))
  main_loop-announced {u} ss w r ordered z turns all o small =
      let (w', e, o', counts) = main_loop-counts laws reliable set answering ss w all o small in
      let order =
        init-Sublistᴰ u.handled (queued u.place u.receiver.devi_info) u.receiver.notices
          (Reaches-IsOrdered r ordered z) in
      (
        w',
        e,
        λ id.
            let most = shown-Sublistᴰ id order in
            let same = seen-shown id ss ∙ ap (shown id) turns in
            (omega (arith, counts id), omega (arith, counts id)),
      )
