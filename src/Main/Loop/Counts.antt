-- ===== src/Main/Loop/Counts.antt =====
-- How the loop of src/main_logic.cpp counts the sightings of each code.
use rokit_locator_qr_addon.Base.{
  ℕ, suc, ◌+◌, ◌^◌, ◌<◌, ◌≡◌, ◌≢◌, ◌⊎◌, inl, inr, refl, sym, ap, ◌∙◌, ◌==◌, if◌then◌else◌, List, [],
  ◌∷◌, length, All, arith, Bool-cases,
}
use rokit_locator_qr_addon.Base.Int.{ℤ}
use rokit_locator_qr_addon.Double.{Double}
use rokit_locator_qr_addon.Dm.{DmPose}
use rokit_locator_qr_addon.Mode.{recording, localization}
use rokit_locator_qr_addon.Db.{Sqlite, Table, IsSqlite, IsReliable, lookup}
use rokit_locator_qr_addon.Db.User.{Row, schema}
use rokit_locator_qr_addon.Db.Self.{SelfRow}
use rokit_locator_qr_addon.Trigger.{
  Rv, Field, PoseRead, message, reads, Targets, triggered, dm_trigger,
}
use rokit_locator_qr_addon.Trigger.Poses.{
  Cut, fields, closes, dm_trigger-recording, dm_trigger-localization,
}
use rokit_locator_qr_addon.Main.{World, Setting}
use rokit_locator_qr_addon.Main.Round.{main_round}
use rokit_locator_qr_addon.Main.Round.Counts.{cnt_of, IsOpen}
use rokit_locator_qr_addon.Main.Round.Sees.{Sees, main_round-Sees}
use rokit_locator_qr_addon.Main.Round.Ends.{IsAnswering, main_round-ends}
use rokit_locator_qr_addon.Main.Loop.{Sighting, going, targets, with_targets, main_turn, main_loop}

-- A turn in one mode, in which ROKIT sends what `dmTrigger` waits for: a round of reads without a 0
-- at the pose, a message, or a failed read.
pub data IsSighting {D : Type 0} : Sighting D → Type 0 where
  recorded :
      (s : Sighting D) (cuts : List (Cut D)) (a b c x y z : Field D) (rest : List (Field D))
      → s.trigger_mode ≡ recording
      → s.recording_mode ≡ recording
      → s.localization_mode ≡ recording
      → x.rv ≢ Rv.closed
      → y.rv ≢ Rv.closed
      → z.rv ≢ Rv.closed
      → s.vis ≡ reads (fields cuts (a ∷ b ∷ c ∷ x ∷ y ∷ z ∷ rest))
      → IsSighting s
  localized :
      (s : Sighting D) (n : ℕ) (pose : DmPose D) (state : ℤ) (rest : List (PoseRead D))
      → s.trigger_mode ≡ localization
      → s.recording_mode ≡ localization
      → s.localization_mode ≡ localization
      → (s.loc ≡ reads (closes n (message pose state ∷ rest)))
        ⊎ (s.loc ≡ reads (closes n (PoseRead.failed ∷ rest)))
      → IsSighting s

-- With an id that is not 0.
abbrev pub IsCounted : {D : Type 0} → Sighting D → Type 0
IsCounted s = IsSighting s × (s.devi_info.dm_id ≢ 0) × (s.devi_info.dm_id < 2 ^ 32)

-- How many sightings are of the code `id`.
abbrev pub seen : {D : Type 0} → ℕ → List (Sighting D) → ℕ
seen id [] = 0
seen id (s ∷ ss) = if s.devi_info.dm_id == id then suc (seen id ss) else seen id ss

abbrev pub count_in : {D : Type 0} → ℕ → Table (Row D) → ℕ
count_in id t = cnt_of (lookup schema id t.rows)

module _ {D : Type 0} ⦃fl : Double D⦄ where
  -- `dmTrigger` returns with the id of the package.
  abbrev Returns : Sighting D → Targets D → Type 0
  Returns s t =
      (t' : Targets D) × (dm_trigger s.trigger_mode s.devi_info s.vis s.loc t ≡ triggered t')
      × (t'.dm.id ≡ s.devi_info.dm_id)

  IsSighting-Returns : (s : Sighting D) → IsSighting s → (t : Targets D) → Returns s t
  IsSighting-Returns s (recorded _ cuts a b c x y z rest m _ _ hx hy hz v) t = (
    _,
    ap (λ k. dm_trigger k s.devi_info s.vis s.loc t) m
        ∙ ap (λ k. dm_trigger recording s.devi_info k s.loc t) v
        ∙ dm_trigger-recording s.devi_info cuts a b c x y z rest s.loc t hx hy hz,
    refl,
  )
  IsSighting-Returns s (localized _ n pose state rest m _ _ (inl v)) t = (
    _,
    ap (λ k. dm_trigger k s.devi_info s.vis s.loc t) m
        ∙ ap (λ k. dm_trigger localization s.devi_info s.vis k t) v
        ∙ (dm_trigger-localization s.devi_info n pose state rest s.vis t).0,
    refl,
  )
  IsSighting-Returns s (localized _ n pose state rest m _ _ (inr v)) t = (
    _,
    ap (λ k. dm_trigger k s.devi_info s.vis s.loc t) m
        ∙ ap (λ k. dm_trigger localization s.devi_info s.vis k t) v
        ∙ (dm_trigger-localization s.devi_info n pose state rest s.vis t).1,
    refl,
  )

IsSighting-modes :
    {D : Type 0} (s : Sighting D)
    → IsSighting s
    → ((s.recording_mode ≡ recording) ⊎ (s.recording_mode ≡ localization))
      × (s.localization_mode ≡ s.recording_mode)
IsSighting-modes s (recorded _ cuts a b c x y z rest _ m m' _ _ _ _) = (inl m, m' ∙ sym m)
IsSighting-modes s (localized _ n pose state rest _ m m' _) = (inr m, m' ∙ sym m)

module _ {D UDb SDb Net : Type 0} ⦃fl : Double D⦄ ⦃user_sqlite : Sqlite (Row D) UDb⦄
    ⦃self_sqlite : Sqlite (SelfRow D) SDb⦄ {contents : UDb → Table (Row D)}
    (laws : IsSqlite schema contents) (reliable : IsReliable schema contents) (set : Setting D Net)
    (answering : IsAnswering set.http) where
  -- What a turn leaves, with the counts of all codes.
  abbrev Turned : Sighting D → World D UDb SDb Net → World D UDb SDb Net → Type 0
  Turned s w w' =
      IsOpen contents w'.user
      × ((id : ℕ)
          → count_in id (contents w'.user.db)
            ≡ count_in id (contents w.user.db) + (if s.devi_info.dm_id == id then 1 else 0))

  Sees-Turned :
      (s : Sighting D) (w w' : World D UDb SDb Net) (t : Targets D)
      → t.dm.id ≡ s.devi_info.dm_id
      → Sees contents (with_targets w t) w'
      → Turned s w w'
  Sees-Turned s w w' t e sees = (
    sees.is_open,
    λ id. elim (Bool-cases (s.devi_info.dm_id == id)) [
      | inl same ↦ ground (arith, sees.counts.cnt, e)
      | inr other ↦ ground (arith, sees.counts.others id, e)
    ],
  )

  main_turn-Turned :
      (s : Sighting D) (w : World D UDb SDb Net)
      → IsCounted s
      → IsOpen contents w.user
      → count_in s.devi_info.dm_id (contents w.user.db) < 2 ^ 31
      → (w' : World D UDb SDb Net) × (main_turn set s w ≡ going w') × Turned s w w'
  unfolding main_turn
  main_turn-Turned s w counted o small =
      let (t, trigger, id) = IsSighting-Returns s counted.0 (targets w) in
      let v = with_targets w t in
      let (modes, same) = IsSighting-modes s counted.0 in
      let (w', round) =
        main_round-ends set answering s.garbage s.round_devi_info s.recording_mode
          s.localization_mode v in
      (
        w',
        rw (trigger, round, main_turn),
        Sees-Turned s w w' t id (
            main_round-Sees laws reliable s.garbage set s.round_devi_info s.recording_mode v w'
              modes o (rw id counted.1) (rw id counted.2) (rw id small)
              (ap (λ k. main_round s.garbage set s.round_devi_info s.recording_mode k v) (sym same)
                ∙ round)),
      )

  -- The loop goes on through turns in one mode, in which ROKIT sends what is waited for, and it
  -- counts them: at its end, in the user database, the count of each code is that at the start and
  -- the number of turns with this code (where a code that is not there counts 0). This holds with an
  -- SQLite that fails only on a primary key, a server whose replies have what the clients read in
  -- them, ids that are not 0, and counts that stay below 2 ^ 31.
  pub main_loop-counts :
      (ss : List (Sighting D)) (w : World D UDb SDb Net)
      → All IsCounted ss
      → IsOpen contents w.user
      → ((id : ℕ) → count_in id (contents w.user.db) + length ss < 2 ^ 31)
      → (w' : World D UDb SDb Net) × (main_loop set ss w ≡ going w')
        × IsOpen contents w'.user
        × ((id : ℕ)
            → count_in id (contents w'.user.db) ≡ count_in id (contents w.user.db) + seen id ss)
  unfolding main_loop
  main_loop-counts [] w all o small = (w, refl, o, λ id. omega arith)
  main_loop-counts (s ∷ ss) w all o small =
      let (v, turn, (o', counts)) =
        main_turn-Turned s w all.0 o (omega (arith, small s.devi_info.dm_id)) in
      let (w', rest, o'', sum) =
        main_loop-counts ss v all.1 o' (λ id. ground (arith, counts id, small id)) in
      (w', rw (turn, main_loop) rest, o'', λ id. sum id ∙ ground (arith, counts id))
