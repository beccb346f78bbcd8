-- ===== src/Main/Loop.antt =====
-- The loop of `main` (src/main_logic.cpp): `dmTrigger`, and a round, for each package that wakes it.
pub mod Counts
pub mod Announced
pub mod Sample
mod Tests
use rokit_locator_qr_addon.Base.{ℕ, Option, none, some, List, [], ◌∷◌}
use rokit_locator_qr_addon.Double.{Double}
use rokit_locator_qr_addon.Dm.{CustomerPackage}
use rokit_locator_qr_addon.Db.{Sqlite}
use rokit_locator_qr_addon.Db.User.{Row}
use rokit_locator_qr_addon.Db.Self.{SelfRow}
use rokit_locator_qr_addon.Trigger.{
  Field, PoseRead, Rokit, Targets, Triggered, waiting, aborted, triggered, dm_trigger,
}
use rokit_locator_qr_addon.Main.{World, Setting}
use rokit_locator_qr_addon.Main.Round.{main_round}

-- One turn of the loop as the other threads and ROKIT let it be: the mode at each of its three
-- tests, `*deviInfo` in `dmTrigger` and in the round (between them it may change), what ROKIT sends in
-- either mode, and the value of the uninitialised id in `retrieveUsrDb`.
pub record Sighting (D : Type 0) : Type 0 where
  pub trigger_mode : ℕ
  pub recording_mode : ℕ
  pub localization_mode : ℕ
  pub devi_info : CustomerPackage D
  pub round_devi_info : CustomerPackage D
  pub vis : Rokit (Field D)
  pub loc : Rokit (PoseRead D)
  pub garbage : ℕ

-- The loop after the given turns: it reads from ROKIT, the program has ended, or it waits for the
-- next package.
pub data Loop (W : Type 0) : Type 0 where
  reading ended : Loop W
  going : W → Loop W

module _ {D UDb SDb Net : Type 0} ⦃fl : Double D⦄ ⦃user_sqlite : Sqlite (Row D) UDb⦄
    ⦃self_sqlite : Sqlite (SelfRow D) SDb⦄ where
  abbrev pub targets : World D UDb SDb Net → Targets D
  targets w = record { dm = w.dm; loc_stat = w.loc_stat; rokit_pose = w.rokit_pose }

  abbrev pub with_targets : World D UDb SDb Net → Targets D → World D UDb SDb Net
  with_targets w t = record w { dm = t.dm; loc_stat = t.loc_stat; rokit_pose = t.rokit_pose }

  -- One turn.
  pub main_turn : Setting D Net → Sighting D → World D UDb SDb Net → Loop (World D UDb SDb Net)
  main_turn set s w = elim (dm_trigger s.trigger_mode s.devi_info s.vis s.loc (targets w)) [
    | waiting ↦ reading
    | aborted ↦ ended
    | triggered t ↦
        elim (main_round s.garbage set s.round_devi_info s.recording_mode s.localization_mode
          (with_targets w t)) [ none ↦ ended | some w' ↦ going w' ]
  ]

  pub main_loop :
      Setting D Net → List (Sighting D) → World D UDb SDb Net → Loop (World D UDb SDb Net)
  unfolding main_turn
  main_loop set [] w = going w
  main_loop set (s ∷ ss) w = elim (main_turn set s w) [
    | reading ↦ reading
    | ended ↦ ended
    | going w' ↦ main_loop set ss w'
  ]
