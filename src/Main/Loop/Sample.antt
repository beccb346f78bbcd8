-- ===== src/Main/Loop/Sample.antt =====
-- Two turns of the loop of src/main_logic.cpp, for the tests.
use rokit_locator_qr_addon.Base.{ℕ, ◌≢◌, inl, refl, [], ◌∷◌, arith}
use rokit_locator_qr_addon.Base.Int.{ℤ, pos}
use rokit_locator_qr_addon.Double.Whole.{whole}
use rokit_locator_qr_addon.Dm.{CustomerPackage}
use rokit_locator_qr_addon.Mode.{recording, localization}
use rokit_locator_qr_addon.Trigger.{Rv, full, Field, PoseRead, message, unreachable, reads}
use rokit_locator_qr_addon.Main.Sample.{pose}
use rokit_locator_qr_addon.Main.Loop.{Sighting}
use rokit_locator_qr_addon.Main.Loop.Counts.{IsSighting, recorded, localized, IsCounted}

abbrev pub package_of : ℕ → CustomerPackage ℤ
package_of id = record { dm_id = id; deviation_x = pos 1; deviation_y = pos 2; deviation_a = pos 3 }

abbrev pub field_of : ℕ → Field ℤ
field_of n = record { rv = full; value = pos n }

-- The code 7 in recording mode, and the code 8 in localization mode.
abbrev pub first : Sighting ℤ
first = record {
  trigger_mode = recording;
  recording_mode = recording;
  localization_mode = recording;
  devi_info = package_of 7;
  round_devi_info = package_of 7;
  vis = reads (field_of 0 ∷ field_of 0 ∷ field_of 0 ∷ field_of 4 ∷ field_of 5 ∷ field_of 6 ∷ []);
  loc = unreachable;
  garbage = 99;
}

abbrev pub second : Sighting ℤ
second = record {
  trigger_mode = localization;
  recording_mode = localization;
  localization_mode = localization;
  devi_info = package_of 8;
  round_devi_info = package_of 9;
  vis = unreachable;
  loc = reads (PoseRead.closed ∷ message (pose 9) (pos 1) ∷ []);
  garbage = 99;
}

full-ne : full ≢ Rv.closed
full-ne e = cc

first-IsSighting : IsSighting first
first-IsSighting =
    recorded first [] (field_of 0) (field_of 0) (field_of 0) (field_of 4) (field_of 5) (field_of 6)
      [] refl refl refl full-ne full-ne full-ne refl

second-IsSighting : IsSighting second
second-IsSighting = localized second 1 (pose 9) (pos 1) [] refl refl refl (inl refl)

pub first-IsCounted : IsCounted first
first-IsCounted = (first-IsSighting, (λ e. omega arith), omega arith)

pub second-IsCounted : IsCounted second
second-IsCounted = (second-IsSighting, (λ e. omega arith), omega arith)
