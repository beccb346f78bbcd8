-- ===== src/Trigger/Tests.antt =====
-- Runs of `dmTrigger` (src/thread_pool.cpp) on given reads.
use rokit_locator_qr_addon.Base.{ℕ, ◌≡◌, ◌≢◌, false, [], ◌∷◌}
use rokit_locator_qr_addon.Base.Int.{ℤ, pos, negsuc}
use rokit_locator_qr_addon.Double.Whole.{whole}
use rokit_locator_qr_addon.Dm.{DmPose, DmInfo, CustomerPackage}
use rokit_locator_qr_addon.Mode.{recording, localization}
use rokit_locator_qr_addon.Trigger.{
  Rv, full, Field, PoseRead, message, unreachable, reads, Targets, triggered, shift, dm_trigger,
}
use rokit_locator_qr_addon.Trigger.Poses.{
  Cut, at_y, fields, closes, dm_trigger-recording, dm_trigger-localization,
}

abbrev devi : CustomerPackage ℤ
devi = record { dm_id = 7; deviation_x = pos 1; deviation_y = negsuc 1; deviation_a = pos 0 }

abbrev pose : ℕ → DmPose ℤ
pose n = record { x = pos n; y = pos n; yaw = pos n }

abbrev targets : Targets ℤ
targets =
    let dm : DmInfo ℤ = record {
      id = 3;
      pose = pose 100;
      cnt = 2;
      sloppy_cnt = 0;
      recommend = false;
      enable = false;
      have_sloppy = false;
    } in
    record { dm = dm; loc_stat = pos 0; rokit_pose = dm }

abbrev read_of : ℕ → Field ℤ
read_of n = record { rv = full; value = pos n }

abbrev failed_read : ℕ → Field ℤ
failed_read n = record { rv = Rv.failed; value = pos n }

full-ne : full ≢ Rv.closed
full-ne e = cc

failed-ne : Rv.failed ≢ Rv.closed
failed-ne e = cc

abbrev cut : Cut ℤ
cut = at_y (read_of 1) (read_of 2) (read_of 3) (read_of 50) full-ne (pos 0)

-- A round that ends at its second coordinate, and one whose second coordinate fails.
dm_trigger-recording_example :
    dm_trigger recording devi
      (reads (
        fields
          (cut ∷ [])
          (read_of 1 ∷ read_of 2 ∷ read_of 3 ∷ read_of 4 ∷ failed_read 5 ∷ read_of 6 ∷ [])))
      unreachable
      targets
    ≡ triggered (record targets {
      dm = record targets.dm {
        id = 7;
        pose = shift (record { x = pos 4; y = pos 5; yaw = pos 6 }) devi;
      };
    })
dm_trigger-recording_example =
    dm_trigger-recording devi (cut ∷ []) (read_of 1) (read_of 2) (read_of 3) (read_of 4)
      (failed_read 5) (read_of 6) [] unreachable targets full-ne failed-ne full-ne

dm_trigger-localization_example :
    (dm_trigger localization devi unreachable
        (reads (closes 2 (message (pose 5) (pos 1) ∷ [])))
        targets
      ≡ triggered (record {
        dm = record targets.dm { id = 7; pose = shift (pose 5) devi };
        loc_stat = pos 1;
        rokit_pose = record targets.dm { id = 7; pose = pose 5 };
      }))
    × (dm_trigger localization devi unreachable (reads (closes 2 (PoseRead.failed ∷ []))) targets
        ≡ triggered
            (record targets { dm = record targets.dm { id = 7; pose = shift (pose 100) devi } }))
dm_trigger-localization_example =
    dm_trigger-localization devi 2 (pose 5) (pos 1) [] unreachable targets
