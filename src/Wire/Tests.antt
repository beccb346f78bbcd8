-- ===== src/Wire/Tests.antt =====
-- Sightings from the bytes of ROKIT, which come one at a time (src/thread_pool.cpp).
use rokit_locator_qr_addon.Base.{
  inl, refl, ℕ, zero, suc, ◌≤◌, ◌≡◌, false, List, [], ◌∷◌, ◌++◌, length, arith,
}
use rokit_locator_qr_addon.Base.Int.{ℤ, pos}
use rokit_locator_qr_addon.Double.Whole.{whole}
use rokit_locator_qr_addon.Dm.{DmInfo, CustomerPackage}
use rokit_locator_qr_addon.Mode.{recording, localization}
use rokit_locator_qr_addon.Binary.Sample.{slow, slow-IsDelivering, slow-IsEnding}
use rokit_locator_qr_addon.Binary.Connect.{connect}
use rokit_locator_qr_addon.Binary.Connect.Sample.{network, network_connects}
use rokit_locator_qr_addon.Trigger.{
  unreachable, timestamp, Targets, waiting, triggered, shift, dm_trigger,
}
use rokit_locator_qr_addon.Wire.{
  Bytes, le_value, pose_message_size, pose_reads, zeros, field_reads, rokit,
}
use rokit_locator_qr_addon.Wire.Ended.{ended_waits}
use rokit_locator_qr_addon.Wire.Poses.{recording_bytes, localization_bytes}

instance abbrev whole_bytes : Bytes ℤ
whole_bytes = record { double_of = λ bytes. pos (le_value bytes) }

-- A number in eight bytes.
abbrev number : ℕ → List ℕ
number n = n ∷ 0 ∷ 0 ∷ 0 ∷ 0 ∷ 0 ∷ 0 ∷ 0 ∷ []

-- The head of a message of the recording, with the pose 4, 5, 6.
abbrev visualization : List ℕ
visualization =
    number 1 ++ (number 2 ++ ((1 ∷ 0 ∷ 0 ∷ 0 ∷ []) ++ (number 4 ++ (number 5 ++ number 6))))

abbrev numbers : ℕ → List ℕ
numbers zero = []
numbers (suc n) = number 0 ++ numbers n

-- A message of the localization, with the state 3 and the pose 4, 5, 6.
abbrev localized : List ℕ
localized =
    numbers 3 ++ ((3 ∷ 0 ∷ 0 ∷ 0 ∷ []) ++ (number 4 ++ (number 5 ++ (number 6 ++ numbers 15))))

abbrev devi : CustomerPackage ℤ
devi = record { dm_id = 7; deviation_x = pos 1; deviation_y = pos 2; deviation_a = pos 3 }

abbrev targets : Targets ℤ
targets =
    let dm : DmInfo ℤ = record {
      id = 3;
      pose = record { x = pos 0; y = pos 0; yaw = pos 0 };
      cnt = 2;
      sloppy_cnt = 0;
      recommend = false;
      enable = false;
      have_sloppy = false;
    } in
    record { dm = dm; loc_stat = pos 0; rokit_pose = dm }

visualization_long : 44 ≤ length visualization
visualization_long = omega arith

localized_long : pose_message_size ≤ length localized
localized_long = omega arith

recording_bytes_example :
    dm_trigger recording devi
      (rokit
        (connect network)
        (field_reads (suc (suc (suc (suc (suc (suc 0)))))) timestamp zeros visualization))
      unreachable
      targets
    ≡ triggered (record targets {
      dm = record targets.dm {
        id = 7;
        pose = shift (record { x = pos 4; y = pos 5; yaw = pos 6 }) devi;
      };
    })
recording_bytes_example =
    recording_bytes slow-IsDelivering devi network 5 0 visualization unreachable targets
      network_connects visualization_long

localization_bytes_example :
    dm_trigger localization devi unreachable
      (rokit (connect network) (pose_reads 1 localized))
      targets
    ≡ triggered (record {
      dm = record targets.dm {
        id = 7;
        pose = shift (record { x = pos 4; y = pos 5; yaw = pos 6 }) devi;
      };
      loc_stat = pos 3;
      rokit_pose = record targets.dm {
        id = 7;
        pose = record { x = pos 4; y = pos 5; yaw = pos 6 };
      };
    })
localization_bytes_example =
    localization_bytes slow-IsDelivering devi network 5 0 localized unreachable targets
      network_connects localized_long

-- ROKIT goes away within the status, and has nothing to send in localization mode.
ended_waits_example :
    dm_trigger recording devi
      (rokit (connect network) (field_reads 9 timestamp zeros (number 1 ++ (number 2 ++ (1 ∷ [])))))
      (rokit (connect network) (pose_reads {S = List ℕ} 9 []))
      targets
    ≡ waiting
ended_waits_example =
    ended_waits slow-IsEnding recording devi network network 5 5 9
      (number 1 ++ (number 2 ++ (1 ∷ []))) [] targets (inl refl) network_connects network_connects
      (omega arith) (omega arith)
