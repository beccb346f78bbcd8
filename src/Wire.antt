-- ===== src/Wire.antt =====
-- The bytes of ROKIT's messages: the layout of `PoseMessage`
-- (include/binary_interface_pose_struct.h) and of the head of `RecordingVisualizationMessage`
-- (include/binary_interface_recording_vis_structs.h), and the reads that `dmTrigger` makes of them
-- (src/thread_pool.cpp) through `BinaryInterfaceClient`. Numbers are little-endian, as on the
-- machines that ROKIT runs on.
pub mod Poses
pub mod Ended
mod Tests
use rokit_locator_qr_addon.Base.{
  ℕ, zero, suc, ◌+◌, ◌-◌, ◌*◌, ◌^◌, Bool, true, false, Option, none, some, List, [], ◌∷◌, ◌++◌,
  take, drop, length, ltb, ◌==◌, if◌then◌else◌,
}
use rokit_locator_qr_addon.Base.Int.{ℤ, pos, negsuc}
use rokit_locator_qr_addon.Dm.{DmPose}
use rokit_locator_qr_addon.Binary.{Os, Rv, count, Reading, read}
use rokit_locator_qr_addon.Binary.Connect.{Connection, connected}
use rokit_locator_qr_addon.Trigger
use rokit_locator_qr_addon.Trigger.{
  Field, PoseRead, message, Rokit, unreachable, reads, check_return_value, At, timestamp,
  visualization_id, status, pose_x, pose_y, pose_yaw,
}

-- The double of eight bytes.
pub record Bytes (D : Type 0) : Type 0 where
  pub double_of : List ℕ → D

abbrev pub le_value : List ℕ → ℕ
le_value [] = 0
le_value (b ∷ bytes) = b + 256 * le_value bytes

-- An `int32_t`.
abbrev pub int32_of : List ℕ → ℤ
int32_of bytes = let n = le_value bytes in if ltb n (2 ^ 31) then pos n else negsuc (2 ^ 32 - 1 - n)

-- `n` bytes from a place on.
abbrev pub part : ℕ → ℕ → List ℕ → List ℕ
part at n bytes = take n (drop at bytes)

-- `sizeof(PoseMessage)`: it is packed, with twenty numbers of eight bytes and `state`, of four.
abbrev pub pose_message_size : ℕ
pose_message_size = 172

abbrev pub state_of : List ℕ → ℤ
state_of b = int32_of (part 24 4 b)

module _ {D : Type 0} ⦃bytes : Bytes D⦄ where
  -- The fields of a `PoseMessage` that are used.
  abbrev pub pose_of : List ℕ → DmPose D
  pose_of b = record {
    x = bytes.double_of (part 28 8 b);
    y = bytes.double_of (part 36 8 b);
    yaw = bytes.double_of (part 44 8 b);
  }

  pub pose_read : Rv → List ℕ → PoseRead D
  pose_read (count n) b = message (pose_of b) (state_of b)
  pose_read Rv.closed b = PoseRead.closed
  pose_read Rv.failed b = PoseRead.failed

module _ {D S : Type 0} ⦃bytes : Bytes D⦄ ⦃os : Os S⦄ where
  -- The results of the first `n` reads in localization mode.
  pub pose_reads : ℕ → S → List (PoseRead D)
  unfolding pose_read
  pose_reads zero s = []
  pose_reads (suc n) s = elim (read pose_message_size s) [
    | none ↦ []
    | some r ↦ pose_read r.rv r.bytes ∷ pose_reads n r.rest
  ]

-- `sizeof` of the fields that are read in recording mode.
abbrev pub size_of : At → ℕ
size_of timestamp = 8
size_of visualization_id = 8
size_of status = 4
size_of pose_x = 8
size_of pose_y = 8
size_of pose_yaw = 8

abbrev pub index : At → ℕ
index timestamp = 0
index visualization_id = 1
index status = 2
index pose_x = 3
index pose_y = 4
index pose_yaw = 5

-- The read that follows, after one that counts as success or not; after the last field the loop ends.
abbrev pub next : At → Bool → At
next timestamp ok = visualization_id
next visualization_id ok = status
next status ok = pose_x
next pose_x ok = if ok then pose_y else timestamp
next pose_y ok = if ok then pose_yaw else timestamp
next pose_yaw ok = timestamp

abbrev pub rv_of : Rv → Trigger.Rv
rv_of (count n) = Trigger.Rv.full
rv_of Rv.closed = Trigger.Rv.closed
rv_of Rv.failed = Trigger.Rv.failed

-- What a field holds after a read: the bytes that came, and behind them those of before.
abbrev pub overwrite : List ℕ → List ℕ → List ℕ
overwrite new old = new ++ drop (length new) old

-- The fields of the message, which start with zeros.
abbrev pub zeros : At → List ℕ
zeros at = 0 ∷ 0 ∷ 0 ∷ 0 ∷ 0 ∷ 0 ∷ 0 ∷ 0 ∷ []

abbrev pub store : At → List ℕ → (At → List ℕ) → At → List ℕ
store at held fields a = if index a == index at then held else fields a

module _ {D S : Type 0} ⦃bytes : Bytes D⦄ ⦃os : Os S⦄ where
  -- The results of the first `n` reads in recording mode, from a field on.
  pub field_reads : ℕ → At → (At → List ℕ) → S → List (Field D)
  field_reads zero at fields s = []
  field_reads (suc n) at fields s = elim (read (size_of at) s) [
    | none ↦ []
    | some r ↦
        let held = overwrite r.bytes (fields at) in
        record { rv = rv_of r.rv; value = bytes.double_of held }
        ∷ field_reads n (next at (check_return_value (rv_of r.rv))) (store at held fields) r.rest
  ]

-- ROKIT after `Connect`.
abbrev pub rokit : {R : Type 0} → Connection → List R → Rokit R
rokit (connected h) rs = reads rs
rokit Connection.resolve_error rs = unreachable
rokit Connection.connect_error rs = unreachable
rokit Connection.no_delay_error rs = unreachable
