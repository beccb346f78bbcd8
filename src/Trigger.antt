-- ===== src/Trigger.antt =====
-- `ThreadHandler::dmTrigger` of src/thread_pool.cpp, from the moment that it is woken: the messages
-- of ROKIT are arguments, as the results of the calls of `read`.
pub mod Poses
mod Tests
use rokit_locator_qr_addon.Base.{
  ℕ, Bool, true, false, Option, none, some, List, [], ◌∷◌, ◌==◌, if◌then◌else◌,
}
use rokit_locator_qr_addon.Base.Int.{ℤ}
use rokit_locator_qr_addon.Double.{Double}
use rokit_locator_qr_addon.Dm.{DmPose, DmInfo, CustomerPackage}
use rokit_locator_qr_addon.Mode.{recording, localization}

pub data Rv : Type 0 where
  full closed failed : Rv

-- A `read` of one field in recording mode: its result, and the double that the field then holds (for
-- the fields before the pose, which are not used, any).
pub record Field (D : Type 0) : Type 0 where
  pub rv : Rv
  pub value : D

-- A `read` of a whole pose message in localization mode.
pub data PoseRead (D : Type 0) : Type 0 where
  message : DmPose D → ℤ → PoseRead D
  closed failed : PoseRead D

-- What ROKIT sends after the client has connected; or the client cannot connect, and its exception
-- ends the program.
pub data Rokit (R : Type 0) : Type 0 where
  unreachable : Rokit R
  reads : List R → Rokit R

-- The arguments of `dmTrigger` that it changes.
pub record Targets (D : Type 0) : Type 0 where
  pub dm : DmInfo D
  pub loc_stat : ℤ
  pub rokit_pose : DmInfo D

-- It still reads, the program has ended, or it returns.
pub data Triggered (D : Type 0) : Type 0 where
  waiting aborted : Triggered D
  triggered : Targets D → Triggered D

-- `checkReturnValue`: false at 0 only.
abbrev pub check_return_value : Rv → Bool
check_return_value closed = false
check_return_value full = true
check_return_value failed = true

-- The fields in the order of their reads.
pub data At : Type 0 where
  timestamp visualization_id status pose_x pose_y pose_yaw : At

module _ {D : Type 0} where
  -- The loop of the recording mode: where it stands, and the pose in `message`. A 0 at one of the
  -- last three reads sends it back to the first one.
  unfoldable pub read_recording : At → DmPose D → List (Field D) → Option (DmPose D)
  read_recording at pose [] = none
  read_recording timestamp pose (f ∷ fs) = read_recording visualization_id pose fs
  read_recording visualization_id pose (f ∷ fs) = read_recording status pose fs
  read_recording status pose (f ∷ fs) = read_recording pose_x pose fs
  read_recording pose_x pose (f ∷ fs) =
      read_recording (if check_return_value f.rv then pose_y else timestamp)
        (record pose { x = f.value }) fs
  read_recording pose_y pose (f ∷ fs) =
      read_recording (if check_return_value f.rv then pose_yaw else timestamp)
        (record pose { y = f.value }) fs
  read_recording pose_yaw pose (f ∷ fs) =
      let again = read_recording timestamp (record pose { yaw = f.value }) fs in
      if check_return_value f.rv then some (record pose { yaw = f.value }) else again

module _ {D : Type 0} ⦃fl : Double D⦄ where
  -- The pose, moved by the deviation of the package.
  unfoldable pub shift : DmPose D → CustomerPackage D → DmPose D
  shift pose devi = record {
    x = fl.add pose.x devi.deviation_x;
    y = fl.add pose.y devi.deviation_y;
    yaw = fl.add pose.yaw devi.deviation_a;
  }

  trigger_recording : CustomerPackage D → List (Field D) → Targets D → Triggered D
  unfolding read_recording shift
  trigger_recording devi fields t =
      let local = record t.dm { id = devi.dm_id } in
      let none_yet : DmPose D = record { x = fl.nought; y = fl.nought; yaw = fl.nought } in
      elim (read_recording timestamp none_yet fields) [
        | none ↦ waiting
        | some pose ↦ triggered (record t { dm = record local { pose = shift pose devi } })
      ]

  -- The loop of the localization mode; a negative result leaves it without a message.
  trigger_localization : CustomerPackage D → List (PoseRead D) → Targets D → Triggered D
  unfolding shift
  trigger_localization devi [] t = waiting
  trigger_localization devi (message pose state ∷ more) t =
      let local = record t.dm { id = devi.dm_id; pose = pose } in
      triggered (record {
        dm = record local { pose = shift pose devi };
        loc_stat = state;
        rokit_pose = local;
      })
  trigger_localization devi (closed ∷ more) t = trigger_localization devi more t
  trigger_localization devi (failed ∷ more) t =
      triggered (record t { dm = record t.dm { id = devi.dm_id; pose = shift t.dm.pose devi } })

  pub dm_trigger :
      ℕ → CustomerPackage D → Rokit (Field D) → Rokit (PoseRead D) → Targets D → Triggered D
  unfolding trigger_recording trigger_localization
  dm_trigger mode devi vis loc t =
      if mode == recording
      then elim vis [ unreachable ↦ aborted | reads fields ↦ trigger_recording devi fields t ]
      else if mode == localization
      then elim loc [ unreachable ↦ aborted | reads ms ↦ trigger_localization devi ms t ]
      else triggered t
