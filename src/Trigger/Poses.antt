-- ===== src/Trigger/Poses.antt =====
-- Which pose `dmTrigger` of src/thread_pool.cpp takes.
use rokit_locator_qr_addon.Base.{
  ℕ, zero, suc, ◌≡◌, ◌≢◌, refl, ◌∙◌, none, some, List, [], ◌∷◌, arith,
}
use rokit_locator_qr_addon.Base.Int.{ℤ}
use rokit_locator_qr_addon.Double.{Double}
use rokit_locator_qr_addon.Dm.{DmPose, CustomerPackage}
use rokit_locator_qr_addon.Mode.{recording, localization}
use rokit_locator_qr_addon.Trigger.{
  Rv, Field, PoseRead, message, Rokit, reads, Targets, waiting, triggered, timestamp,
  read_recording, shift, trigger_recording, trigger_localization, dm_trigger,
}

-- A round of reads that a 0 cuts short at the first, second or third coordinate; the values are those
-- that the fields hold afterwards.
pub data Cut (D : Type 0) : Type 0 where
  at_x : Field D → Field D → Field D → D → Cut D
  at_y : Field D → Field D → Field D → (x : Field D) → x.rv ≢ Rv.closed → D → Cut D
  at_yaw :
      Field D
      → Field D
      → Field D
      → (x y : Field D) → x.rv ≢ Rv.closed
      → y.rv ≢ Rv.closed
      → D
      → Cut D

abbrev pub closed_at : {D : Type 0} → D → Field D
closed_at d = record { rv = Rv.closed; value = d }

abbrev pub fields : {D : Type 0} → List (Cut D) → List (Field D) → List (Field D)
fields [] rest = rest
fields (at_x a b c x ∷ cuts) rest = a ∷ b ∷ c ∷ closed_at x ∷ fields cuts rest
fields (at_y a b c x _ y ∷ cuts) rest = a ∷ b ∷ c ∷ x ∷ closed_at y ∷ fields cuts rest
fields (at_yaw a b c x y _ _ z ∷ cuts) rest = a ∷ b ∷ c ∷ x ∷ y ∷ closed_at z ∷ fields cuts rest

module _ {D : Type 0} where
  read_full :
      (pose : DmPose D) (a b c x y z : Field D) (rest : List (Field D))
      → x.rv ≢ Rv.closed
      → y.rv ≢ Rv.closed
      → z.rv ≢ Rv.closed
      → read_recording timestamp pose (a ∷ b ∷ c ∷ x ∷ y ∷ z ∷ rest)
        ≡ some (record { x = x.value; y = y.value; yaw = z.value })
  unfolding read_recording
  read_full pose a b c x y z rest hx hy hz = ground arith

  read_cuts :
      (pose : DmPose D) (cuts : List (Cut D)) (rest : List (Field D))
      → (pose' : DmPose D) × (read_recording timestamp pose (fields cuts rest)
          ≡ read_recording timestamp pose' rest)
  unfolding read_recording
  read_cuts pose [] rest = (pose, refl)
  read_cuts pose (at_x a b c x ∷ cuts) rest = read_cuts (record pose { x = x }) cuts rest
  read_cuts pose (at_y a b c x hx y ∷ cuts) rest =
      let (p, e) = read_cuts (record pose { x = x.value; y = y }) cuts rest in (p, ground arith)
  read_cuts pose (at_yaw a b c x y hx hy z ∷ cuts) rest =
      let (p, e) = read_cuts (record { x = x.value; y = y.value; yaw = z }) cuts rest in
      (p, ground arith)

abbrev pub closes : {D : Type 0} → ℕ → List (PoseRead D) → List (PoseRead D)
closes zero rest = rest
closes (suc n) rest = PoseRead.closed ∷ closes n rest

module _ {D : Type 0} ⦃fl : Double D⦄ where
  -- In recording mode, after any rounds of reads that a 0 has cut short, the first round without one
  -- at its three coordinates gives the pose, which is moved by the deviation of the package; the
  -- code gets the id of the package, and all else is left. A negative result of a read counts as
  -- success: the pose is then made of what the fields hold.
  pub dm_trigger-recording :
      (devi : CustomerPackage D) (cuts : List (Cut D)) (a b c x y z : Field D)
      (rest : List (Field D)) (loc : Rokit (PoseRead D)) (t : Targets D)
      → x.rv ≢ Rv.closed
      → y.rv ≢ Rv.closed
      → z.rv ≢ Rv.closed
      → dm_trigger recording devi (reads (fields cuts (a ∷ b ∷ c ∷ x ∷ y ∷ z ∷ rest))) loc t
        ≡ triggered (record t {
          dm = record t.dm {
            id = devi.dm_id;
            pose = shift (record { x = x.value; y = y.value; yaw = z.value }) devi;
          };
        })
  unfolding dm_trigger
  dm_trigger-recording devi cuts a b c x y z rest loc t hx hy hz =
      let (p, e) =
        read_cuts (record { x = fl.nought; y = fl.nought; yaw = fl.nought }) cuts
          (a ∷ b ∷ c ∷ x ∷ y ∷ z ∷ rest) in
      rw (e ∙ read_full p a b c x y z rest hx hy hz, trigger_recording)

  localization_closes :
      (devi : CustomerPackage D) (n : ℕ) (rest : List (PoseRead D)) (t : Targets D)
      → trigger_localization devi (closes n rest) t ≡ trigger_localization devi rest t
  unfolding trigger_localization
  localization_closes devi zero rest t = refl
  localization_closes devi (suc n) rest t = localization_closes devi n rest t

  -- In localization mode, after any number of reads with result 0, the first message gives the state
  -- and the pose: `rokitPosePtr` gets the pose as it is, and the code the pose moved by the deviation.
  -- If a negative result comes first, the code keeps its old pose and that is moved by the deviation,
  -- under the id of the new package; the state and `rokitPosePtr` stay as they were.
  pub dm_trigger-localization :
      (devi : CustomerPackage D) (n : ℕ) (pose : DmPose D) (state : ℤ) (rest : List (PoseRead D))
      (vis : Rokit (Field D)) (t : Targets D)
      → (dm_trigger localization devi vis (reads (closes n (message pose state ∷ rest))) t
          ≡ triggered (record {
            dm = record t.dm { id = devi.dm_id; pose = shift pose devi };
            loc_stat = state;
            rokit_pose = record t.dm { id = devi.dm_id; pose = pose };
          }))
        × (dm_trigger localization devi vis (reads (closes n (PoseRead.failed ∷ rest))) t
            ≡ triggered
                (record t { dm = record t.dm { id = devi.dm_id; pose = shift t.dm.pose devi } }))
  unfolding dm_trigger
  dm_trigger-localization devi n pose state rest vis t =
      (localization_closes devi n _ t, localization_closes devi n _ t)

  -- Without a pose among the fields, the loop of the recording mode still reads.
  pub recording_waits :
      (devi : CustomerPackage D) (fs : List (Field D)) (loc : Rokit (PoseRead D)) (t : Targets D)
      → read_recording timestamp (record { x = fl.nought; y = fl.nought; yaw = fl.nought }) fs
        ≡ none
      → dm_trigger recording devi (reads fs) loc t ≡ waiting
  unfolding dm_trigger trigger_recording
  recording_waits devi fs loc t e = rw (e, trigger_recording)

  pub localization_waits :
      (devi : CustomerPackage D) (n : ℕ) (vis : Rokit (Field D)) (t : Targets D)
      → dm_trigger localization devi vis (reads (closes n [])) t ≡ waiting
  unfolding dm_trigger trigger_localization
  localization_waits devi n vis t = localization_closes devi n [] t
