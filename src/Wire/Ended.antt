-- ===== src/Wire/Ended.antt =====
-- `dmTrigger` (src/thread_pool.cpp) when ROKIT ends its stream too soon.
use rokit_locator_qr_addon.Base.{
  ℕ, zero, suc, ◌+◌, ◌-◌, ◌≤◌, ◌<◌, ◌≡◌, refl, ap, ◌⊎◌, inl, inr, true, false, none, List, [], ◌∷◌,
  length, length-drop, ltb, Bool-cases, ltb→lt, arith,
}
use rokit_locator_qr_addon.Double.{Double}
use rokit_locator_qr_addon.Dm.{DmPose, CustomerPackage}
use rokit_locator_qr_addon.Mode.{recording, localization}
use rokit_locator_qr_addon.Binary.{Os}
use rokit_locator_qr_addon.Binary.Connect.{Network, connect, connected}
use rokit_locator_qr_addon.Binary.Ended.{IsEnding, read-Closes}
use rokit_locator_qr_addon.Trigger
use rokit_locator_qr_addon.Trigger.{
  Field, PoseRead, Rokit, check_return_value, At, timestamp, visualization_id, status, pose_x,
  pose_y, pose_yaw, Targets, waiting, read_recording, dm_trigger,
}
use rokit_locator_qr_addon.Trigger.Poses.{closes, recording_waits, localization_waits}
use rokit_locator_qr_addon.Wire.Poses.{stored, field_reads-next}
use rokit_locator_qr_addon.Wire.{
  Bytes, part, pose_message_size, pose_read, pose_reads, size_of, next, overwrite, store, zeros,
  field_reads, rokit,
}

-- The bytes from a field to the end of the pose.
abbrev left : At → ℕ
left timestamp = 44
left visualization_id = 36
left status = 28
left pose_x = 24
left pose_y = 16
left pose_yaw = 8

left-next : (at : At) (l : ℕ) → size_of at ≤ l → l < left at → l - size_of at < left (next at true)
left-next timestamp l h k = omega arith
left-next visualization_id l h k = omega arith
left-next status l h k = omega arith
left-next pose_x l h k = omega arith
left-next pose_y l h k = omega arith
left-next pose_yaw l h k = absurd (omega arith)

left_closed : (at : At) → 0 < left (next at false)
left_closed timestamp = omega arith
left_closed visualization_id = omega arith
left_closed status = omega arith
left_closed pose_x = omega arith
left_closed pose_y = omega arith
left_closed pose_yaw = omega arith

module _ {D : Type 0} where
  -- What a read does to the loop, unless it is a whole `pose_yaw`.
  read_recording-cons :
      (at : At) (pose : DmPose D) (f : Field D) (fs : List (Field D))
      → ((p : DmPose D) → read_recording (next at (check_return_value f.rv)) p fs ≡ none)
      → (at ≡ pose_yaw → check_return_value f.rv ≡ false)
      → read_recording at pose (f ∷ fs) ≡ none
  unfolding read_recording
  read_recording-cons timestamp pose f fs h k = h pose
  read_recording-cons visualization_id pose f fs h k = h pose
  read_recording-cons status pose f fs h k = h pose
  read_recording-cons pose_x pose f fs h k = h (record pose { x = f.value })
  read_recording-cons pose_y pose f fs h k = h (record pose { y = f.value })
  read_recording-cons pose_yaw pose f fs h k = rw (k refl) (h (record pose { yaw = f.value }))

module _ {D S : Type 0} ⦃fl : Double D⦄ ⦃bytes : Bytes D⦄ ⦃os : Os S⦄ {stream : S → List ℕ}
    (ending : IsEnding stream) where
  -- A field that is cut off.
  field_reads_end :
      (n : ℕ) (at : At) (fields : At → List ℕ) (s : S)
      → length (stream s) < size_of at
      → (v : D) × (fields' : At → List ℕ) × (s' : S) × (field_reads (suc n) at fields s
          ≡ record { rv = Trigger.Rv.closed; value = v } ∷ field_reads n (next at false) fields' s')
        × (stream s' ≡ [])
  unfolding field_reads
  field_reads_end n at fields s short =
      let (r, e, rv, rest) = read-Closes ending (size_of at) s short in
      (
        bytes.double_of (overwrite r.bytes (fields at)),
        store at (overwrite r.bytes (fields at)) fields,
        r.rest,
        rw (e, field_reads, rv) refl,
        rest,
      )

  field_reads-none :
      (n : ℕ) (at : At) (fields : At → List ℕ) (pose : DmPose D) (s : S)
      → length (stream s) < left at
      → read_recording at pose (field_reads n at fields s) ≡ none
  unfolding read_recording field_reads
  field_reads-none zero at fields pose s h = refl
  field_reads-none (suc n) at fields pose s h =
      elim (Bool-cases (ltb (length (stream s)) (size_of at))) [
        | inl short ↦
            let (v, fields', s', e, rest) = field_reads_end n at fields s (ltb→lt _ _ short) in
            rw e (
              read_recording-cons at pose (record { rv = Trigger.Rv.closed; value = v })
                (field_reads n (next at false) fields' s')
                (λ p. field_reads-none n (next at false) fields' p s' (rw rest (left_closed at)))
                (λ y. refl))
        | inr enough ↦
            let room : size_of at ≤ length (stream s) = ground arith in
            let (s', e, rest) =
              field_reads-next {D = D} ending.delivering n at fields (stream s) 0 s refl
                (omega arith) in
            let fewer : length (stream s') < left (next at true) =
              let kept : 0 + size_of at ≡ size_of at = omega arith in
              rw (rest, kept, length-drop (size_of at) (stream s)) (left-next at _ room h) in
            rw e (
              read_recording-cons at pose
                (record {
                  rv = Trigger.Rv.full;
                  value = bytes.double_of (overwrite (part 0 (size_of at) (stream s)) (fields at));
                })
                (field_reads n (next at true) (stored (stream s) 0 at fields) s')
                (λ p. field_reads-none n (next at true) (stored (stream s) 0 at fields) p s' fewer)
                (λ y. absurd (omega (arith, ap size_of y, ap left y))))
      ]

  pose_reads-closes :
      (n : ℕ) (s : S) → length (stream s) < pose_message_size → pose_reads {D = D} n s ≡ closes n []
  unfolding pose_reads pose_read
  pose_reads-closes zero s h = refl
  pose_reads-closes (suc n) s h =
      let (r, e, rv, rest) = read-Closes ending pose_message_size s h in
      rw (e, pose_reads, rv)
        (ap (λ l. PoseRead.closed ∷ l) (pose_reads-closes n r.rest (rw rest (omega arith))))

  -- If `Connect` succeeds and ROKIT closes the connections before it has sent the 44 bytes of the
  -- recording, or the 172 of the localization, that `dmTrigger` waits for, then in either mode
  -- `dmTrigger` does not return, however many reads it makes.
  pub ended_waits :
      (mode : ℕ) (devi : CustomerPackage D) (net net' : Network) (h h' n : ℕ) (s s' : S)
      (t : Targets D)
      → (mode ≡ recording) ⊎ (mode ≡ localization)
      → connect net ≡ connected h
      → connect net' ≡ connected h'
      → length (stream s) < 44
      → length (stream s') < pose_message_size
      → dm_trigger mode devi
          (rokit (connect net) (field_reads n timestamp zeros s))
          (rokit (connect net') (pose_reads n s'))
          t
        ≡ waiting
  ended_waits mode devi net net' h h' n s s' t (inl m) c c' few few' =
      rw (m, c) (recording_waits devi _ _ t (field_reads-none n timestamp zeros _ s few))
  ended_waits mode devi net net' h h' n s s' t (inr m) c c' few few' =
      rw (m, c', pose_reads-closes n s' few') (localization_waits devi n _ t)
