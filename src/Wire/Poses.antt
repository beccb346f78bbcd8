-- ===== src/Wire/Poses.antt =====
-- The pose that `dmTrigger` (src/thread_pool.cpp) makes of the bytes of ROKIT.
use mathlib.Core.List.{append-nil}
use rokit_locator_qr_addon.Base.{
  ℕ, suc, ◌+◌, ◌≤◌, ◌≡◌, ◌≢◌, refl, ◌∙◌, true, List, [], ◌∷◌, ◌++◌, length, take, drop, drop-drop,
  length-drop, length-take, ap, arith,
}
use rokit_locator_qr_addon.Double.{Double}
use rokit_locator_qr_addon.Dm.{CustomerPackage}
use rokit_locator_qr_addon.Mode.{recording, localization}
use rokit_locator_qr_addon.Binary.{Os}
use rokit_locator_qr_addon.Binary.Connect.{Network, connect, connected}
use rokit_locator_qr_addon.Binary.Delivers.{IsDelivering, read-Fills}
use rokit_locator_qr_addon.Trigger
use rokit_locator_qr_addon.Trigger.{
  Field, PoseRead, message, Rokit, reads, At, timestamp, visualization_id, status, pose_x, pose_y,
  pose_yaw, Targets, triggered, shift, dm_trigger,
}
use rokit_locator_qr_addon.Trigger.Poses.{dm_trigger-recording, dm_trigger-localization}
use rokit_locator_qr_addon.Wire.{
  Bytes, part, pose_message_size, pose_of, state_of, pose_read, pose_reads, size_of, next,
  overwrite, zeros, store, field_reads, rokit,
}

drop-length : (old : List ℕ) → drop (length old) old ≡ []
drop-length [] = refl
drop-length (b ∷ old) = drop-length old

overwrite_all : (new old : List ℕ) → length new ≡ length old → overwrite new old ≡ new
overwrite_all new old e = rw e (ap (λ t. new ++ t) (drop-length old) ∙ append-nil new)

full-ne : Trigger.Rv.full ≢ Trigger.Rv.closed
full-ne e = cc

-- A coordinate, whose field is still as it was at the start.
coordinate :
    (st : List ℕ) (at : At) (n : ℕ)
    → 8 + n ≤ length st
    → overwrite (part n 8 st) (zeros at) ≡ part n 8 st
coordinate st at n h =
    overwrite_all (part n 8 st) (zeros at)
      (omega (arith, length-take 8 (drop n st), length-drop n st))

-- The fields after the one `at`, of which `n` bytes have come before, is read whole.
abbrev pub stored : List ℕ → ℕ → At → (At → List ℕ) → At → List ℕ
stored st n at fields = store at (overwrite (part n (size_of at) st) (fields at)) fields

module _ {D S : Type 0} ⦃fl : Double D⦄ ⦃bytes : Bytes D⦄ ⦃os : Os S⦄ {stream : S → List ℕ}
    (delivering : IsDelivering stream) where
  pose_reads_first :
      (n : ℕ) (s : S)
      → pose_message_size ≤ length (stream s)
      → (s' : S) × (pose_reads {D = D} (suc n) s
          ≡ message
              (pose_of (take pose_message_size (stream s)))
              (state_of (take pose_message_size (stream s)))
            ∷ pose_reads {D = D} n s')
  unfolding pose_reads pose_read
  pose_reads_first n s h =
      let (r, e, rv, b, rest) = read-Fills delivering pose_message_size s h in
      (r.rest, rw (e, pose_reads, rv, b) refl)

  -- A field that is read whole.
  pub field_reads-next :
      (k : ℕ) (at : At) (fields : At → List ℕ) (st : List ℕ) (n : ℕ) (s : S)
      → stream s ≡ drop n st
      → size_of at + n ≤ length st
      → (s' : S) × (field_reads (suc k) at fields s
          ≡ record {
            rv = Trigger.Rv.full;
            value = bytes.double_of (overwrite (part n (size_of at) st) (fields at));
          }
            ∷ field_reads k (next at true) (stored st n at fields) s')
        × (stream s' ≡ drop (n + size_of at) st)
  unfolding field_reads
  field_reads-next k at fields st n s e h =
      let (r, d, rv, b, rest) =
        read-Fills delivering (size_of at) s (rw e (omega (arith, length-drop n st))) in
      (r.rest, rw (d, field_reads, rv, b, e) refl, rest ∙ rw e (drop-drop (size_of at) n st))

  abbrev whole : List ℕ → Field D
  whole b = record { rv = Trigger.Rv.full; value = bytes.double_of b }

  -- The reads of a round, each of which is whole.
  field_reads_round :
      (n : ℕ) (s : S)
      → 44 ≤ length (stream s)
      → (a b c : Field D) × (rest : List (Field D)) × (field_reads
            (suc (suc (suc (suc (suc (suc n))))))
            timestamp
            zeros
            s
          ≡ a
            ∷ b
            ∷ c
            ∷ whole (part 20 8 (stream s))
            ∷ whole (part 28 8 (stream s))
            ∷ whole (part 36 8 (stream s))
            ∷ rest)
  field_reads_round n s h =
      let st = stream s in
      let fields1 = stored st 0 timestamp zeros in
      let fields2 = stored st 8 visualization_id fields1 in
      let fields3 = stored st 16 status fields2 in
      let fields4 = stored st 20 pose_x fields3 in
      let fields5 = stored st 28 pose_y fields4 in
      let (s1, e1, f1) =
        field_reads-next (suc (suc (suc (suc (suc n))))) timestamp zeros st 0 s refl
          (omega arith) in
      let (s2, e2, f2) =
        field_reads-next (suc (suc (suc (suc n)))) visualization_id fields1 st 8 s1 f1
          (omega arith) in
      let (s3, e3, f3) =
        field_reads-next (suc (suc (suc n))) status fields2 st 16 s2 f2 (omega arith) in
      let (s4, e4, f4) = field_reads-next (suc (suc n)) pose_x fields3 st 20 s3 f3 (omega arith) in
      let (s5, e5, f5) = field_reads-next (suc n) pose_y fields4 st 28 s4 f4 (omega arith) in
      let (s6, e6, f6) = field_reads-next n pose_yaw fields5 st 36 s5 f5 (omega arith) in
      let x : overwrite (part 20 8 st) (fields3 pose_x) ≡ part 20 8 st =
        coordinate st pose_x 20 (omega arith) in
      let y : overwrite (part 28 8 st) (fields4 pose_y) ≡ part 28 8 st =
        coordinate st pose_y 28 (omega arith) in
      let yaw : overwrite (part 36 8 st) (fields5 pose_yaw) ≡ part 36 8 st =
        coordinate st pose_yaw 36 (omega arith) in
      (
        whole (overwrite (part 0 8 st) (zeros timestamp)),
        whole (overwrite (part 8 8 st) (fields1 visualization_id)),
        whole (overwrite (part 16 4 st) (fields2 status)),
        field_reads n timestamp (stored st 36 pose_yaw fields5) s6,
        rw (e1, e2, e3, e4, e5, e6, x, y, yaw) refl,
      )

  -- In recording mode, if `Connect` succeeds and ROKIT sends the first 44 bytes of a
  -- `RecordingVisualizationMessage`, `dmTrigger` returns, however the operating system cuts these
  -- bytes into pieces: the code has the id of the package, and the pose whose coordinates are the
  -- doubles at the bytes 20, 28 and 36, moved by the deviation of the package; all else is left.
  pub recording_bytes :
      (devi : CustomerPackage D) (n : Network) (h k : ℕ) (s : S) (loc : Rokit (PoseRead D))
      (t : Targets D)
      → connect n ≡ connected h
      → 44 ≤ length (stream s)
      → dm_trigger recording devi
          (rokit (connect n) (field_reads (suc (suc (suc (suc (suc (suc k)))))) timestamp zeros s))
          loc
          t
        ≡ triggered (record t {
          dm = record t.dm {
            id = devi.dm_id;
            pose =
                shift
                  (record {
                    x = bytes.double_of (part 20 8 (stream s));
                    y = bytes.double_of (part 28 8 (stream s));
                    yaw = bytes.double_of (part 36 8 (stream s));
                  })
                  devi;
          };
        })
  recording_bytes devi n h k s loc t c enough =
      let (a, b, e, rest, round) = field_reads_round k s enough in
      rw (c, round) (dm_trigger-recording devi [] a b e _ _ _ rest loc t full-ne full-ne full-ne)

  -- In localization mode, if `Connect` succeeds and ROKIT sends the 172 bytes of a `PoseMessage`,
  -- `dmTrigger` returns, however the operating system cuts these bytes into pieces: `locStatPtr` has
  -- the state in them, `rokitPosePtr` the pose in them and the id of the package, and the code the
  -- same id and the pose moved by the deviation of the package; all else is left.
  pub localization_bytes :
      (devi : CustomerPackage D) (n : Network) (h k : ℕ) (s : S) (vis : Rokit (Field D))
      (t : Targets D)
      → connect n ≡ connected h
      → pose_message_size ≤ length (stream s)
      → dm_trigger localization devi vis (rokit (connect n) (pose_reads (suc k) s)) t
        ≡ triggered (record {
          dm = record t.dm {
            id = devi.dm_id;
            pose = shift (pose_of (take pose_message_size (stream s))) devi;
          };
          loc_stat = state_of (take pose_message_size (stream s));
          rokit_pose = record t.dm {
            id = devi.dm_id;
            pose = pose_of (take pose_message_size (stream s));
          };
        })
  localization_bytes devi n h k s vis t c enough =
      let (s', e) = pose_reads_first k s enough in
      rw (c, e) (dm_trigger-localization devi 0 _ _ (pose_reads k s') vis t).0
