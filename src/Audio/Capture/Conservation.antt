-- ===== src/Audio/Capture/Conservation.antt =====
-- crates/audio/src/capture.rs: every buffer is in one of the two queues or in one hand, so the
-- ready queue has room whenever a buffer was free.
use slotpilot.Prelude.{
  ℕ, zero, suc, ◌+◌, ◌≤◌, ◌<◌, ◌≡◌, ap, subst, within, inl, inr, refl, arith, true, List, [], ◌∷◌,
  ◌++◌, length, All, All-append, length-append, length-replicate,
}
use slotpilot.Prelude.Int.{ℤ, pos}
use slotpilot.Prelude.Results.{ok}
use slotpilot.Audio.Batch.{
  discontinuity_position, max_capture_batch_frames, InputFault, InputFaultKind,
}
use slotpilot.Audio.Config.{InputConfiguration}
use slotpilot.Audio.Capture.Queues.{ArrayQueue}
use slotpilot.Audio.Capture.Worker.{
  SharedCapture, RawBatch, allocate, empty_buffer, emit_fault, give_back, new_shared, initial,
  fault_of, max_capture_queue_batches,
}

abbrev pub IsBuffer : List ℤ → Type 0
IsBuffer buffer = length buffer ≡ max_capture_batch_frames

-- A raw batch that `CaptureBatch::new` accepts.
pub record IsPrepared (raw : RawBatch) : Type 0 where
  pub buffer : IsBuffer raw.samples
  pub some_frames : 0 < raw.frame_count
  pub fit : raw.frame_count ≤ max_capture_batch_frames
  pub clipped : raw.diagnostics.clipped_samples ≤ raw.frame_count
  pub marked :
      discontinuity_position raw.discontinuity raw.first_frame.position ≡ raw.first_frame.position

-- Of the n buffers, k are in neither queue.
pub record Holds (Q : ArrayQueue) (n k : ℕ) (free : Q.Queue (List ℤ)) (ready : Q.Queue RawBatch)
    : Type 0 where
  pub free_capacity : Q.capacity free ≡ n
  pub ready_capacity : Q.capacity ready ≡ n
  pub conserved : length (Q.contents free) + length (Q.contents ready) + k ≡ n
  pub buffers : All IsBuffer (Q.contents free)
  pub batches : All IsPrepared (Q.contents ready)

empty_buffer-IsBuffer : IsBuffer empty_buffer
empty_buffer-IsBuffer = length-replicate max_capture_batch_frames (pos 0)

module _ (Q : ArrayQueue) where
  -- There is room for the buffers of `SharedCapture::new`, and it puts them all in.
  pub allocate_fits :
      (m : ℕ) (q : Q.Queue (List ℤ))
      → length (Q.contents q) + m ≤ Q.capacity q
      → All IsBuffer (Q.contents q)
      → (q' : Q.Queue (List ℤ)) × (allocate Q m q ≡ ok q')
        × (Q.capacity q' ≡ Q.capacity q)
        × (length (Q.contents q') ≡ length (Q.contents q) + m)
        × All IsBuffer (Q.contents q')
  unfolding allocate
  allocate_fits zero q h a = (q, refl, refl, omega arith, a)
  allocate_fits (suc m) q h a = elim (Q.push_cases q empty_buffer) [
    | inl (full, e) ↦ absurd (omega (arith, full, h))
    | inr (q', room, e, c, k) ↦
        let l : length (Q.contents q') ≡ length (Q.contents q) + 1 =
          rw c (length-append (Q.contents q) (empty_buffer ∷ [])) in
        let (r, re, rc, rl, ra) = allocate_fits m q' (omega (arith, l, k, h)) (
          rw c (
            All-append IsBuffer (Q.contents q) (empty_buffer ∷ []) a
              (empty_buffer-IsBuffer, tt))) in
        (r, rw (allocate, e) re, omega (arith, rc, k), omega (arith, rl, l), ra)
  ]

  pub give_back_fits :
      (n k : ℕ) (s : SharedCapture Q) (buffer : List ℤ)
      → Holds Q n (suc k) s.free s.ready
      → IsBuffer buffer
      → (q : Q.Queue (List ℤ)) × (Q.push s.free buffer ≡ ok q)
        × (give_back buffer s ≡ record s { free = q })
        × Holds Q n k q s.ready
  unfolding give_back
  give_back_fits n k s buffer v b = elim (Q.push_cases s.free buffer) [
    | inl (full, e) ↦ absurd (omega (arith, full, v.conserved, v.free_capacity))
    | inr (q, room, e, c, same) ↦ (
      q,
      e,
      rw (give_back, e) refl,
      record {
        free_capacity = omega (arith, same, v.free_capacity);
        ready_capacity = v.ready_capacity;
        conserved =
            rw c (omega (arith, length-append (Q.contents s.free) (buffer ∷ []), v.conserved));
        buffers = rw c (All-append IsBuffer (Q.contents s.free) (buffer ∷ []) v.buffers (b, tt));
        batches = v.batches;
      },
    )
  ]

  pub take_free :
      (n k : ℕ) (free free' : Q.Queue (List ℤ)) (ready : Q.Queue RawBatch) (buffer : List ℤ)
      → Holds Q n k free ready
      → Q.contents free ≡ buffer ∷ Q.contents free'
      → Q.capacity free' ≡ Q.capacity free
      → IsBuffer buffer × Holds Q n (suc k) free' ready
  take_free n k free free' ready buffer v c same =
      let b : All IsBuffer (buffer ∷ Q.contents free') = subst (All IsBuffer) c v.buffers in
      (
        b.0,
        record {
          free_capacity = omega (arith, same, v.free_capacity);
          ready_capacity = v.ready_capacity;
          conserved = omega (arith, v.conserved, ap length c);
          buffers = b.1;
          batches = v.batches;
        },
      )

  pub put_ready :
      (n k : ℕ) (free : Q.Queue (List ℤ)) (ready : Q.Queue RawBatch) (raw : RawBatch)
      → Holds Q n (suc k) free ready
      → IsPrepared raw
      → (q : Q.Queue RawBatch) × (Q.push ready raw ≡ ok q)
        × (Q.contents q ≡ Q.contents ready ++ raw ∷ [])
        × Holds Q n k free q
  put_ready n k free ready raw v p = elim (Q.push_cases ready raw) [
    | inl (full, e) ↦ absurd (omega (arith, full, v.conserved, v.ready_capacity))
    | inr (q, room, e, c, same) ↦ (
      q,
      e,
      c,
      record {
        free_capacity = v.free_capacity;
        ready_capacity = omega (arith, same, v.ready_capacity);
        conserved = rw c (omega (arith, length-append (Q.contents ready) (raw ∷ []), v.conserved));
        buffers = v.buffers;
        batches = rw c (All-append IsPrepared (Q.contents ready) (raw ∷ []) v.batches (p, tt));
      },
    )
  ]

  pub take_ready :
      (n k : ℕ) (free : Q.Queue (List ℤ)) (ready ready' : Q.Queue RawBatch) (raw : RawBatch)
      → Holds Q n k free ready
      → Q.contents ready ≡ raw ∷ Q.contents ready'
      → Q.capacity ready' ≡ Q.capacity ready
      → IsPrepared raw × Holds Q n (suc k) free ready'
  take_ready n k free ready ready' raw v c same =
      let b : All IsPrepared (raw ∷ Q.contents ready') = subst (All IsPrepared) c v.batches in
      (
        b.0,
        record {
          free_capacity = v.free_capacity;
          ready_capacity = omega (arith, same, v.ready_capacity);
          conserved = omega (arith, v.conserved, ap length c);
          buffers = v.buffers;
          batches = b.1;
        },
      )

  -- A fault changes the fault queue only, also when it is lost.
  pub emit_fault_only :
      (millis : ℕ) (kind : InputFaultKind) (s : SharedCapture Q)
      → (faults' : Q.Queue InputFault) × (emit_fault millis kind s ≡ record s { faults = faults' })
  unfolding emit_fault
  emit_fault_only millis kind s = elim (Q.push_cases s.faults (fault_of s millis kind)) [
    | inl (full, e) ↦ (s.faults, rw (emit_fault, e) refl)
    | inr (q, room, e, c, same) ↦ (q, rw (emit_fault, e) refl)
  ]

  -- A capacity in range is enough for `SharedCapture::new` to succeed.
  pub new_shared_fits :
      (configuration : InputConfiguration) (process stream n : ℕ)
      → within 2 max_capture_queue_batches n ≡ true
      → (free : Q.Queue (List ℤ)) × (new_shared Q configuration process stream n
          ≡ ok (initial Q configuration process stream n free))
        × Holds Q n 0 free (Q.new n)
  unfolding new_shared
  new_shared_fits configuration process stream n h =
      let c = Q.contents-new {A = List ℤ} n in
      let k = Q.capacity-new {A = List ℤ} n in
      let (q, e, same, l, a) = allocate_fits n (Q.new n) (rw (c, k) (omega arith)) (rw c tt) in
      (
        q,
        rw (new_shared, h, e) refl,
        record {
          free_capacity = omega (arith, same, k);
          ready_capacity = Q.capacity-new n;
          conserved = rw (Q.contents-new {A = RawBatch} n) (omega (arith, rw c at l));
          buffers = a;
          batches = rw (Q.contents-new {A = RawBatch} n) tt;
        },
      )
