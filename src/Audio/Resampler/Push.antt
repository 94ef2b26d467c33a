-- ===== src/Audio/Resampler/Push.antt =====
-- crates/audio/src/timeline.rs: `push`, `push_sample` and `discard_active` of `RationalResampler`.
use slotpilot.Prelude.{ℕ, suc, ◌/◌, Option, none, some, List, [], ◌∷◌, length, if◌then◌else◌, leb}
use slotpilot.Prelude.Int.{ℤ, pos, pos_part, ◌*ℤ◌}
use slotpilot.Prelude.Words.{checked_add, checked_sub, u32_max, u64_max}
use slotpilot.Prelude.Results.{Result, ok, err, Exec, also}
use slotpilot.Audio.Batch.{CaptureBatch, ft8_receive_sample_rate_hz}
use slotpilot.Audio.Slot.{
  ReceiveTimelineError, arithmetic_overflow, out_of_order, IncompleteFt8Slot, timeline_invalidated,
  ReceiveTimelineEvent,
}
use slotpilot.Audio.Resampler.Accumulator.{wide, is_empty}
use slotpilot.Audio.Resampler.State.{RationalResampler}
use slotpilot.Audio.Resampler.Output.{Output}
use slotpilot.Audio.Resampler.Emit.{emit_up_to}

-- `self.previous = Some((position_delta, sample))`, when the slot is still empty.
abbrev pub first_previous : Option (ℕ × ℤ) → ℕ → ℤ → Option (ℕ × ℤ)
first_previous none position_delta sample = some (position_delta, sample)
first_previous (some p) position_delta sample = some p

-- The outputs that one sample can complete: as many as fit between the anchor and the sample,
-- the anchor's own, and the one that ends the loop.
abbrev pub output_fuel : ℕ → ℕ → ℕ
output_fuel current rate = suc (suc (current / rate))

abbrev pub keep_previous : ℕ → ℤ → Exec Output ReceiveTimelineError (Unit {0})
keep_previous position_delta sample o = (
  ok tt,
  record o { resampler = record o.resampler { previous = some (position_delta, sample) } },
)

unfoldable pub push_sample : ℕ → ℤ → Exec Output ReceiveTimelineError (Unit {0})
push_sample position sample o =
    let r = o.resampler in
    elim (checked_sub position r.anchor.position) [
      | none ↦ (err out_of_order, o)
      | some delta ↦
          let o' : Output = record o {
            resampler = record r { previous = first_previous r.previous delta sample };
          } in
          elim (wide (pos delta *ℤ pos ft8_receive_sample_rate_hz)) [
            | err e ↦ (err e, o')
            | ok current ↦
                also
                  (emit_up_to (output_fuel (pos_part current) r.source_rate_hz) delta sample current
                    o')
                  (keep_previous delta sample)
          ]
    ]

-- The samples of a batch from the given index on.
unfoldable pub push_samples : ℕ → ℕ → List ℤ → Exec Output ReceiveTimelineError (Unit {0})
push_samples first index [] o = (ok tt, o)
push_samples first index (sample ∷ rest) o = elim (checked_add u64_max first index) [
  | none ↦ (err arithmetic_overflow, o)
  | some position ↦ also (push_sample position sample o) (push_samples first (suc index) rest)
]

-- The events of the samples, which are lost when one of the samples fails.
abbrev pub events_of :
    Result ReceiveTimelineError (Unit {0}) × Output
    → Result ReceiveTimelineError (List ReceiveTimelineEvent) × RationalResampler
events_of (ok _, o) = (ok o.events, o.resampler)
events_of (err e, o) = (err e, o.resampler)

unfoldable pub push_batch :
    CaptureBatch → Exec RationalResampler ReceiveTimelineError (List ReceiveTimelineEvent)
push_batch batch r = events_of (
    push_samples batch.first_frame.position 0 batch.samples (record { resampler = r; events = [] }))

-- `u32::try_from(len).unwrap_or(u32::MAX)`.
abbrev pub sample_count : ℕ → ℕ
sample_count n = if leb n u32_max then n else u32_max

unfoldable pub discard_active : RationalResampler → Option IncompleteFt8Slot × RationalResampler
discard_active r = elim r.active [
  | none ↦ (none, r)
  | some a ↦ (
    if is_empty a.samples
        then none
        else some (record {
          slot = a.slot;
          reason = timeline_invalidated;
          accumulated_samples = sample_count (length a.samples);
        }),
    record r { active = none },
  )
]
