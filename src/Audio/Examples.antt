-- ===== src/Audio/Examples.antt =====
-- crates/audio: the theorems at concrete batches.
use native.Mathlib.Decide.{ℕ_discrete}
use slotpilot.Prelude.{
  ap, inl, length, replicate, length-append, length-replicate, ◌++◌, ◌≡◌, ◌↔◌, ◌≤◌, ◌<◌, refl,
  arith, List, [], ◌∷◌, none, some,
}
use slotpilot.Prelude.Int.{ℤ, pos, negsuc, ◌+ℤ◌, ◌-ℤ◌, ◌*ℤ◌, ◌/ℤ◌, ◌%ℤ◌, div_euclid}
use slotpilot.Prelude.Words.{u64_max}
use slotpilot.Prelude.Results.{ok, err}
use slotpilot.Audio.Config.{
  InputConfiguration, InputConfiguration-discrete, InputConfigurationRange, InputSampleFormat,
  new_range, select, select_iff,
}
use slotpilot.Audio.Batch.{
  new_window, CaptureBatch, CaptureTimeEvidence, end_position, checked_advance, new_evidence,
}
use slotpilot.Audio.Sequence.{CaptureSequence, AllContinue, observe_all, observe_all_iff}
use slotpilot.Audio.Slot.{arithmetic_overflow, new_slot}
use slotpilot.Audio.Resampler.Accumulator.{new_accumulator}
use slotpilot.Audio.Resampler.Interpolate.{interpolate, IsNearest, interpolate-IsNearest}
use slotpilot.Audio.Resampler.State.{RationalResampler, new_resampler, mapping_for_tick}
use slotpilot.Audio.Resampler.Output.{
  complete_window, Output, open_slot, add_sample, push_output, slot_tick_of,
}
use slotpilot.Audio.Resampler.Emit.{target_source_tick, value_at, next_tick, emit, emit_up_to}
use slotpilot.Audio.Resampler.Push.{push_sample, push_samples, push_batch, output_fuel}
use slotpilot.Audio.Resampler.Termination.{output_fuel_suffices}
use slotpilot.Audio.Resampler.Windows.{Holds}
use slotpilot.Audio.Resampler.Completion.{IsCompleted, emit-IsCompleted}
use slotpilot.Audio.Resampler.Step.{IsStreamed}
use slotpilot.Audio.Resampler.Stream.{samples_of, push_batches, push_batches_published}
use slotpilot.Audio.Timeline.{
  Ft8ReceiveTimeline, new_timeline, validate_identity, validate_position, advance_expected,
}
use slotpilot.Audio.Timeline.Push.{push, refusal, open_resampler, resample, admit_at}
use slotpilot.Audio.Timeline.Admission.{IsAdmissible, IsAdvanced, push_admits}
use slotpilot.Audio.Timeline.Failure.{IsKept, admissible_failure_keeps}
use slotpilot.Audio.Timeline.Refusal.{IsDiscarded, is_late, push_refused}

abbrev configuration : InputConfiguration
configuration = record {
  sample_rate_hz = 48000;
  channels = 1;
  sample_format = InputSampleFormat.signed16;
  selected_channel = 0;
}

abbrev first_frame : CaptureTimeEvidence
first_frame = record { position = 100; utc_unix_millis = pos 0; monotonic_millis = 5000 }

abbrev batch : CaptureBatch
batch = record {
  process_generation = 1;
  stream_generation = 2;
  configuration = configuration;
  first_frame = first_frame;
  discontinuity = none;
  diagnostics = record { clipped_samples = 0; callback_delay_millis = 0 };
  samples = pos 7 ∷ negsuc 2 ∷ [];
}

abbrev resampler : RationalResampler
resampler = record {
  anchor = first_frame;
  source_rate_hz = 48000;
  process_generation = 1;
  stream_generation = 2;
  next_output_tick = pos 0;
  previous = none;
  active = none;
}

resampler-new : new_resampler first_frame 48000 1 2 ≡ ok resampler
unfolding new_resampler ◌*ℤ◌
resampler-new = refl

batch-pushed : (push_batches (batch ∷ []) resampler).0 ≡ ok []
unfolding push_batches push_batch push_samples push_sample emit_up_to emit next_tick push_output
    open_slot add_sample slot_tick_of mapping_for_tick new_accumulator new_slot new_evidence
    target_source_tick value_at interpolate ◌+ℤ◌ ◌-ℤ◌ ◌*ℤ◌ ◌/ℤ◌ ◌%ℤ◌ div_euclid
batch-pushed = refl

push_batches_published_example :
    (values : List ℤ) × IsStreamed
      (samples_of (batch ∷ []))
      0
      2
      first_frame
      48000
      values
      []
      (push_batches (batch ∷ []) resampler).1
push_batches_published_example =
    push_batches_published 0 first_frame 48000 1 2 resampler (batch ∷ []) [] refl (omega arith)
      resampler-new (refl, tt) batch-pushed

interpolate-IsNearest_example :
    (v : ℤ) × (interpolate (pos 7) (negsuc 2) (pos 6000) (pos 12000) ≡ ok v)
    × IsNearest (pos 7) (negsuc 2) 6000 12000 v
interpolate-IsNearest_example =
    interpolate-IsNearest (pos 7) (negsuc 2) 6000 12000 refl refl (omega arith) (omega arith)
      (omega arith)

abbrev output : Output
output = record { resampler = resampler; events = [] }

output_fuel_suffices_example :
    emit_up_to 9 4 (pos 7) (pos 48000) output
    ≡ emit_up_to (output_fuel 48000 48000) 4 (pos 7) (pos 48000) output
output_fuel_suffices_example =
    output_fuel_suffices 9 4 (pos 7) 48000 0 0 output (record { start = refl; next = refl })
      (omega arith) (omega arith)

abbrev timeline : Ft8ReceiveTimeline
timeline = new_timeline 1 2 configuration

timeline-pushed : (push batch 5500 timeline).0 ≡ ok []
unfolding push validate_identity validate_position refusal admit_at resample open_resampler
    new_resampler advance_expected end_position checked_advance push_batch push_samples push_sample
    emit_up_to emit next_tick push_output open_slot add_sample slot_tick_of mapping_for_tick
    new_accumulator new_slot new_evidence target_source_tick value_at interpolate ◌+ℤ◌ ◌-ℤ◌ ◌*ℤ◌
    ◌/ℤ◌ ◌%ℤ◌ div_euclid InputConfiguration-discrete ℕ_discrete
timeline-pushed = refl

push_admits_example :
    IsAdmissible timeline batch 5500 × IsAdvanced batch (push batch 5500 timeline).1
push_admits_example = push_admits batch 5500 timeline [] (omega arith) timeline-pushed

timeline-identity : validate_identity timeline batch ≡ ok tt
unfolding validate_identity InputConfiguration-discrete ℕ_discrete
timeline-identity = refl

push_refused_example : IsDiscarded (push batch 7001 timeline)
push_refused_example = push_refused batch 7001 timeline timeline-identity (is_late (omega arith))

abbrev range : InputConfigurationRange
range = record {
  min_rate = 8000;
  max_rate = 48000;
  channels = 2;
  sample_format = InputSampleFormat.float32;
}

range-new : new_range 8000 48000 2 InputSampleFormat.float32 ≡ ok range
unfolding new_range
range-new = refl

abbrev chosen : InputConfiguration
chosen = record {
  sample_rate_hz = 44100;
  channels = 2;
  sample_format = InputSampleFormat.float32;
  selected_channel = 1;
}

select_iff_example :
    (select range 44100 1 ≡ ok chosen)
    ↔ ((8000 ≤ 44100) × (44100 ≤ 48000) × (1 < 2) × (chosen ≡ chosen))
select_iff_example =
    select_iff 8000 48000 2 InputSampleFormat.float32 range 44100 1 chosen range-new

abbrev sequence : CaptureSequence
sequence = record {
  process_generation = 1;
  stream_generation = 2;
  next_position = 100;
  last_monotonic_millis = 4980;
}

observe_all_iff_example :
    ((s : CaptureSequence) × (observe_all sequence (batch ∷ []) ≡ ok s))
    ↔ AllContinue sequence (batch ∷ [])
observe_all_iff_example = observe_all_iff sequence (batch ∷ []) (omega arith, tt)

-- A batch whose second sample has no position.
abbrev last_frame : CaptureTimeEvidence
last_frame = record { position = u64_max; utc_unix_millis = pos 0; monotonic_millis = 5000 }

abbrev last_batch : CaptureBatch
last_batch = record batch { first_frame = last_frame }

last-failed : (push last_batch 5500 timeline).0 ≡ err arithmetic_overflow
unfolding push validate_identity validate_position refusal admit_at resample open_resampler
    new_resampler advance_expected end_position checked_advance push_batch push_samples push_sample
    emit_up_to emit next_tick push_output open_slot add_sample slot_tick_of mapping_for_tick
    new_accumulator new_slot new_evidence target_source_tick value_at interpolate ◌+ℤ◌ ◌-ℤ◌ ◌*ℤ◌
    ◌/ℤ◌ ◌%ℤ◌ div_euclid InputConfiguration-discrete ℕ_discrete
last-failed = refl

last-IsAdmissible : IsAdmissible timeline last_batch 5500
last-IsAdmissible = record {
  process = refl;
  stream = refl;
  configuration = refl;
  on_time = omega arith;
  contiguous = λ p e. cc;
  continuous = λ d e. cc;
}

admissible_failure_keeps_example : IsKept last_batch timeline (push last_batch 5500 timeline).1
admissible_failure_keeps_example =
    admissible_failure_keeps last_batch 5500 timeline arithmetic_overflow last-IsAdmissible refl
      last-failed

-- A slot that lacks its last output.
abbrev almost : List ℤ → Output
almost xs = record {
  resampler = record resampler {
    next_output_tick = pos 179999;
    active = some (record {
      slot_tick = pos 0;
      slot = pos 0;
      first_tick = pos 0;
      mapping = first_frame;
      samples = xs;
    });
  };
  events = [];
}

almost-Holds : (xs : List ℤ) → length xs ≡ 179999 → Holds 0 xs (almost xs)
almost-Holds xs h = record {
  at = record { start = refl; next = ap pos (omega (arith, h)) };
  active = record {
    millis = 0;
    first = 0;
    slot = refl;
    slot_tick = refl;
    first_tick = refl;
    aligned = refl;
    inside = omega arith;
    begins = inl refl;
    not_before = omega arith;
    reached = omega arith;
    not_beyond = omega (arith, h);
    partial = omega (arith, h);
    samples = refl;
  };
  events = tt;
}

almost-emit : (xs : List ℤ) → length xs ≡ 179999 → (emit (pos 1) (almost xs)).0 ≡ ok tt
unfolding emit push_output open_slot add_sample slot_tick_of next_tick complete_window new_window
    ◌+ℤ◌ ◌*ℤ◌ ◌%ℤ◌ div_euclid
almost-emit xs h =
    let e : length (xs ++ pos 1 ∷ []) ≡ 180000 = omega (arith, h, length-append xs (pos 1 ∷ [])) in
    rw (emit, push_output, add_sample, complete_window, new_window, e) refl

abbrev silence : List ℤ
silence = replicate 179999 (pos 0)

silence-length : length silence ≡ 179999
silence-length = length-replicate 179999 (pos 0)

emit-IsCompleted_example : IsCompleted 0 (emit (pos 1) (almost silence)).1
emit-IsCompleted_example =
    emit-IsCompleted 0 silence (pos 1) (almost silence) 0 (almost-Holds silence silence-length)
      (almost-emit silence silence-length) refl (omega arith) (omega (arith, silence-length))
