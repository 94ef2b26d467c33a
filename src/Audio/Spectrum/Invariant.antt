-- ===== src/Audio/Spectrum/Invariant.antt =====
-- crates/audio/src/spectrum.rs: the invariant of `SpectrumModel`, and what preparing a chunk does
-- to it.
use slotpilot.Prelude.{
  ℕ, ◌+◌, ◌*◌, ◌≤◌, ◌<◌, ◌≡◌, ◌⊎◌, inl, inr, refl, sym, subst, arith, Option, none, some, length,
  Bool-cases, if_holds, if-eq_true, if-eq_false, if◌then◌else◌, ◌==◌, ◌&&◌,
}
use slotpilot.Prelude.Int.{ℤ, pos, ◌+ℤ◌, eqb_ℤ}
use slotpilot.Prelude.Words.{checked_add_i64, i64_max}
use slotpilot.Prelude.Results.{Result, ok}
use slotpilot.Audio.Batch.{ft8_receive_slot_millis}
use slotpilot.Audio.Spectrum.Limits.{IsChecked}
use slotpilot.Audio.Spectrum.Config.{SpectrumConfig, SpectrumModelError}
use slotpilot.Audio.Spectrum.Chunk.{
  CanonicalSpectrumChunk, SpectrumDiscontinuity, stream_generation_changed,
  process_generation_changed, timeline_discontinuity,
}
use slotpilot.Audio.Spectrum.Model.{
  ChunkCursor, fresh_model, SpectrumModel, announce, follow_cursor, next_in_time, prepare_chunk,
  reset,
}
use slotpilot.Audio.Spectrum.Rows.{Numbered}

-- A slot whose microseconds, up to its end, fit in an `i64`.
abbrev pub FitsMicros : ℤ → Type 0
FitsMicros slot = (k : ℕ) × (slot ≡ pos k) × (k * 1000 + 15000000 ≤ i64_max)

-- The samples that wait end where the cursor stands; without a cursor none wait.
abbrev pub Aligned : Option ChunkCursor → ℕ → ℕ → Type 0
Aligned none waiting start = waiting ≡ 0
Aligned (some c) waiting start = (start + waiting ≡ c.next_sample_offset) × FitsMicros c.slot

pub record Inv (m : SpectrumModel) : Type 0 where
  pub checked : IsChecked m.config
  pub short : length m.pending_samples < m.config.fft_size
  pub retained : length m.rows ≤ m.config.waterfall_rows
  pub numbered : Numbered m.rows m.next_sequence
  pub aligned : Aligned m.cursor (length m.pending_samples) m.pending_start_offset

-- A prepared model: what waits, if anything, ends where the chunk starts.
pub record IsReady (start : ℕ) (m m' : SpectrumModel) : Type 0 where
  pub config : m'.config ≡ m.config
  pub short : length m'.pending_samples < m.config.fft_size
  pub retained : length m'.rows ≤ m.config.waterfall_rows
  pub numbered : Numbered m'.rows m'.next_sequence
  pub sequence : m'.next_sequence ≡ m.next_sequence
  pub joined :
      (length m'.pending_samples ≡ 0)
      ⊎ (m'.pending_start_offset + length m'.pending_samples ≡ start)

reset-IsReady :
    (start : ℕ) (reason : SpectrumDiscontinuity) (m : SpectrumModel)
    → IsChecked m.config
    → IsReady start m (reset reason m)
unfolding reset
reset-IsReady start reason m c = record {
  config = refl;
  short = omega (arith, c.fft_low);
  retained = omega arith;
  numbered = tt;
  sequence = refl;
  joined = inl refl;
}

-- Preparing a chunk never fails: each slot is followed by another.
abbrev pub Prepares :
    ℕ → SpectrumModel → Result SpectrumModelError (Unit {0}) × SpectrumModel → Type 0
Prepares start m p = (p.0 ≡ ok tt) × IsReady start m p.1

next_in_time-Prepares :
    (cursor : ChunkCursor) (c : CanonicalSpectrumChunk) (m : SpectrumModel)
    → Inv m
    → FitsMicros cursor.slot
    → Prepares c.start_sample_offset m (next_in_time cursor c m)
unfolding next_in_time ◌+ℤ◌
next_in_time-Prepares cursor c m v (k, e, h) =
    let next : checked_add_i64 cursor.slot (pos ft8_receive_slot_millis) ≡ some (pos (k + 15000)) =
      rw e (ground arith) in
    rw (next_in_time, next)
      (if_holds (Prepares c.start_sample_offset m) _ _ _
        (
          refl,
          record {
            config = refl;
            short = omega (arith, v.checked.fft_low);
            retained = v.retained;
            numbered = v.numbered;
            sequence = refl;
            joined = inl refl;
          },
        )
        (refl, reset-IsReady c.start_sample_offset timeline_discontinuity m v.checked))

follow_cursor-Prepares :
    (o : Option ChunkCursor) (c : CanonicalSpectrumChunk) (m : SpectrumModel)
    → Inv m
    → Aligned o (length m.pending_samples) m.pending_start_offset
    → Prepares c.start_sample_offset m (follow_cursor o c m)
unfolding follow_cursor
follow_cursor-Prepares none c m v a = (
  refl,
  record {
    config = refl;
    short = v.short;
    retained = v.retained;
    numbered = v.numbered;
    sequence = refl;
    joined = inl a;
  },
)
follow_cursor-Prepares (some cursor) c m v a =
    let next = next_in_time-Prepares cursor c m v a.1 in
    let restart =
      λ (r : SpectrumDiscontinuity). reset-IsReady c.start_sample_offset r m v.checked in
    let again = eqb_ℤ cursor.slot c.slot && cursor.next_sample_offset == c.start_sample_offset in
    let same : Prepares c.start_sample_offset m
        (if again then (ok tt, m) else next_in_time cursor c m) =
      elim (Bool-cases again) [
        | inl h ↦ subst (Prepares c.start_sample_offset m) (sym (if-eq_true again _ _ h)) (
          refl,
          record {
            config = refl;
            short = v.short;
            retained = v.retained;
            numbered = v.numbered;
            sequence = refl;
            joined = inr (ground (arith, a.0, h));
          },
        )
        | inr h ↦ subst (Prepares c.start_sample_offset m) (sym (if-eq_false again _ _ h)) next
      ] in
    if_holds (Prepares c.start_sample_offset m) (cursor.process_generation == c.process_generation)
      _ _
      (if_holds (Prepares c.start_sample_offset m) (cursor.stream_generation == c.stream_generation)
        _ _ same (refl, restart stream_generation_changed))
      (refl, restart process_generation_changed)

announced :
    (o : Option SpectrumDiscontinuity) (c : CanonicalSpectrumChunk) (m : SpectrumModel)
    → Inv m
    → Prepares c.start_sample_offset m (follow_cursor (announce o m).cursor c (announce o m))
unfolding announce follow_cursor reset
announced none c m v = follow_cursor-Prepares m.cursor c m v v.aligned
announced (some reason) c m v = (refl, reset-IsReady c.start_sample_offset reason m v.checked)

pub prepare_chunk-Prepares :
    (c : CanonicalSpectrumChunk) (m : SpectrumModel)
    → Inv m
    → Prepares c.start_sample_offset m (prepare_chunk c m)
unfolding prepare_chunk
prepare_chunk-Prepares c m v = announced c.discontinuity c m v

-- The invariant holds of a new model with a checked policy, and after each reset.
pub fresh_model-Inv : (c : SpectrumConfig) → IsChecked c → Inv (fresh_model c)
fresh_model-Inv c v = record {
  checked = v;
  short = omega (arith, v.fft_low);
  retained = omega arith;
  numbered = tt;
  aligned = refl;
}

pub reset-Inv : (reason : SpectrumDiscontinuity) (m : SpectrumModel) → Inv m → Inv (reset reason m)
unfolding reset
reset-Inv reason m v = record {
  checked = v.checked;
  short = omega (arith, v.checked.fft_low);
  retained = omega arith;
  numbered = tt;
  aligned = refl;
}
