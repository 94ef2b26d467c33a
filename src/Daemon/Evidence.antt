-- ===== src/Daemon/Evidence.antt =====
-- apps/daemon/src/receive.rs: the identity of a window and its chunks for the spectrum.
use slotpilot.Prelude.{
  ℕ, zero, suc, ◌+◌, ◌-◌, ◌≤◌, ◌≡◌, arith, min, Bool, true, false, List, [], ◌∷◌, ◌++◌, length, ltb,
  refl, within, some, ◌&&◌, ◌||◌, inl, inr, Bool-cases,
}
use slotpilot.Prelude.Int.{ℤ}
use slotpilot.Prelude.Results.{Result-cases, ok}
use slotpilot.Domain.Ids.{all_portable, is_portable, parse_id, receive_window_prefix, strip_prefix}
use slotpilot.Audio.Batch.{Ft8ReceiveWindow}
use slotpilot.Audio.Spectrum.Config.{max_spectrum_chunk_samples}
use slotpilot.Audio.Spectrum.Model.{Magnitude, SpectrumModel}
use slotpilot.Audio.Spectrum.Push.{push}
use slotpilot.Daemon.Types.{ReceiveSelection}
use slotpilot.Daemon.Identity.{digest_input, receive_window_id}
use slotpilot.Daemon.Window.{chunk_at, push_chunks}

-- A byte of the hexadecimal text of a number, in small letters.
abbrev is_hex : ℕ → Bool
is_hex byte = within 48 57 byte || within 97 102 byte

abbrev pub all_hex : List ℕ → Bool
all_hex [] = true
all_hex (b ∷ bs) = is_hex b && all_hex bs

is_hex-portable : (b : ℕ) → is_hex b ≡ true → is_portable b ≡ true
is_hex-portable b h = ground arith

and_holds : (a b : Bool) → (a && b) ≡ true → (a ≡ true) × (b ≡ true)
and_holds true b h = (refl, h)
and_holds false b h = cc

all_hex-portable : (bs : List ℕ) → all_hex bs ≡ true → all_portable bs ≡ true
all_hex-portable [] h = refl
all_hex-portable (b ∷ bs) h =
    let both = and_holds (is_hex b) (all_hex bs) h in
    rw (is_hex-portable b both.0, all_hex-portable bs both.1) refl

strip_own_prefix :
    (payload : List ℕ)
    → strip_prefix receive_window_prefix (receive_window_prefix ++ payload) ≡ some payload
unfolding strip_prefix
strip_own_prefix payload = refl

-- When the text of every digest is 64 hexadecimal digits in small letters, the identity of a
-- window never fails: it is the prefix and the text of the digest.
pub receive_window_id_total :
    (sha256_hex : List ℕ → List ℕ) (service : List ℕ) (selection : ReceiveSelection)
    (process stream : ℕ) (slot : ℤ)
    → ((bytes : List ℕ) → length (sha256_hex bytes) ≡ 64)
    → ((bytes : List ℕ) → all_hex (sha256_hex bytes) ≡ true)
    → receive_window_id sha256_hex service selection process stream slot
      ≡ ok
          (receive_window_prefix ++ sha256_hex (digest_input service selection process stream slot))
unfolding receive_window_id parse_id
receive_window_id_total sha256_hex service selection process stream slot n h =
    let bytes = digest_input service selection process stream slot in
    rw
      (
        receive_window_id,
        parse_id,
        strip_own_prefix,
        n bytes,
        all_hex-portable (sha256_hex bytes) (h bytes),
      )
      refl

-- One more round for the loop that hands a window to the spectrum changes nothing, when the
-- rounds reach the end of the window: the loop ends by itself within one round for each sample.
pub chunk_rounds_suffice :
    (magnitude : Magnitude) (w : Ft8ReceiveWindow) (fuel offset : ℕ) (m : SpectrumModel)
    → length w.samples ≤ offset + fuel
    → push_chunks magnitude w (suc fuel) offset m ≡ push_chunks magnitude w fuel offset m
unfolding push_chunks
chunk_rounds_suffice magnitude w zero offset m n =
    let e : ltb offset (length w.samples) ≡ false = ground arith in rw (push_chunks, e) refl
chunk_rounds_suffice magnitude w (suc fuel) offset m n =
    elim (Bool-cases (ltb offset (length w.samples))) [
      | inr e ↦ rw (push_chunks, e) refl
      | inl e ↦ elim (Result-cases (chunk_at w offset)) [
        | inr (problem, f) ↦ rw (push_chunks, e, f) refl
        | inl (chunk, f) ↦ elim (Result-cases (push magnitude chunk m).0) [
          | inr (problem, g) ↦ rw (push_chunks, e, f, g) refl
          | inl (r, g) ↦
              let count = min (length w.samples - offset) max_spectrum_chunk_samples in
              let i : length w.samples ≤ offset + count + fuel = ground arith in
              rw (push_chunks, e, f, g)
                (chunk_rounds_suffice magnitude w fuel (offset + count) (push magnitude chunk m).1
                  i)
        ]
      ]
    ]
