-- ===== src/Daemon/Examples.antt =====
-- Runs of the receive coordinator on concrete input.
use slotpilot.Prelude.{arith, ℕ, ◌≡◌, refl, none, some, List, [], ◌∷◌, ◌++◌, replicate}
use slotpilot.Prelude.Int.{◌+ℤ◌, ◌-ℤ◌, pos}
use slotpilot.Prelude.Results.{ok, err}
use slotpilot.Domain.Ids.{parse_id, receive_window_prefix, strip_prefix}
use slotpilot.Audio.Config.{signed16}
use slotpilot.Audio.Batch.{Ft8ReceiveWindow, InputHealth, new_generation}
use slotpilot.Audio.Spectrum.Config.{SpectrumConfig}
use slotpilot.Audio.Spectrum.Model.{fresh_model}
use slotpilot.ReceiveClock.{
  GenerationClockSample, ReceiveClockConfig, default_config, invalid_configuration, new_config,
  ReceiveWindowAlignment, window_ready,
}
use slotpilot.ReceiveClock.Monitor.{
  new_monitor, ReceiveClockMonitor, gate, gate_window, snapshot, snapshot_unchecked, refresh,
  next_sample_due, align_window,
}
use slotpilot.Storage.Record.{inserted, linux_alsa, new_record, validate_clock, validate_decodes}
use slotpilot.Daemon.Types.{
  CoordinatorConfig, LiveReceiveCoordinator, Ports, ReceiveCoordinatorError, ReceiveSelection,
  requested, starting, ReceivePollEvent, persisted,
}
use slotpilot.Daemon.Lifecycle.{
  new_coordinator, start, start_generation, transition, open_input, begin_receiving,
}
use slotpilot.Daemon.Identity.{digest_input, receive_window_id, to_be_bytes}
use slotpilot.Audio.Slot.{ReceiveTimelineEvent}
use slotpilot.Protocol.Pcm.{new_buffer, new_format}
use slotpilot.Daemon.Poll.{handle_gated, process_event}
use slotpilot.Daemon.Window.{
  context_of, decode_window, handle_window, pcm_of, persist, record_window, take_waterfall,
  push_chunks,
}
use slotpilot.Daemon.Serial.{
  Call, Follows, IsSerial, run, step, to_observe, to_poll, to_start, to_stop,
}
use slotpilot.Daemon.Order.{step-Follows}
use slotpilot.Daemon.Histories.{history-IsSerial, refused_monitor_stalls}
use slotpilot.Daemon.Persistence.{IsPersisted, window_published_sound}
use slotpilot.Daemon.Evidence.{chunk_rounds_suffice, receive_window_id_total}

abbrev zeros : List ℕ → List ℕ
zeros bytes = replicate 64 48

-- An input that opens and stays silent; nothing is decoded.
abbrev silent : Ports
silent = record {
  Input = Unit {0};
  Store = Unit {0};
  Message = Unit {0};
  DecodeConfig = Unit {0};
  DecodeError = Unit {0};
  StoreError = Unit {0};
  start_input = λ selection process stream i. (ok tt, i);
  next_batch = λ i. (ok none, i);
  next_fault = λ i. (none, i);
  health = λ i. (
    ok (record {
      latency_millis = 0;
      drift_parts_per_million = pos 0;
      overflow_count = 0;
      clipped_sample_count = 0;
      max_callback_delay_millis = 0;
    }),
    i,
  );
  stop_input = λ i. (ok tt, i);
  decode = λ pcm config. ok [];
  record_receive = λ entry s. (ok (inserted 1), s);
  sort_decodes = λ decodes. decodes;
  magnitude = λ samples bin. pos 0;
  sha256_hex = zeros;
}

abbrev selected : ReceiveSelection
selected = record {
  device_identity = record { platform = linux_alsa; opaque_id = 104 ∷ 119 ∷ [] };
  configuration = record {
    sample_rate_hz = 48000;
    channels = 1;
    sample_format = signed16;
    selected_channel = 0;
  };
}

abbrev configured : ReceiveClockConfig → CoordinatorConfig silent
configured policy = record {
  service_instance_id = 115 ∷ 118 ∷ [];
  process_generation = 7;
  selection = selected;
  decode = tt;
  clock = policy;
}

abbrev coordinator : ReceiveClockConfig → LiveReceiveCoordinator silent
coordinator policy = new_coordinator {P = silent} tt tt (configured policy)

abbrev sample_at : ℕ → GenerationClockSample
sample_at t = record { generation = 7; sample = record { utc = pos t; monotonic = t } }

-- A policy without a recovery sample, which the monitor refuses.
abbrev no_recovery : ReceiveClockConfig
no_recovery = record default_config { recovery_samples = 0 }

abbrev calls : List Call
calls =
    to_start (sample_at 1000)
    ∷ to_observe (sample_at 2000) 2000
    ∷ to_poll 2100 (pos 2100)
    ∷ to_stop requested
    ∷ to_start (sample_at 3000)
    ∷ []

history-IsSerial_example : IsSerial 7 (run calls (coordinator default_config))
history-IsSerial_example = history-IsSerial {P = silent} tt tt (configured default_config) calls

step-Follows_example :
    Follows 7
      (run calls (coordinator default_config))
      (step (to_stop requested) (run calls (coordinator default_config)))
step-Follows_example =
    step-Follows (to_stop requested) (run calls (coordinator default_config))
      (history-IsSerial {P = silent} tt tt (configured default_config) calls)

refused_monitor_stalls_example :
    ((start (sample_at 1000) (coordinator no_recovery)).0
      ≡ err (ReceiveCoordinatorError.clock invalid_configuration))
    × ((run calls (start (sample_at 1000) (coordinator no_recovery)).1).state ≡ starting 1)
unfolding new_coordinator new_monitor new_config
refused_monitor_stalls_example =
    refused_monitor_stalls (sample_at 1000) (coordinator no_recovery) invalid_configuration calls
      refl refl refl refl refl

receive_window_id_total_example :
    receive_window_id zeros (115 ∷ 118 ∷ []) selected 7 1 (pos 15000)
    ≡ ok (receive_window_prefix ++ zeros (digest_input (115 ∷ 118 ∷ []) selected 7 1 (pos 15000)))
receive_window_id_total_example =
    receive_window_id_total zeros (115 ∷ 118 ∷ []) selected 7 1 (pos 15000) (λ bytes. refl)
      (λ bytes. refl)

abbrev small_window : Ft8ReceiveWindow
small_window = record {
  process_generation = 7;
  stream_generation = 1;
  slot_start_utc_millis = pos 15000;
  mapping = record { position = 0; utc_unix_millis = pos 15000; monotonic_millis = 15000 };
  samples = pos 1 ∷ pos 2 ∷ pos 3 ∷ [];
}

abbrev policy : SpectrumConfig
policy = record {
  fft_size = 256;
  overlap_samples = 128;
  first_bin = 5;
  last_bin = 64;
  waterfall_rows = 10;
  publication_millis = 100;
  estimated_model_bytes = 65536;
}

chunk_rounds_suffice_example :
    push_chunks silent.magnitude small_window 4 0 (fresh_model policy)
    ≡ push_chunks silent.magnitude small_window 3 0 (fresh_model policy)
chunk_rounds_suffice_example =
    chunk_rounds_suffice silent.magnitude small_window 3 0 (fresh_model policy) (omega arith)

-- The coordinator that started at the start of the slot.
abbrev receiving_at_slot : LiveReceiveCoordinator silent
receiving_at_slot = (start (sample_at 15000) (coordinator default_config)).1

abbrev healthy_audio : InputHealth
healthy_audio = record {
  latency_millis = 0;
  drift_parts_per_million = pos 0;
  overflow_count = 0;
  clipped_sample_count = 0;
  max_callback_delay_millis = 0;
}

-- What the loop publishes for the window.
abbrev published_events : List ReceivePollEvent
published_events = persisted (receive_window_prefix ++ replicate 64 48) (inserted 1) 0 ∷ []

window_published_sound_example :
    (m : ReceiveClockMonitor) × (a : ReceiveWindowAlignment) × (receiving_at_slot.clock ≡ some m)
    × ((gate m (ReceiveTimelineEvent.window small_window) 16000).0 ≡ window_ready small_window a)
    × IsPersisted small_window a healthy_audio (pos 16000) receiving_at_slot published_events
unfolding new_coordinator start start_generation transition open_input begin_receiving
    new_generation new_monitor new_config process_event gate gate_window snapshot snapshot_unchecked
    refresh next_sample_due align_window ◌+ℤ◌ ◌-ℤ◌ handle_gated handle_window take_waterfall
    decode_window pcm_of new_format new_buffer record_window receive_window_id parse_id strip_prefix
    digest_input to_be_bytes context_of new_record validate_clock validate_decodes persist
window_published_sound_example =
    window_published_sound healthy_audio 16000 (pos 16000) small_window receiving_at_slot
      published_events refl
