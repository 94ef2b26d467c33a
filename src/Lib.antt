-- ===== src/Lib.antt =====
-- slotpilot: a verification library of the receive path of this repository.
--
-- The program receives weak-signal radio (FT8, WSPR) from an audio device and a clock, cuts the
-- audio into UTC slots and hands complete slots to a decoder. The parts modelled here:
-- - crates/domain/src/radio.rs is Domain.Radio: bands, frequencies, power, modes, UTC slots.
-- - crates/operations/src/time.rs is Time: slots and deadlines of a clock sample, the virtual clock,
-- and the monitor of clock drift. Time.Slots and Time.Monitor prove it.
-- - crates/operations/src/receive_clock.rs is ReceiveClock: ReceiveClock.Monitor has the state and
-- the methods `observe`, `snapshot`, `gate` of the monitor and `poll` of the driver; Compare, Gate,
-- Invariant, Recovery, Report and Generation prove what the gate lets through and how a clock
-- recovers. A window that the timeline publishes passes this gate before it is decoded.
-- - crates/audio/src/lib.rs is Audio.Config, Audio.Batch and Audio.Sequence: checked values and the
-- order of capture batches.
-- - crates/audio/src/timeline.rs is Audio.Slot, Audio.Resampler and Audio.Timeline: `push` checks a
-- batch and hands it to the rational resampler, which interpolates 12 kHz outputs and collects them
-- into slot windows. Accumulator, State, Output, Emit and Push are its code; Interpolate, Loop,
-- Termination, Windows, Opening, Slots, Publication, Completion, Values, Samples, Progress, Step and
-- Stream prove it. Timeline.Admission, Timeline.Refusal and Timeline.Failure are about `push`.
-- - crates/audio/src/capture.rs is Audio.Capture: Queues is the bounded queue of crossbeam, a
-- parameter with its laws; Worker has `SharedCapture` and what the worker calls, Fill, Callback and
-- Process the callback, Normalize and Unsigned the sample formats. Conservation, Copying, Accounting,
-- Ledger, Chunks, Delivery, Taking, History, Faults and Continuity prove it.
-- - crates/audio/src/spectrum.rs is Audio.Spectrum: Config, Chunk, Model and Push are its code, with
-- the magnitude of a bin (window, FFT and decibels) as a parameter; Limits, Rows, Bounds, Invariant
-- and Pushing prove its bounds.
-- - apps/daemon/src/receive.rs is Daemon: Lifecycle has the methods that start, observe and stop,
-- Poll and Window the worker poll and what becomes of a ready window, Identity the identity of a
-- window. It drives the timeline, the gate and the spectrum above, with the input, the decoder, the
-- store, SHA-256 and the order on decodes as parameters. Live, Going, Polling, Serial, Steps, Order
-- and Histories prove its lifecycle, Evidence and Persistence what becomes of a window. Domain.Ids,
-- Protocol.Pcm and Storage.Record are the parts of crates/domain, crates/protocol and crates/storage
-- that it uses.
--
-- A record stands for a struct, a data type for an enum, a native number with its bound written out
-- for an unsigned integer, and the integer type of Prelude.Int for a signed one. A method on
-- `&mut self` returns the object beside its result, also when it fails. An error of `?` is the
-- constructor `err` of Prelude.Results. The mutex of the virtual clock and the instant type of the
-- driver are left out: each call is one step. So is each call on a capture stream, whose atomics are
-- plain fields.
--
-- The loop of `RationalResampler::push_sample` runs on fuel: for a sample at source tick c it has
-- c / rate + 2 rounds, which is enough because every round moves the target on by the rate, and a
-- configuration admits rates from 8000 only. The loop of `CallbackState::process` has as many rounds
-- as there are frames, and each round takes at least one; `discard_ready` has as many rounds as there
-- are batches in the ready queue. The loop that hands a window to the spectrum has a round for each
-- sample, and a round takes at least one.
--
-- Not modelled: the system clock, devices (cpal), the FFT, the decoder (mfsk-core), SQL (rusqlite)
-- and sockets, which are not in this repository or are pure I/O; nor the floating-point sample
-- formats, the Hann window and the decibels of the spectrum, rig operations, callsigns and profiles,
-- the classification of messages, the API, the database, the request interface of the daemon and the
-- client.
pub mod Prelude
pub mod Domain
pub mod Time
pub mod Audio
pub mod ReceiveClock
pub mod Protocol
pub mod Storage
pub mod Daemon
