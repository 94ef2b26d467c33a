-- ===== src/Daemon/Going.antt =====
-- apps/daemon/src/receive.rs: `poll` and `observe_clock` receive on or inhibit.
use slotpilot.Prelude.{ℕ, arith, Option, List, Option-cases, inl, inr}
use slotpilot.Prelude.Int.{ℤ}
use slotpilot.Prelude.Results.{Result-cases}
use slotpilot.Audio.Batch.{Ft8ReceiveWindow, InputHealth}
use slotpilot.Audio.Spectrum.Model.{WaterfallSnapshot}
use slotpilot.ReceiveClock.{
  ClockGatedTimelineEvent, ReceiveWindowAlignment, still_incomplete, window_ready, window_rejected,
}
use slotpilot.Protocol.Pcm.{Ft8Decode}
use slotpilot.Storage.Record.{ReceiveRecord, new_record}
use slotpilot.Daemon.Types.{LiveReceiveCoordinator, Ports}
use slotpilot.Daemon.Identity.{receive_window_id}
use slotpilot.Daemon.Window.{
  break_inhibited, context_of, decode_window, diagnostics_of, handle_window, pcm_of, persist,
  record_window, take_waterfall,
}
use slotpilot.Daemon.Poll.{handle_gated}
use slotpilot.Daemon.Live.{Goes, IsLive, halted, inhibit-IsHalted, on}

module _ {P : Ports} {p g : ℕ} where
  take_waterfall-IsLive :
      (w : Ft8ReceiveWindow) (c : LiveReceiveCoordinator P)
      → IsLive p g c
      → IsLive p g (take_waterfall w c).1
  unfolding take_waterfall
  take_waterfall-IsLive w c l = ground arith

  persist-Goes :
      (id : List ℕ) (entry : ReceiveRecord P.Message) (s : Option WaterfallSnapshot)
      (c : LiveReceiveCoordinator P)
      → IsLive p g c
      → Goes p g (persist id entry s c).1
  unfolding persist break_inhibited
  persist-Goes id entry s c l = elim (Result-cases (P.record_receive entry c.store).0) [
    | inl (outcome, e) ↦ rw (persist, e) (on l)
    | inr (problem, e) ↦ rw (persist, e) (halted (inhibit-IsHalted _ _ l))
  ]

  record_window-Goes :
      (w : Ft8ReceiveWindow) (a : ReceiveWindowAlignment) (audio : InputHealth) (recorded : ℤ)
      (s : Option WaterfallSnapshot) (decodes : List (Ft8Decode P.Message))
      (c : LiveReceiveCoordinator P)
      → IsLive p g c
      → Goes p g (record_window w a audio recorded s decodes c).1
  unfolding record_window break_inhibited
  record_window-Goes w a audio recorded s decodes c l =
      elim (Result-cases (
        receive_window_id P.sha256_hex c.service_instance_id c.selection w.process_generation
          w.stream_generation w.slot_start_utc_millis)) [
            | inr (problem, e) ↦ rw (record_window, e) (on l)
            | inl (id, e) ↦ elim (Option-cases c.timeline) [
              | inl f ↦ rw (record_window, e, f) (on l)
              | inr (t, f) ↦
                  elim (Result-cases (
                    new_record P.sort_decodes (context_of c id w) (diagnostics_of audio t a) decodes
                      recorded)) [
                        | inr (problem, h) ↦
                            rw (record_window, e, f, h) (halted (inhibit-IsHalted _ _ l))
                        | inl (entry, h) ↦ rw (record_window, e, f, h) (persist-Goes id entry s c l)
                      ]
            ]
          ]

  decode_window-Goes :
      (w : Ft8ReceiveWindow) (a : ReceiveWindowAlignment) (audio : InputHealth) (recorded : ℤ)
      (s : Option WaterfallSnapshot) (c : LiveReceiveCoordinator P)
      → IsLive p g c
      → Goes p g (decode_window w a audio recorded s c).1
  unfolding decode_window break_inhibited
  decode_window-Goes w a audio recorded s c l = elim (Result-cases (pcm_of w)) [
    | inr (problem, e) ↦ rw (decode_window, e) (on l)
    | inl (pcm, e) ↦ elim (Result-cases (P.decode pcm c.decode_config)) [
      | inr (problem, f) ↦ rw (decode_window, e, f) (halted (inhibit-IsHalted _ _ l))
      | inl (decodes, f) ↦
          rw (decode_window, e, f) (record_window-Goes w a audio recorded s decodes c l)
    ]
  ]

  handle_window-Goes :
      (w : Ft8ReceiveWindow) (a : ReceiveWindowAlignment) (audio : InputHealth) (recorded : ℤ)
      (c : LiveReceiveCoordinator P)
      → IsLive p g c
      → Goes p g (handle_window w a audio recorded c).1
  unfolding handle_window
  handle_window-Goes w a audio recorded c l =
      let l' = take_waterfall-IsLive w c l in
      elim (Result-cases (take_waterfall w c).0) [
        | inr (problem, e) ↦ rw (handle_window, e) (on l')
        | inl (s, e) ↦ rw (handle_window, e) (decode_window-Goes w a audio recorded s _ l')
      ]

  pub handle_gated-Goes :
      (audio : InputHealth) (recorded : ℤ) (e : ClockGatedTimelineEvent)
      (c : LiveReceiveCoordinator P)
      → IsLive p g c
      → Goes p g (handle_gated audio recorded e c).1
  unfolding handle_gated break_inhibited
  handle_gated-Goes audio recorded (still_incomplete i) c l = on l
  handle_gated-Goes audio recorded (window_rejected slot fault) c l =
      halted (inhibit-IsHalted _ _ l)
  handle_gated-Goes audio recorded (window_ready w a) c l =
      handle_window-Goes w a audio recorded c l
