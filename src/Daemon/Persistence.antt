-- ===== src/Daemon/Persistence.antt =====
-- apps/daemon/src/receive.rs: what a ready window must have passed to be reported as persisted.
use slotpilot.Prelude.{
  ℕ, ◌≡◌, refl, ap, ◌⊎◌, subst, none, some, Option, Option-cases, List, length, inl, inr,
}
use slotpilot.Prelude.Int.{ℤ}
use slotpilot.Prelude.Results.{Result, Result-cases, ok, err}
use slotpilot.Audio.Batch.{Ft8ReceiveWindow, InputHealth}
use slotpilot.Audio.Timeline.{Ft8ReceiveTimeline}
use slotpilot.Audio.Spectrum.Model.{SpectrumModel, WaterfallSnapshot, take_snapshot}
use slotpilot.ReceiveClock.{
  ReceiveClockFault, ReceiveClockState, ReceiveWindowAlignment, healthy, unhealthy, window_ready,
  window_rejected,
}
use slotpilot.ReceiveClock.Monitor.{ReceiveClockMonitor, align_window, gate, gate_window, snapshot}
use slotpilot.Audio.Slot.{ReceiveTimelineEvent}
use slotpilot.Protocol.Pcm.{Ft8Decode, PcmBuffer}
use slotpilot.Storage.Record.{ReceiveInsertOutcome, ReceiveRecord, new_record}
use slotpilot.Daemon.Types.{
  LiveReceiveCoordinator, Ports, ReceiveCoordinatorError, ReceivePollEvent,
}
use slotpilot.Daemon.Identity.{receive_window_id}
use slotpilot.Daemon.Window.{
  Flow, break_inhibited, context_of, decode_window, diagnostics_of, handle_window, last, next,
  pcm_of, persist, published, record_window, take_waterfall, push_chunks,
}
use slotpilot.Daemon.Poll.{handle_gated, process_event}

abbrev Outcome : Type 0
Outcome = Result ReceiveCoordinatorError Flow

next_es : {es fs : List ReceivePollEvent} → Path Outcome (ok (next es)) (ok (next fs)) → fs ≡ es
next_es h = cc

not_last :
    {A : Type 0} {es fs : List ReceivePollEvent} → Path Outcome (ok (last es)) (ok (next fs)) → A
not_last h = cc

not_err :
    {A : Type 0} {e : ReceiveCoordinatorError} {fs : List ReceivePollEvent}
    → Path Outcome (err e) (ok (next fs))
    → A
not_err h = cc

gate_window-cases :
    (state : ReceiveClockState) (m : ReceiveClockMonitor) (w : Ft8ReceiveWindow) (age : ℕ)
    → ((a : ReceiveWindowAlignment) × ((gate_window state m w age).0 ≡ window_ready w a))
      ⊎ ((slot : ℤ) × (f : ReceiveClockFault) × ((gate_window state m w age).0
            ≡ window_rejected slot f))
unfolding gate_window
gate_window-cases (unhealthy f p r) m w age = inr (w.slot_start_utc_millis, f, refl)
gate_window-cases healthy m w age =
    elim (Result-cases (align_window m w w.slot_start_utc_millis age)) [
      | inl (a, e) ↦ inl (a, rw (gate_window, e) refl)
      | inr (f, e) ↦ inr (w.slot_start_utc_millis, f, rw (gate_window, e) refl)
    ]

gate-cases :
    (m : ReceiveClockMonitor) (w : Ft8ReceiveWindow) (at : ℕ)
    → ((a : ReceiveWindowAlignment) × ((gate m (ReceiveTimelineEvent.window w) at).0
          ≡ window_ready w a))
      ⊎ ((slot : ℤ) × (f : ReceiveClockFault) × ((gate m (ReceiveTimelineEvent.window w) at).0
            ≡ window_rejected slot f))
unfolding gate
gate-cases m w at =
    let (snap, m') = snapshot m at in gate_window-cases snap.state m' w snap.mapping_age_millis

module _ {P : Ports} where
  -- The evidence behind the events es for the window w: the samples were decoded as one PCM
  -- buffer, the decodes and the diagnostics made a valid record under the identity of the window,
  -- and the store took that record.
  pub record IsPersisted (w : Ft8ReceiveWindow) (a : ReceiveWindowAlignment) (audio : InputHealth)
      (recorded : ℤ) (c : LiveReceiveCoordinator P) (es : List ReceivePollEvent) : Type 0 where
    pub pcm : PcmBuffer
    pub decodes : List (Ft8Decode P.Message)
    pub id : List ℕ
    pub timeline : Ft8ReceiveTimeline
    pub entry : ReceiveRecord P.Message
    pub outcome : ReceiveInsertOutcome
    pub snapshot : Option WaterfallSnapshot
    pub pcm_is : pcm_of w ≡ ok pcm
    pub decoded : P.decode pcm c.decode_config ≡ ok decodes
    pub identified :
        receive_window_id P.sha256_hex c.service_instance_id c.selection w.process_generation
          w.stream_generation w.slot_start_utc_millis
        ≡ ok id
    pub timeline_is : c.timeline ≡ some timeline
    pub valid :
        new_record P.sort_decodes
          (context_of c id w)
          (diagnostics_of audio timeline a)
          decodes
          recorded
        ≡ ok entry
    pub stored : (P.record_receive entry c.store).0 ≡ ok outcome
    pub events : es ≡ published id outcome (length entry.decodes) snapshot

  module _ (w : Ft8ReceiveWindow) (a : ReceiveWindowAlignment) (audio : InputHealth) (recorded : ℤ)
      (c : LiveReceiveCoordinator P) (es : List ReceivePollEvent) where
    decode_window-IsPersisted :
        (s : Option WaterfallSnapshot)
        → (decode_window w a audio recorded s c).0 ≡ ok (next es)
        → IsPersisted w a audio recorded c es
    unfolding decode_window record_window persist break_inhibited
    decode_window-IsPersisted s h = elim (Result-cases (pcm_of w)) [
      | inr (e, x) ↦ not_err (rw (decode_window, x) at h)
      | inl (pcm, x) ↦ elim (Result-cases (P.decode pcm c.decode_config)) [
        | inr (e, y) ↦ not_last (rw (decode_window, x, y) at h)
        | inl (decodes, y) ↦
            elim (Result-cases (
              receive_window_id P.sha256_hex c.service_instance_id c.selection w.process_generation
                w.stream_generation w.slot_start_utc_millis)) [
                  | inr (e, z) ↦ not_err (rw (decode_window, x, y, record_window, z) at h)
                  | inl (id, z) ↦ elim (Option-cases c.timeline) [
                    | inl t ↦ not_err (rw (decode_window, x, y, record_window, z, t) at h)
                    | inr (timeline, t) ↦
                        elim (Result-cases (
                          new_record P.sort_decodes (context_of c id w)
                            (diagnostics_of audio timeline a) decodes recorded)) [
                              | inr (e, u) ↦
                                  not_last (rw (decode_window, x, y, record_window, z, t, u) at h)
                              | inl (entry, u) ↦
                                  elim (Result-cases (P.record_receive entry c.store).0) [
                                    | inr (e, v) ↦ not_last (
                                        rw (decode_window, x, y, record_window, z, t, u, persist, v)
                                          at h)
                                    | inl (outcome, v) ↦ record {
                                      pcm = pcm;
                                      decodes = decodes;
                                      id = id;
                                      timeline = timeline;
                                      entry = entry;
                                      outcome = outcome;
                                      snapshot = s;
                                      pcm_is = x;
                                      decoded = y;
                                      identified = z;
                                      timeline_is = t;
                                      valid = u;
                                      stored = v;
                                      events = next_es (
                                          rw
                                            (
                                              decode_window, x, y, record_window, z, t, u, persist,
                                              v,
                                            )
                                            at h);
                                    }
                                  ]
                            ]
                  ]
                ]
      ]
    ]

  -- The clock and the spectrum have no part in the evidence.
  same_evidence :
      (w : Ft8ReceiveWindow) (a : ReceiveWindowAlignment) (audio : InputHealth) (recorded : ℤ)
      (c : LiveReceiveCoordinator P) (es : List ReceivePollEvent) (k : Option ReceiveClockMonitor)
      (z : Option SpectrumModel)
      → IsPersisted w a audio recorded (record c { clock = k; spectrum = z }) es
      → IsPersisted w a audio recorded c es
  unfolding context_of
  same_evidence w a audio recorded c es k z i = record {
    pcm = i.pcm;
    decodes = i.decodes;
    id = i.id;
    timeline = i.timeline;
    entry = i.entry;
    outcome = i.outcome;
    snapshot = i.snapshot;
    pcm_is = i.pcm_is;
    decoded = i.decoded;
    identified = i.identified;
    timeline_is = i.timeline_is;
    valid = i.valid;
    stored = i.stored;
    events = i.events;
  }

  take_waterfall-keeps :
      (w : Ft8ReceiveWindow) (c : LiveReceiveCoordinator P)
      → (z : Option SpectrumModel) × ((take_waterfall w c).1 ≡ record c { spectrum = z })
  unfolding take_waterfall
  take_waterfall-keeps w c = elim (Option-cases c.spectrum) [
    | inl e ↦
        let with_spectrum : Option SpectrumModel → LiveReceiveCoordinator P =
          λ z. record c { spectrum = z } in
        (none, rw (take_waterfall, e) (ap with_spectrum e))
    | inr (m, e) ↦
        let fed = push_chunks P.magnitude w (length w.samples) 0 m in
        elim (Result-cases fed.0) [
          | inr (problem, h) ↦ (some fed.1, rw (take_waterfall, e, h) refl)
          | inl (u, h) ↦ (some (take_snapshot fed.1).1, rw (take_waterfall, e, h) refl)
        ]
  ]

  handle_window-IsPersisted :
      (w : Ft8ReceiveWindow) (a : ReceiveWindowAlignment) (audio : InputHealth) (recorded : ℤ)
      (c : LiveReceiveCoordinator P) (es : List ReceivePollEvent) (k : Option ReceiveClockMonitor)
      → (handle_window w a audio recorded (record c { clock = k })).0 ≡ ok (next es)
      → IsPersisted w a audio recorded c es
  unfolding handle_window
  handle_window-IsPersisted w a audio recorded c es k h =
      let d : LiveReceiveCoordinator P = record c { clock = k } in
      let kept = take_waterfall-keeps w d in
      elim (Result-cases (take_waterfall w d).0) [
        | inr (e, x) ↦ not_err (rw (handle_window, x) at h)
        | inl (s, x) ↦ same_evidence w a audio recorded c es k kept.0 (
            decode_window-IsPersisted w a audio recorded (record d { spectrum = kept.0 }) es s
              (subst
                (λ (b : LiveReceiveCoordinator P).
                  (decode_window w a audio recorded s b).0 ≡ ok (next es))
                kept.1 (rw (handle_window, x) at h)))
      ]

  -- A window that the loop over the events passes on without inhibiting has gone the whole way:
  -- the gate at the current clock found it ready, its samples were decoded as one PCM buffer, the
  -- decodes and the diagnostics made a valid record under its identity, and the store took that
  -- record. What is published is that identity, the outcome of the store and the number of
  -- decodes, and perhaps a waterfall behind them.
  pub window_published_sound :
      (audio : InputHealth) (at : ℕ) (recorded : ℤ) (w : Ft8ReceiveWindow)
      (c : LiveReceiveCoordinator P) (es : List ReceivePollEvent)
      → (process_event audio at recorded (ReceiveTimelineEvent.window w) c).0 ≡ ok (next es)
      → (m : ReceiveClockMonitor) × (a : ReceiveWindowAlignment) × (c.clock ≡ some m)
        × ((gate m (ReceiveTimelineEvent.window w) at).0 ≡ window_ready w a)
        × IsPersisted w a audio recorded c es
  unfolding process_event handle_gated break_inhibited
  window_published_sound audio at recorded w c es h = elim (Option-cases c.clock) [
    | inl e ↦ not_err (rw (process_event, e) at h)
    | inr (m, e) ↦ elim (gate-cases m w at) [
      | inl (a, g) ↦ (
        m,
        a,
        e,
        g,
        handle_window-IsPersisted w a audio recorded c es
            (some (gate m (ReceiveTimelineEvent.window w) at).1) (rw (process_event, e, g) at h),
      )
      | inr (slot, f, g) ↦ not_last (rw (process_event, e, g) at h)
    ]
  ]
