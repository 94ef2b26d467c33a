-- ===== src/Daemon/Steps.antt =====
-- apps/daemon/src/receive.rs: every call follows the lifecycle.
use slotpilot.Prelude.{
  ℕ, suc, ◌+◌, ◌≡◌, refl, ap, sym, subst, ◌∙◌, arith, true, false, Bool-cases, none, some, ◌⊎◌, inl,
  inr, leb, ◌==◌,
}
use slotpilot.Prelude.Words.{checked_add, u64_max}
use slotpilot.Prelude.Results.{Result-cases, ok}
use slotpilot.Audio.Batch.{new_generation}
use slotpilot.Audio.Spectrum.Chunk.{stream_generation_changed}
use slotpilot.ReceiveClock.{GenerationClockSample, ReceiveClockFault}
use slotpilot.ReceiveClock.Monitor.{new_monitor}
use slotpilot.Daemon.Types.{
  LiveReceiveCoordinator, Ports, ReceiveInhibition, ReceiveLifecycleEvent, ReceiveStopReason,
  inhibited, receiving, starting, stopped,
}
use slotpilot.Daemon.Lifecycle.{
  begin_receiving, is_stopped, open_input, release, start, start_generation, stop, stoppable,
  transition,
}
use slotpilot.Daemon.Live.{Goes, IsHalted, IsLive, halted, on}
use slotpilot.Daemon.Serial.{
  Follows, IsEmpty, IsSerial, going, idle, inhibiting, kept, refused, stalled, started, stopping,
  stuck,
}

new_generation-suc : (n : ℕ) → new_generation (suc n) ≡ ok (suc n)
unfolding new_generation
new_generation-suc n = ground arith

pub next-cases :
    (n : ℕ) → (checked_add u64_max n 1 ≡ none) ⊎ (checked_add u64_max n 1 ≡ some (suc n))
next-cases n = elim (Bool-cases (leb (n + 1) u64_max)) [
  | inl h ↦ inr (ground arith)
  | inr h ↦ inl (ground arith)
]

module _ {P : Ports} where
  -- The coordinator with its next generation reserved.
  abbrev pub reserved : LiveReceiveCoordinator P → LiveReceiveCoordinator P
  reserved c = record c {
    last_stream_generation = suc c.last_stream_generation;
    state = starting (suc c.last_stream_generation);
  }

  abbrev pub first_event : LiveReceiveCoordinator P → ReceiveLifecycleEvent
  first_event c = record { previous = c.state; current = starting (suc c.last_stream_generation) }

  start_overflow :
      (initial : GenerationClockSample) (c : LiveReceiveCoordinator P)
      → is_stopped c.state ≡ true
      → checked_add u64_max c.last_stream_generation 1 ≡ none
      → (start initial c).1 ≡ c
  unfolding start
  start_overflow initial c s h = rw (start, s, h) refl

  pub start_opens :
      (initial : GenerationClockSample) (c : LiveReceiveCoordinator P)
      → is_stopped c.state ≡ true
      → checked_add u64_max c.last_stream_generation 1 ≡ some (suc c.last_stream_generation)
      → (initial.generation == c.process_generation) ≡ true
      → start initial c
        ≡ open_input initial (first_event c) (suc c.last_stream_generation) (reserved c)
  unfolding start start_generation transition
  start_opens initial c s h k = rw (start, s, h, new_generation-suc, start_generation, k) refl

  start_refuses :
      (initial : GenerationClockSample) (c : LiveReceiveCoordinator P)
      → is_stopped c.state ≡ true
      → checked_add u64_max c.last_stream_generation 1 ≡ some (suc c.last_stream_generation)
      → (initial.generation == c.process_generation) ≡ false
      → (start initial c).1 ≡ record (reserved c) {
        state =
            inhibited
              (suc c.last_stream_generation)
              (ReceiveInhibition.clock ReceiveClockFault.process_generation_changed);
      }
  unfolding start start_generation transition
  start_refuses initial c s h k = rw (start, s, h, new_generation-suc, start_generation, k) refl

  -- The coordinator as `stop` leaves it.
  abbrev stopped_of : LiveReceiveCoordinator P → LiveReceiveCoordinator P
  stopped_of c = record (release stream_generation_changed c) {
    state = stopped c.process_generation c.last_stream_generation;
  }

  stop_stopped :
      (reason : ReceiveStopReason) (c : LiveReceiveCoordinator P) (g : ℕ)
      → stoppable c.state ≡ some g
      → (stop reason c).1 ≡ stopped_of c
  unfolding stop transition release
  stop_stopped reason c g s = rw (stop, s) refl

module _ {P : Ports} {p : ℕ} where
  pub stays : (c : LiveReceiveCoordinator P) → IsSerial p c → Follows p c c
  stays c s = record { serial = s; leads = kept refl refl }

  -- A coordinator that receives goes on in its generation or is inhibited in it.
  pub Goes-Follows :
      (c c' : LiveReceiveCoordinator P)
      → IsLive p c.last_stream_generation c
      → Goes p c.last_stream_generation c'
      → Follows p c c'
  Goes-Follows c c' l (on l') = record {
    serial = going (on (subst (λ (n : ℕ). IsLive p n c') (sym l'.last_same) l'));
    leads = kept l'.last_same (l'.state_is ∙ sym l.state_is);
  }
  Goes-Follows c c' l (halted h) = record {
    serial = going (halted (subst (λ (n : ℕ). IsHalted p n c') (sym h.last_same) h));
    leads = inhibiting h.reason h.last_same l.state_is h.state_is;
  }

  begin_receiving-Follows :
      (initial : GenerationClockSample) (first : ReceiveLifecycleEvent)
      (c d : LiveReceiveCoordinator P)
      → c.state ≡ stopped p c.last_stream_generation
      → d.last_stream_generation ≡ suc c.last_stream_generation
      → IsEmpty p (starting (suc c.last_stream_generation)) d
      → Follows p c (begin_receiving initial first (suc c.last_stream_generation) d).1
  unfolding begin_receiving transition
  begin_receiving-Follows initial first c d s n e =
      elim (Result-cases (new_monitor initial d.clock_config)) [
        | inr (problem, h) ↦
            rw (begin_receiving, h)
              (record { serial = stuck (rw n e); leads = stalled n s e.state_is })
        | inl (monitor, h) ↦
            rw (begin_receiving, h)
              (record {
                serial = going (
                    on (record {
                      process_same = e.process_same;
                      last_same = refl;
                      state_is = rw n refl;
                      has_timeline = refl;
                      has_clock = refl;
                      bounded = omega arith;
                    }));
                leads = started n s refl;
              })
      ]

  refusal-Follows :
      (r : ReceiveInhibition) (c d : LiveReceiveCoordinator P)
      → c.state ≡ stopped p c.last_stream_generation
      → d.last_stream_generation ≡ suc c.last_stream_generation
      → IsEmpty p (starting (suc c.last_stream_generation)) d
      → Follows p c (record d { state = inhibited (suc c.last_stream_generation) r })
  refusal-Follows r c d s n e = record {
    serial = going (
        halted (record {
          process_same = e.process_same;
          last_same = refl;
          reason = r;
          state_is = rw n refl;
          no_timeline = e.no_timeline;
          no_clock = e.no_clock;
          no_batches = e.no_batches;
        }));
    leads = refused r n s refl;
  }

  open_input-Follows :
      (initial : GenerationClockSample) (first : ReceiveLifecycleEvent)
      (c d : LiveReceiveCoordinator P)
      → c.state ≡ stopped p c.last_stream_generation
      → d.last_stream_generation ≡ suc c.last_stream_generation
      → IsEmpty p (starting (suc c.last_stream_generation)) d
      → Follows p c (open_input initial first (suc c.last_stream_generation) d).1
  unfolding open_input transition
  open_input-Follows initial first c d s n e =
      elim (Result-cases
        (P.start_input d.selection d.process_generation (suc c.last_stream_generation) d.input).0) [
          | inr (problem, h) ↦ rw (open_input, h) (refusal-Follows _ c _ s n e)
          | inl (u, h) ↦ rw (open_input, h) (begin_receiving-Follows initial first c _ s n e)
        ]

  pub start-Follows :
      (initial : GenerationClockSample) (c : LiveReceiveCoordinator P)
      → IsEmpty p (stopped p c.last_stream_generation) c
      → Follows p c (start initial c).1
  start-Follows initial c i =
      let e : IsEmpty p (starting (suc c.last_stream_generation)) (reserved c) = record {
        process_same = i.process_same;
        state_is = refl;
        no_timeline = i.no_timeline;
        no_clock = i.no_clock;
        no_batches = i.no_batches;
      } in
      let s = i.state_is in
      let z : is_stopped c.state ≡ true = ap is_stopped s in
      let F = λ (d : LiveReceiveCoordinator P). Follows p c d in
      elim (next-cases c.last_stream_generation) [
        | inl h ↦ subst F (sym (start_overflow initial c z h)) (stays c (idle i))
        | inr h ↦ elim (Bool-cases (initial.generation == c.process_generation)) [
          | inl k ↦
              subst F (sym (ap (λ r. r.1) (start_opens initial c z h k)))
                (open_input-Follows initial _ c (reserved c) s refl e)
          | inr k ↦
              subst F (sym (start_refuses initial c z h k))
                (refusal-Follows _ c (reserved c) s refl e)
        ]
      ]

  stopped_of-Follows :
      (c : LiveReceiveCoordinator P)
      → c.process_generation ≡ p
      → (c.state ≡ receiving c.last_stream_generation)
        ⊎ ((r : ReceiveInhibition) × (c.state ≡ inhibited c.last_stream_generation r))
      → Follows p c (stopped_of c)
  unfolding release
  stopped_of-Follows c q s = record {
    serial = idle (record {
      process_same = q;
      state_is = ap (λ n. stopped n c.last_stream_generation) q;
      no_timeline = refl;
      no_clock = refl;
      no_batches = refl;
    });
    leads = stopping refl s (ap (λ n. stopped n c.last_stream_generation) q);
  }

  pub stop-Follows :
      (reason : ReceiveStopReason) (c : LiveReceiveCoordinator P)
      → Goes p c.last_stream_generation c
      → Follows p c (stop reason c).1
  stop-Follows reason c (on l) =
      subst (λ (d : LiveReceiveCoordinator P). Follows p c d)
        (sym (stop_stopped reason c c.last_stream_generation (ap stoppable l.state_is)))
        (stopped_of-Follows c l.process_same (inl l.state_is))
  stop-Follows reason c (halted h) =
      subst (λ (d : LiveReceiveCoordinator P). Follows p c d)
        (sym (stop_stopped reason c c.last_stream_generation (ap stoppable h.state_is)))
        (stopped_of-Follows c h.process_same (inr (h.reason, h.state_is)))
