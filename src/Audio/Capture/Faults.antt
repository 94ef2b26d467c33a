-- ===== src/Audio/Capture/Faults.antt =====
-- crates/audio/src/capture.rs: how an error of the native backend reaches the worker.
use slotpilot.Prelude.{
  zero, suc, length, sym, subst, Bool, List, [], ◌∷◌, Option-cases, ℕ, ◌≡◌, refl, ap, ◌∙◌, inl, inr,
  true, false, Option, none, some, if-eq_true, if-eq_false, not, ◌&&◌, ◌==◌, arith,
}
use slotpilot.Prelude.Results.{Result, Result-cases, ok}
use slotpilot.Audio.Batch.{CaptureBatch, InputFault}
use slotpilot.Audio.Capture.Queues.{ArrayQueue}
use slotpilot.Audio.Capture.Worker.{
  SharedCapture, Failure, ErrorKind, discard, discard_ready, give_back, backend_fault, code_of_kind,
  fault_of, kind_of_code, next_batch, next_fault, stop_for_backend_error, stop_with_terminal_fault,
}

code-kind : (k : ErrorKind) → kind_of_code (code_of_kind (backend_fault k)) ≡ backend_fault k
code-kind k = ground arith

code-not_zero : (k : ErrorKind) → (code_of_kind (backend_fault k) == 0) ≡ false
code-not_zero k = ground arith

-- A request of the worker, and what it got.
pub data Request : Type 0 where
  for_batch for_fault : Request

pub data Reply : Type 0 where
  batch : Result Failure (Option CaptureBatch) → Reply
  fault : Option InputFault → Reply

-- The replies of a stopped stream on which these faults wait: no batches, and the faults in order.
abbrev pub expected : List Request → List InputFault → List Reply
expected [] waiting = []
expected (for_batch ∷ rs) waiting = batch (ok none) ∷ expected rs waiting
expected (for_fault ∷ rs) [] = fault none ∷ expected rs []
expected (for_fault ∷ rs) (f ∷ waiting) = fault (some f) ∷ expected rs waiting

module _ {Q : ArrayQueue} where
  unfoldable pub replies : List Request → SharedCapture Q → List Reply
  replies [] s = []
  replies (for_batch ∷ rs) s = batch (next_batch s).0 ∷ replies rs (next_batch s).1
  replies (for_fault ∷ rs) s = fault (next_fault s).0 ∷ replies rs (next_fault s).1

  -- Only the queues of samples differ.
  record SameFaults (s t : SharedCapture Q) : Type 0 where
    process : t.process_generation ≡ s.process_generation
    stream : t.stream_generation ≡ s.stream_generation
    stopped_too : t.stopped ≡ s.stopped
    code : t.terminal_fault ≡ s.terminal_fault
    time : t.terminal_fault_time ≡ s.terminal_fault_time
    reported : t.terminal_fault_reported ≡ s.terminal_fault_reported
    queue : t.faults ≡ s.faults

  discard-SameFaults : (fuel : ℕ) (s : SharedCapture Q) → SameFaults s (discard fuel s)
  unfolding discard give_back
  discard-SameFaults zero s = record {
    process = refl;
    stream = refl;
    stopped_too = refl;
    code = refl;
    time = refl;
    reported = refl;
    queue = refl;
  }
  discard-SameFaults (suc fuel) s = elim (Option-cases (Q.pop s.ready)) [
    | inl e ↦
        rw (discard, e)
          (record {
            process = refl;
            stream = refl;
            stopped_too = refl;
            code = refl;
            time = refl;
            reported = refl;
            queue = refl;
          })
    | inr ((raw, q), e) ↦
        let s1 : SharedCapture Q = record s { ready = q } in
        elim (Result-cases (Q.push s.free raw.samples)) [
          | inl (f, h) ↦
              let i = discard-SameFaults fuel (record s1 { free = f }) in
              rw (discard, e, give_back, h)
                (record {
                  process = i.process;
                  stream = i.stream;
                  stopped_too = i.stopped_too;
                  code = i.code;
                  time = i.time;
                  reported = i.reported;
                  queue = i.queue;
                })
          | inr (x, h) ↦
              let i = discard-SameFaults fuel s1 in
              rw (discard, e, give_back, h)
                (record {
                  process = i.process;
                  stream = i.stream;
                  stopped_too = i.stopped_too;
                  code = i.code;
                  time = i.time;
                  reported = i.reported;
                  queue = i.queue;
                })
        ]
  ]

  -- The terminal fault of a stopped stream waits, or was reported; these faults wait behind it.
  record IsHalted (waiting : List InputFault) (r : Bool) (s : SharedCapture Q) : Type 0 where
    halted : s.stopped ≡ true
    code : (s.terminal_fault == 0) ≡ false
    reported : s.terminal_fault_reported ≡ r
    queue : Q.contents s.faults ≡ waiting

  SameFaults-IsHalted :
      (waiting : List InputFault) (r : Bool) (s t : SharedCapture Q)
      → SameFaults s t
      → IsHalted waiting r s
      → IsHalted waiting r t
  SameFaults-IsHalted waiting r s t e h = record {
    halted = e.stopped_too ∙ h.halted;
    code = ap (λ n. n == 0) e.code ∙ h.code;
    reported = e.reported ∙ h.reported;
    queue = ap Q.contents e.queue ∙ h.queue;
  }

  next_batch_halted :
      (s : SharedCapture Q) → s.stopped ≡ true → next_batch s ≡ (ok none, discard_ready s)
  unfolding next_batch
  next_batch_halted s h = if-eq_true _ _ _ h

  next_fault_terminal :
      (s : SharedCapture Q) (waiting : List InputFault)
      → IsHalted waiting false s
      → next_fault s ≡ (
        some (fault_of s s.terminal_fault_time (kind_of_code s.terminal_fault)),
        record s { terminal_fault_reported = true },
      )
  unfolding next_fault
  next_fault_terminal s waiting h =
      let test : (not (s.terminal_fault == 0) && not s.terminal_fault_reported) ≡ true =
        rw (h.code, h.reported) refl in
      if-eq_true _ _ _ test

  next_fault_queued :
      (s : SharedCapture Q) (waiting : List InputFault)
      → IsHalted waiting true s
      → next_fault s ≡ (elim (Q.pop s.faults) [
        | none ↦ (none, s)
        | some (found, rest) ↦ (some found, record s { faults = rest })
      ])
  unfolding next_fault
  next_fault_queued s waiting h =
      let test : (not (s.terminal_fault == 0) && not s.terminal_fault_reported) ≡ false =
        rw (h.code, h.reported) refl in
      if-eq_false _ _ _ test

  discarded-IsHalted :
      (waiting : List InputFault) (r : Bool) (s : SharedCapture Q)
      → IsHalted waiting r s
      → IsHalted waiting r (discard_ready s)
  unfolding discard_ready
  discarded-IsHalted waiting r s h =
      SameFaults-IsHalted waiting r s _ (discard-SameFaults (length (Q.contents s.ready)) s) h

  replies_reported :
      (rs : List Request) (waiting : List InputFault) (s : SharedCapture Q)
      → IsHalted waiting true s
      → replies rs s ≡ expected rs waiting
  unfolding replies
  replies_reported [] waiting s h = refl
  replies_reported (for_batch ∷ rs) waiting s h = rw (next_batch_halted s h.halted) (
      ap (λ x. batch (ok none) ∷ x)
        (replies_reported rs waiting _ (discarded-IsHalted waiting true s h)))
  replies_reported (for_fault ∷ rs) waiting s h = elim (Q.pop_cases s.faults) [
    | inl (empty, f) ↦
        let none_left : waiting ≡ [] = sym h.queue ∙ empty in
        let same : next_fault s ≡ (none, s) = next_fault_queued s waiting h ∙ rw f refl in
        rw (same, none_left)
          (ap (λ x. fault none ∷ x)
            (replies_reported rs [] s (subst (λ w. IsHalted w true s) none_left h)))
    | inr (a, q, f, c, k) ↦
        let first : waiting ≡ a ∷ Q.contents q = sym h.queue ∙ c in
        let same : next_fault s ≡ (some a, record s { faults = q }) =
          next_fault_queued s waiting h ∙ rw f refl in
        rw (same, first)
          (ap (λ x. fault (some a) ∷ x)
            (replies_reported rs (Q.contents q) (record s { faults = q })
              (record { halted = h.halted; code = h.code; reported = h.reported; queue = refl })))
  ]

  replies_pending :
      (rs : List Request) (waiting : List InputFault) (f : InputFault) (s : SharedCapture Q)
      → IsHalted waiting false s
      → fault_of s s.terminal_fault_time (kind_of_code s.terminal_fault) ≡ f
      → replies rs s ≡ expected rs (f ∷ waiting)
  unfolding replies discard_ready
  replies_pending [] waiting f s h e = refl
  replies_pending (for_batch ∷ rs) waiting f s h e =
      let i = discard-SameFaults (length (Q.contents s.ready)) s in
      rw (next_batch_halted s h.halted) (
        ap (λ x. batch (ok none) ∷ x)
          (replies_pending rs waiting f _ (discarded-IsHalted waiting false s h)
            (rw (i.process, i.stream, i.time, i.code) e)))
  replies_pending (for_fault ∷ rs) waiting f s h e =
      rw (next_fault_terminal s waiting h, e)
        (ap (λ x. fault (some f) ∷ x)
          (replies_reported rs waiting (record s { terminal_fault_reported = true })
            (record { halted = h.halted; code = h.code; reported = refl; queue = h.queue })))

module _ {Q : ArrayQueue} (s : SharedCapture Q) (kind : ErrorKind) (millis : ℕ) where
  abbrev pub failed : SharedCapture Q
  failed = stop_for_backend_error kind millis s

  -- When no terminal fault was reported before, then after an error of the backend any sequence of
  -- requests of the worker gets no batch, also of those that were ready, and as faults first the
  -- error's own kind and time, then the faults that were queued, in their order, and then none.
  pub backend_error_reported :
      (rs : List Request)
      → s.terminal_fault_reported ≡ false
      → replies rs failed
        ≡ expected rs (fault_of s millis (backend_fault kind) ∷ Q.contents s.faults)
  unfolding stop_for_backend_error stop_with_terminal_fault
  backend_error_reported rs h =
      replies_pending rs (Q.contents s.faults) (fault_of s millis (backend_fault kind)) failed
        (record { halted = refl; code = code-not_zero kind; reported = h; queue = refl })
        (ap (λ k. fault_of s millis k) (code-kind kind))
