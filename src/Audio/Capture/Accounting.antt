-- ===== src/Audio/Capture/Accounting.antt =====
-- crates/audio/src/capture.rs: the positions and discontinuities of queued batches account for each
-- frame that the callback was given.
use slotpilot.Prelude.{
  ℕ, ◌+◌, ◌≤◌, ◌<◌, ◌≡◌, ◌⊎◌, refl, subst, arith, Bool, true, false, Option, none, some, List, [],
  ◌∷◌, ◌++◌, ltb, if◌then◌else◌,
}
use slotpilot.Prelude.Words.{saturating_add, u64_max}
use slotpilot.Audio.Batch.{CaptureDiscontinuity, overflow, stream_restart}
use slotpilot.Audio.Capture.Worker.{RawBatch}

-- A run of captured frames: where it starts, how many there are, and how it is marked.
pub record Piece : Type 0 where
  pub position : ℕ
  pub frames : ℕ
  pub mark : Option CaptureDiscontinuity

abbrev pub piece_of_raw : RawBatch → Piece
piece_of_raw raw = record {
  position = raw.first_frame.position;
  frames = raw.frame_count;
  mark = raw.discontinuity;
}

-- The mark of a piece behind position e, at the opening of the stream or later: no mark without a
-- gap, an overflow that counts the lost frames exactly, or the restart that opens the stream.
abbrev pub Marks : Option CaptureDiscontinuity → ℕ → ℕ → Bool → Type 0
Marks none at e opening = (at ≡ e) × (opening ≡ false)
Marks (some d) at e opening =
    (d.at ≡ at)
    × (((d.kind ≡ overflow) × (0 < d.dropped_frames) × (at ≡ e + d.dropped_frames))
        ⊎ ((d.kind ≡ stream_restart) × (d.dropped_frames ≡ 0) × (at ≡ e) × (opening ≡ true)))

-- Each piece starts behind the one before it, up to the frames that its mark counts as lost.
abbrev pub Follows : ℕ → Bool → List Piece → Type 0
Follows e opening [] = Unit
Follows e opening (p ∷ ps) =
    Marks p.mark p.position e opening × Follows (p.position + p.frames) false ps

abbrev pub end_of : ℕ → List Piece → ℕ
end_of e [] = e
end_of e (p ∷ ps) = end_of (p.position + p.frames) ps

abbrev pub still_opening : Bool → List Piece → Bool
still_opening opening [] = opening
still_opening opening (p ∷ ps) = still_opening false ps

pub Follows-append :
    (e : ℕ) (o : Bool) (ps : List Piece) (p : Piece)
    → Follows e o ps
    → Marks p.mark p.position (end_of e ps) (still_opening o ps)
    → Follows e o (ps ++ p ∷ [])
Follows-append e o [] p f m = (m, tt)
Follows-append e o (q ∷ ps) p f m = (f.0, Follows-append (q.position + q.frames) false ps p f.1 m)

pub Follows-prefix :
    (e : ℕ) (o : Bool) (ps qs : List Piece) → Follows e o (ps ++ qs) → Follows e o ps
Follows-prefix e o [] qs f = tt
Follows-prefix e o (p ∷ ps) qs f = (f.0, Follows-prefix (p.position + p.frames) false ps qs f.1)

pub end_of-append :
    (e : ℕ) (ps : List Piece) (p : Piece) → end_of e (ps ++ p ∷ []) ≡ p.position + p.frames
end_of-append e [] p = refl
end_of-append e (q ∷ ps) p = end_of-append (q.position + q.frames) ps p

pub still_opening-append :
    (o : Bool) (ps : List Piece) (p : Piece) → still_opening o (ps ++ p ∷ []) ≡ false
still_opening-append o [] p = refl
still_opening-append o (q ∷ ps) p = still_opening-append false ps p

-- The pieces, the position of the callback, its pending count and whether no batch was queued yet.
pub record Balanced (ps : List Piece) (position pending : ℕ) (opening : Bool) : Type 0 where
  pub follows : Follows 0 true ps
  pub reached : position ≡ end_of 0 ps + pending
  pub opens : opening ≡ still_opening true ps

-- Dropped frames move the position and the pending count alike.
pub drop-Balanced :
    (ps : List Piece) (position pending frames : ℕ) (o : Bool)
    → position + frames ≤ u64_max
    → Balanced ps position pending o
    → Balanced ps (position + frames) (saturating_add u64_max pending frames) o
drop-Balanced ps position pending frames o fit b = record {
  follows = b.follows;
  reached = ground arith;
  opens = b.opens;
}

-- The mark of the next batch, as `process` sets it.
abbrev pub mark_of : ℕ → ℕ → Bool → Option CaptureDiscontinuity
mark_of position pending opening =
    if ltb 0 pending
    then some (record { at = position; kind = overflow; dropped_frames = pending })
    else if opening
    then some (record { at = position; kind = stream_restart; dropped_frames = 0 })
    else none

mark_of-Marks :
    (position pending e : ℕ) (o : Bool)
    → position ≡ e + pending
    → Marks (mark_of position pending o) position e o
mark_of-Marks position pending e o h = ground arith

-- A queued batch takes the pending count with it.
pub queue-Balanced :
    (ps : List Piece) (position pending frames : ℕ) (o : Bool)
    → Balanced ps position pending o
    → Balanced
        (ps
          ++ record { position = position; frames = frames; mark = mark_of position pending o }
            ∷ [])
        (position + frames)
        (if ltb 0 pending then 0 else pending)
        false
queue-Balanced ps position pending frames o b =
    let p : Piece = record {
      position = position;
      frames = frames;
      mark = mark_of position pending o;
    } in
    record {
      follows = Follows-append 0 true ps p b.follows (
          subst (Marks (mark_of position pending o) position (end_of 0 ps)) b.opens
            (mark_of-Marks position pending (end_of 0 ps) o b.reached));
      reached = rw (end_of-append 0 ps p) (ground arith);
      opens = rw (still_opening-append true ps p) refl;
    }
