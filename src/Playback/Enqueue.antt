-- ===== src/Playback/Enqueue.antt =====
-- The calls of src/hfp_mcp/audio/gemini_playback.py that put something into the queue, on all their
-- branches.
pub mod Marks
use hermes_phone_hfp.Prelude.{
  ℕ, zero, suc, ◌+◌, ◌-◌, ◌*◌, ◌/◌, ◌≤◌, ◌<◌, true, false, ◌||◌, Option, none, some, List, [], ◌∷◌,
  ◌++◌, max, leb, length, length-append, drop, All, ◌≡◌, refl, ap, sym, ◌∙◌, arith, if_split,
  Bool-cases, ◌⊎◌, inl, inr,
}
use mathlib.Core.Path.{subst}
use mathlib.Core.List.{append_assoc, append-nil}
use hermes_phone_hfp.Prelude.Text.{Text, codes}
use hermes_phone_hfp.Prelude.Decimal.{decimal}
use hermes_phone_hfp.Prelude.Result.{ok, err}
use hermes_phone_hfp.Playback
use hermes_phone_hfp.Playback.{
  Kind, Item, Playback, PlaybackError, buffer_overflow, Answer, and_then, put_nowait, put_frames,
  enqueue_pcm, enqueue_combined, enqueue_control, begin_window, end_window, flush_partial,
  flush_bytes, zeros, padded, enqueued, overflowed, control_answer, has_room, is_full, audio_item,
}
use hermes_phone_hfp.Playback.Bounds.{
  weight, IsBounded, IsWhole, shape_of, put_items, put-IsBounded, audio_count,
}
use hermes_phone_hfp.Playback.Frames.{
  IsFrame, frame_items-IsFrame, frame_items, with_items, put_frames-room, put_nowait-room,
  frame_items-IsWhole, frame_items-epoch, audio_count-frame_items, length-frame_items, length-drop,
  pcm_of, pcm_of-append, pcm_of-frame_items,
}

-- What a call does to the queue, and that it keeps the bounds.
pub record Extends (p p' : Playback) : Type 0 where
  pub items : List Item
  pub queue_more : p'.queue ≡ p.queue ++ items
  pub epoch_same : p'.epoch ≡ p.epoch
  pub stopped_same : p'.stopped ≡ p.stopped
  pub bounded : IsBounded (shape_of p')

-- A call that changes counters only.
pub same-Extends :
    (p p' : Playback)
    → p'.stopped ≡ p.stopped
    → shape_of p' ≡ shape_of p
    → IsBounded (shape_of p)
    → Extends p p'
same-Extends p p' stop shape h = record {
  items = [];
  queue_more = ap (λ s. s.queue) shape ∙ sym (append-nil p.queue);
  epoch_same = ap (λ s. s.epoch) shape;
  stopped_same = stop;
  bounded = subst IsBounded (sym shape) h;
}

-- What an accepted input leaves: whole frames in the queue and the rest behind them.
abbrev pub accepted : Option Text → List ℕ → Playback → Playback
accepted window_id combined p =
    let n = length combined / 320 in
    enqueued n (drop (n * 320) combined) (with_items (frame_items n window_id combined p.epoch) p)

accepted-Extends :
    (window_id : Option Text) (combined : List ℕ) (p : Playback)
    → has_room (length combined / 320) p ≡ true
    → IsBounded (shape_of p)
    → Extends p (accepted window_id combined p)
accepted-Extends window_id combined p room h =
    let n = length combined / 320 in
    record {
      items = frame_items n window_id combined p.epoch;
      queue_more = refl;
      epoch_same = refl;
      stopped_same = refl;
      bounded =
          put-IsBounded (shape_of p) (frame_items n window_id combined p.epoch) n
            (drop (n * 320) combined) h (audio_count-frame_items n window_id combined p.epoch)
            (ground (arith, room))
            (rw (length-frame_items n window_id combined p.epoch) (ground (arith, room)))
            (omega (arith, length-drop (n * 320) combined))
            (frame_items-IsWhole n window_id combined p.epoch (omega arith))
            (frame_items-epoch n window_id combined p.epoch);
    }

-- A call with bytes is accepted or refused as a whole, and never finds the queue full on the way.
data IsEnqueued (window_id : Option Text) (pcm : List ℕ) (p : Playback)
    : Answer (Unit {0}) → Type 0 where
  nothing : pcm ≡ [] → IsEnqueued window_id pcm p (ok tt, p)
  accepts :
      has_room (length (p.partial ++ pcm) / 320) p ≡ true
      → IsEnqueued window_id pcm p (ok tt, accepted window_id (p.partial ++ pcm) p)
  refused :
      (dropped : ℕ)
      → has_room (length (p.partial ++ pcm) / 320) p ≡ false
      → IsEnqueued window_id pcm p (err buffer_overflow, overflowed dropped p)

enqueue-cases :
    (window_id : Option Text) (pcm : List ℕ) (p : Playback)
    → IsEnqueued window_id pcm p (enqueue_pcm window_id pcm p)
unfolding enqueue_pcm
enqueue-cases window_id [] p = nothing refl
enqueue-cases window_id (b ∷ pcm) p =
    let combined = p.partial ++ b ∷ pcm in
    let n = length combined / 320 in
    if_split (IsEnqueued window_id (b ∷ pcm) p) (has_room n p)
      (λ room.
        subst (IsEnqueued window_id (b ∷ pcm) p)
          (ap (λ answer. and_then answer (λ q. (ok tt, enqueued n (drop (n * 320) combined) q)))
            (sym (put_frames-room n window_id combined p (ground (arith, room)))))
          (accepts room))
      (λ full. refused (max 1 ((suc (length pcm) + 319) / 320)) full)

pub enqueue_pcm-Extends :
    (window_id : Option Text) (pcm : List ℕ) (p : Playback)
    → IsBounded (shape_of p)
    → Extends p (enqueue_pcm window_id pcm p).1
enqueue_pcm-Extends window_id pcm p h = by_case (enqueue-cases window_id pcm p)
  where
    by_case : {answer : Answer (Unit {0})} → IsEnqueued window_id pcm p answer → Extends p answer.1
    by_case (nothing e) = same-Extends p p refl refl h
    by_case (accepts room) = accepted-Extends window_id (p.partial ++ pcm) p room h
    by_case (refused dropped full) = same-Extends p (overflowed dropped p) refl refl h

-- So many frames more are too many for the capacity, or for the size of the queue if it has one.
abbrev pub IsFull : ℕ → Playback → Type 0
IsFull n p =
    (p.frame_capacity < p.buffered_frames + n)
    ⊎ ((0 < p.max_items) × (p.max_items < length p.queue + n))

has_room-IsFull : (n : ℕ) (p : Playback) → has_room n p ≡ false → IsFull n p
has_room-IsFull n p full = elim (Bool-cases (leb (p.buffered_frames + n) p.frame_capacity)) [
  | inl within ↦ inr (ground (arith, full, within), ground (arith, full, within))
  | inr over ↦ inl (ground (arith, over))
]

-- What an answer leaves: an input that is taken adds whole frames of audio to the queue, with its
-- window and the epoch of now, and less than a frame behind them; a refused one, whose frames are too
-- many, adds nothing.
abbrev pub Conserves : Option Text → List ℕ → Playback → Answer (Unit {0}) → Type 0
Conserves window_id pcm p (ok _, q) =
    (items : List Item) × (q.queue ≡ p.queue ++ items)
    × All (IsFrame window_id p.epoch) items
    × (pcm_of items ++ q.partial ≡ p.partial ++ pcm)
    × (length q.partial < 320)
Conserves window_id pcm p (err e, q) =
    (e ≡ buffer_overflow)
    × IsFull (length (p.partial ++ pcm) / 320) p
    × (q.queue ≡ p.queue)
    × (q.partial ≡ p.partial)

-- No byte is lost, doubled or moved on the way into the queue, where less than a frame was left over
-- before. An input that is accepted stands behind what was left over, as whole frames of 320 bytes at
-- the end of the queue, each of its window and the epoch of now, and then less than a frame that is
-- left over; the frames that were queued stay. A refused input, whose frames would exceed the
-- capacity or the size of the queue, leaves both as they were.
pub enqueue_pcm-Conserves :
    (window_id : Option Text) (pcm : List ℕ) (p : Playback)
    → length p.partial < 320
    → Conserves window_id pcm p (enqueue_pcm window_id pcm p)
unfolding pcm_of
enqueue_pcm-Conserves window_id pcm p short = by_case (enqueue-cases window_id pcm p)
  where
    by_case :
        {answer : Answer (Unit {0})}
        → IsEnqueued window_id pcm p answer
        → Conserves window_id pcm p answer
    by_case (nothing e) = (
      [],
      sym (append-nil p.queue),
      tt,
      sym (ap (λ xs. p.partial ++ xs) e ∙ append-nil p.partial),
      short,
    )
    by_case (accepts room) =
        let combined = p.partial ++ pcm in
        let n = length combined / 320 in
        (
          frame_items n window_id combined p.epoch,
          refl,
          frame_items-IsFrame n window_id combined p.epoch (omega arith),
          pcm_of-frame_items n window_id combined p.epoch,
          omega (arith, length-drop (n * 320) combined),
        )
    by_case (refused dropped full) =
        (refl, has_room-IsFull (length (p.partial ++ pcm) / 320) p full, refl, refl)
