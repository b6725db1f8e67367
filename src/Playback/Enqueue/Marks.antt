-- ===== src/Playback/Enqueue/Marks.antt =====
-- The last frame of a window and its marks in src/hfp_mcp/audio/gemini_playback.py.
use hermes_phone_hfp.Prelude.{
  ℕ, zero, suc, ◌+◌, ◌-◌, ◌≤◌, ◌<◌, false, ◌||◌, Option, none, some, List, [], ◌∷◌, ◌++◌, leb,
  length, length-append, ◌≡◌, refl, sym, arith, if_split,
}
use mathlib.Core.Path.{subst}
use hermes_phone_hfp.Prelude.Text.{Text, codes}
use hermes_phone_hfp.Prelude.Decimal.{decimal}
use hermes_phone_hfp.Prelude.Result.{ok, err}
use hermes_phone_hfp.Playback
use hermes_phone_hfp.Playback.{
  Kind, Item, Playback, PlaybackError, buffer_overflow, Answer, and_then, put_nowait, put_frames,
  enqueue_pcm, enqueue_combined, enqueue_control, begin_window, end_window, flush_partial,
  flush_bytes, zeros, padded, enqueued, overflowed, control_answer, has_room, is_full, audio_item,
}
use hermes_phone_hfp.Playback.Bounds.{
  weight, IsBounded, IsWhole, shape_of, put_items, put-IsBounded, audio_count,
}
use hermes_phone_hfp.Playback.Frames.{with_items, put_nowait-room}
use hermes_phone_hfp.Playback.Enqueue.{Extends, same-Extends}

pub length-zeros : (n : ℕ) → length (zeros n) ≡ n
unfolding zeros
length-zeros zero = refl
length-zeros (suc n) = omega (arith, length-zeros n)

-- One item is put in where the queue is not full.
pub put-Extends :
    (p : Playback) (item : Item) (n : ℕ) (partial : List ℕ)
    → IsBounded (shape_of p)
    → is_full p ≡ false
    → audio_count (item ∷ []) ≡ n
    → p.buffered_frames + n ≤ p.frame_capacity
    → length partial < 320
    → IsWhole item
    → item.epoch ≡ p.epoch
    → IsBounded (put_items (item ∷ []) n partial (shape_of p))
put-Extends p item n partial h open_ count room short whole current =
    put-IsBounded (shape_of p) (item ∷ []) n partial h count room (ground (arith, open_)) short
      (whole, tt) (current, tt)

pub length-padded : (bytes : List ℕ) → length bytes < 320 → length (padded bytes) ≡ 320
length-padded bytes short = omega (
  arith,
  length-append bytes (zeros (320 - length bytes)),
  length-zeros (320 - length bytes),
  short,
)

pub flushed-Extends :
    (window_id : Option Text) (bytes : List ℕ) (p : Playback)
    → IsBounded (shape_of p)
    → p.partial ≡ bytes
    → (leb p.frame_capacity p.buffered_frames || is_full p) ≡ false
    → Extends p (
        enqueued 1 []
          (with_items (audio_item window_id (padded bytes) p ∷ []) (record p { partial = [] })))
unfolding audio_count
flushed-Extends window_id bytes p h left room = record {
  items = audio_item window_id (padded bytes) p ∷ [];
  queue_more = refl;
  epoch_same = refl;
  stopped_same = refl;
  bounded =
      put-Extends p (audio_item window_id (padded bytes) p) 1 [] h (ground (arith, room))
        (omega arith) (ground (arith, room)) (omega arith)
        (ground (arith, length-padded bytes (subst (λ xs. length xs < 320) left h.short))) refl;
}

pub flush_partial-Extends :
    (window_id : Option Text) (p : Playback)
    → IsBounded (shape_of p)
    → Extends p (flush_partial window_id p).1
unfolding flush_partial
flush_partial-Extends window_id p h = by_bytes p.partial refl
  where
    by_bytes : (bytes : List ℕ) → p.partial ≡ bytes → Extends p (flush_bytes window_id p bytes).1
    by_bytes [] left = same-Extends p p refl refl h
    by_bytes (b ∷ bs) left =
        if_split {S = Answer (Unit {0})} (λ answer. Extends p answer.1)
          (leb p.frame_capacity p.buffered_frames || is_full p)
          (λ full. same-Extends p (overflowed 1 p) refl refl h)
          (λ room.
            subst
              (λ (answer : Answer (Unit {0})).
                Extends p (and_then answer (λ q. (ok tt, enqueued 1 [] q))).1)
              (sym (
                put_nowait-room 0 (audio_item window_id (padded (b ∷ bs)) p)
                  (record p { partial = [] }) (ground (arith, room))))
              (flushed-Extends window_id (b ∷ bs) p h left room))

abbrev pub control_item : Kind → Text → Playback → Item
control_item kind window_id p = record {
  epoch = p.epoch;
  kind = kind;
  window_id = some window_id;
  pcm = [];
}

abbrev pub IsControl : Kind → Type 0
IsControl kind = Playback.Writer.is_audio kind ≡ false

-- A mark in a queue that is not full.
pub marked-Extends :
    (kind : Kind) (window_id : Text) (p : Playback)
    → IsControl kind
    → IsBounded (shape_of p)
    → is_full p ≡ false
    → Extends p (with_items (control_item kind window_id p ∷ []) p)
unfolding audio_count
marked-Extends kind window_id p control h room = record {
  items = control_item kind window_id p ∷ [];
  queue_more = refl;
  epoch_same = refl;
  stopped_same = refl;
  bounded =
      subst
        (λ n. IsBounded (record (shape_of p) {
          queue = p.queue ++ control_item kind window_id p ∷ [];
          buffered_frames = n;
        }))
        add_nothing
        (put-Extends p (control_item kind window_id p) 0 p.partial h room (weightless kind control)
          (omega (arith, h.within)) h.short (rw control refl) refl);
}
  where
    add_nothing : p.buffered_frames + 0 ≡ p.buffered_frames
    add_nothing = omega arith

    weightless : (k : Kind) → IsControl k → weight k + 0 ≡ 0
    weightless Kind.playback_start e = omega arith
    weightless Kind.playback_end e = omega arith
    weightless Kind.audio e = absurd (ground (arith, e))

pub enqueue_control-Extends :
    (kind : Kind) (window_id : Text) (p : Playback)
    → IsControl kind
    → IsBounded (shape_of p)
    → Extends p (enqueue_control kind window_id p).1
unfolding enqueue_control put_nowait
enqueue_control-Extends kind window_id p control h =
    if_split {S = Answer (Unit {0})} (λ answer. Extends p (control_answer answer).1) (is_full p)
      (λ full. same-Extends p (overflowed 0 p) refl refl h)
      (λ room. marked-Extends kind window_id p control h room)

pub and_then-left :
    {A : Type 0} (a : A) (answer : Answer (Unit {0}))
    → (and_then answer (λ q. (ok a, q))).1 ≡ answer.1
and_then-left a (ok _, q) = refl
and_then-left a (err e, q) = refl

pub begin_window-Extends : (p : Playback) → IsBounded (shape_of p) → Extends p (begin_window p).1
unfolding begin_window
begin_window-Extends p h =
    let numbered = record p { window_sequence = suc p.window_sequence } in
    let id = decimal p.session_generation ++ codes "-" ++ decimal (suc p.window_sequence) in
    let put = enqueue_control-Extends Kind.playback_start id numbered refl h in
    subst (Extends p) (sym (and_then-left id (enqueue_control Kind.playback_start id numbered)))
      (record {
        items = put.items;
        queue_more = put.queue_more;
        epoch_same = put.epoch_same;
        stopped_same = put.stopped_same;
        bounded = put.bounded;
      })

pub end_window-Extends :
    (window_id : Option Text) (p : Playback)
    → IsBounded (shape_of p)
    → Extends p (end_window window_id p).1
unfolding end_window
end_window-Extends none p h = same-Extends p p refl refl h
end_window-Extends (some []) p h = same-Extends p p refl refl h
end_window-Extends (some (c ∷ cs)) p h = enqueue_control-Extends Kind.playback_end (c ∷ cs) p refl h
