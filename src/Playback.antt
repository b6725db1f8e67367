-- ===== src/Playback.antt =====
-- The playback queue of a call in src/hfp_mcp/audio/gemini_playback.py: what the model says waits here
-- in frames of 20 ms until the writer sends it to the phone. Time is in microseconds, a byte is its
-- value, and each method runs to its next `await`.
pub mod Writer
pub mod Steps
pub mod Stream
pub mod Bounds
pub mod Keeping
pub mod Delivery
pub mod Frames
pub mod Enqueue
pub mod Refinement
pub mod Progress
pub mod Epochs
pub mod Order
pub mod Drain
pub mod Heard
use hermes_phone_hfp.Prelude.{
  ℕ, zero, suc, ◌+◌, ◌-◌, ◌*◌, ◌/◌, Bool, true, false, not, ◌&&◌, ◌||◌, Option, none, some, List,
  [], ◌∷◌, ◌++◌, leb, ltb, ◌==◌, max, length, take, drop, if◌then◌else◌,
}
use hermes_phone_hfp.Prelude.Text.{Text, codes}
use hermes_phone_hfp.Prelude.Decimal.{decimal}
use hermes_phone_hfp.Prelude.Result.{Result, ok, err}

abbrev pub hfp_frame_bytes : ℕ
hfp_frame_bytes = 320

abbrev pub playback_queue_frames : ℕ
playback_queue_frames = 3000

abbrev pub playback_queue_item_capacity : ℕ
playback_queue_item_capacity = 9000

pub data Kind : Type 0 where
  playback_start playback_end audio : Kind

pub record Item : Type 0 where
  pub epoch : ℕ
  pub kind : Kind
  pub window_id : Option Text
  pub pcm : List ℕ

pub record PlaybackMetrics : Type 0 where
  pub dropped_frames : ℕ
  pub frames_enqueued : ℕ
  pub frames_sent : ℕ
  pub frames_interrupted : ℕ
  pub queue_peak_frames : ℕ
  pub overflow_events : ℕ
  pub prebuffer_events : ℕ
  pub prebuffer_frames : ℕ
  pub rebuffer_events : ℕ
  pub rebuffer_frames : ℕ
  pub late_frames : ℕ
  pub lateness_total : ℕ
  pub lateness_max : ℕ

-- `max_items` is the queue's `maxsize`, and `stopped` whether the stop event is set.
pub record Playback : Type 0 where
  pub queue : List Item
  pub max_items : ℕ
  pub frame_capacity : ℕ
  pub buffered_frames : ℕ
  pub partial : List ℕ
  pub epoch : ℕ
  pub window_sequence : ℕ
  pub session_generation : ℕ
  pub stopped : Bool
  pub metrics : PlaybackMetrics

pub data PlaybackError : Type 0 where
  buffer_overflow queue_full : PlaybackError

abbrev pub no_playback_metrics : PlaybackMetrics
no_playback_metrics = record {
  dropped_frames = 0;
  frames_enqueued = 0;
  frames_sent = 0;
  frames_interrupted = 0;
  queue_peak_frames = 0;
  overflow_events = 0;
  prebuffer_events = 0;
  prebuffer_frames = 0;
  rebuffer_events = 0;
  rebuffer_frames = 0;
  late_frames = 0;
  lateness_total = 0;
  lateness_max = 0;
}

abbrev pub new_playback : ℕ → ℕ → Playback
new_playback max_items frame_capacity = record {
  queue = [];
  max_items = max_items;
  frame_capacity = frame_capacity;
  buffered_frames = 0;
  partial = [];
  epoch = 0;
  window_sequence = 0;
  session_generation = 0;
  stopped = false;
  metrics = no_playback_metrics;
}

-- A call's answer and what it leaves, and what is done behind it.
abbrev pub Answer : Type 0 → Type 0
Answer A = Result PlaybackError A × Playback

abbrev pub and_then : {A : Type 0} → Answer (Unit {0}) → (Playback → Answer A) → Answer A
and_then (err e, p) next = (err e, p)
and_then (ok _, p) next = next p

abbrev pub is_full : Playback → Bool
is_full p = not (p.max_items == 0) && leb p.max_items (length p.queue)

unfoldable pub put_nowait : Item → Playback → Answer (Unit {0})
put_nowait item p =
    if is_full p then (err queue_full, p) else (ok tt, record p { queue = p.queue ++ item ∷ [] })

abbrev pub overflowed : ℕ → Playback → Playback
overflowed dropped p = record p {
  metrics = record p.metrics {
    dropped_frames = p.metrics.dropped_frames + dropped;
    overflow_events = suc p.metrics.overflow_events;
  };
}

-- `_enqueue_playback_control`
abbrev pub control_answer : Answer (Unit {0}) → Answer (Unit {0})
control_answer (ok _, p) = (ok tt, p)
control_answer (err _, p) = (err buffer_overflow, overflowed 0 p)

unfoldable pub enqueue_control : Kind → Text → Playback → Answer (Unit {0})
enqueue_control kind window_id p =
    control_answer
      (put_nowait (record { epoch = p.epoch; kind = kind; window_id = some window_id; pcm = [] }) p)

unfoldable pub begin_window : Playback → Answer Text
begin_window p =
    let window_id = decimal p.session_generation ++ codes "-" ++ decimal (suc p.window_sequence) in
    and_then
      (enqueue_control Kind.playback_start window_id
        (record p { window_sequence = suc p.window_sequence }))
      (λ q. (ok window_id, q))

unfoldable pub end_window : Option Text → Playback → Answer (Unit {0})
end_window none p = (ok tt, p)
end_window (some []) p = (ok tt, p)
end_window (some (c ∷ cs)) p = enqueue_control Kind.playback_end (c ∷ cs) p

abbrev pub audio_item : Option Text → List ℕ → Playback → Item
audio_item window_id pcm p = record {
  epoch = p.epoch;
  kind = Kind.audio;
  window_id = window_id;
  pcm = pcm;
}

-- So many frames of the combined bytes, one item for each.
unfoldable pub put_frames : ℕ → Option Text → List ℕ → Playback → Answer (Unit {0})
put_frames zero window_id combined p = (ok tt, p)
put_frames (suc n) window_id combined p =
    and_then (put_nowait (audio_item window_id (take hfp_frame_bytes combined) p) p)
      (put_frames n window_id (drop hfp_frame_bytes combined))

-- `frame_count <= available`, with the differences on the other side.
abbrev pub has_room : ℕ → Playback → Bool
has_room n p =
    leb (p.buffered_frames + n) p.frame_capacity
    && (p.max_items == 0 || leb (length p.queue + n) p.max_items)

abbrev pub enqueued : ℕ → List ℕ → Playback → Playback
enqueued n partial p =
    let buffered = p.buffered_frames + n in
    record p {
      partial = partial;
      buffered_frames = buffered;
      metrics = record p.metrics {
        frames_enqueued = p.metrics.frames_enqueued + n;
        queue_peak_frames = max p.metrics.queue_peak_frames buffered;
      };
    }

-- `_enqueue_playback_pcm`, behind the test of an empty input.
abbrev pub enqueue_combined : Option Text → ℕ → List ℕ → Playback → Answer (Unit {0})
enqueue_combined window_id size combined p =
    let n = length combined / hfp_frame_bytes in
    if has_room n p
    then and_then (put_frames n window_id combined p)
        (λ q. (ok tt, enqueued n (drop (n * hfp_frame_bytes) combined) q))
    else (err buffer_overflow, overflowed (max 1 ((size + 319) / hfp_frame_bytes)) p)

unfoldable pub enqueue_pcm : Option Text → List ℕ → Playback → Answer (Unit {0})
enqueue_pcm window_id [] p = (ok tt, p)
enqueue_pcm window_id (b ∷ pcm) p =
    enqueue_combined window_id (suc (length pcm)) (p.partial ++ b ∷ pcm) p

unfoldable pub zeros : ℕ → List ℕ
zeros zero = []
zeros (suc n) = 0 ∷ zeros n

-- `ljust(HFP_FRAME_BYTES, b"\x00")`
abbrev pub padded : List ℕ → List ℕ
padded frame = frame ++ zeros (hfp_frame_bytes - length frame)

-- `_flush_playback_partial`
abbrev pub flush_bytes : Option Text → Playback → List ℕ → Answer (Unit {0})
flush_bytes window_id p [] = (ok tt, p)
flush_bytes window_id p (b ∷ bs) =
    if leb p.frame_capacity p.buffered_frames || is_full p
    then (err buffer_overflow, overflowed 1 p)
    else and_then
        (put_nowait (audio_item window_id (padded (b ∷ bs)) p) (record p { partial = [] }))
        (λ q. (ok tt, enqueued 1 [] q))

unfoldable pub flush_partial : Option Text → Playback → Answer (Unit {0})
flush_partial window_id p = flush_bytes window_id p p.partial

-- `_clear_playback_queue` and `_playback_partial.clear()`
abbrev pub cleared : Playback → Playback
cleared p = record p { queue = []; buffered_frames = 0; partial = [] }

-- `_discard_playback`, before it asks the bridge to drop what it was sent.
unfoldable pub discard : Bool → Playback → Playback
discard interrupted p =
    let counted = if interrupted then p.buffered_frames else 0 in
    cleared (record p {
      epoch = suc p.epoch;
      metrics = record p.metrics { frames_interrupted = p.metrics.frames_interrupted + counted };
    })

-- The part of `_reset_media_queues` that is about playback.
unfoldable pub reset : Playback → Playback
reset p = cleared (record p { epoch = suc p.epoch })

-- `_dequeue_playback_item`, where there is an item.
abbrev pub unbuffered : Kind → ℕ → ℕ
unbuffered Kind.audio n = n - 1
unbuffered _ n = n

abbrev pub first_of : Playback → List Item → Option (Item × Playback)
first_of p [] = none
first_of p (item ∷ rest) =
    some (item, record p { queue = rest; buffered_frames = unbuffered item.kind p.buffered_frames })

unfoldable pub dequeue : Playback → Option (Item × Playback)
dequeue p = first_of p p.queue
