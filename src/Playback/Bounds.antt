-- ===== src/Playback/Bounds.antt =====
-- The bounds of the queue in src/hfp_mcp/audio/gemini_playback.py, and what an item that is put in or
-- taken out does to them.
use hermes_phone_hfp.Prelude.{
  ℕ, suc, ◌+◌, ◌≤◌, ◌<◌, true, not, ◌||◌, List, [], ◌∷◌, ◌++◌, leb, ◌==◌, length, length-append,
  All, All-append, ◌≡◌, refl, ◌∙◌, arith,
}
use hermes_phone_hfp.Playback.{Kind, Item, Playback, new_playback, unbuffered}
use hermes_phone_hfp.Playback.Writer.{is_audio}

-- A playback without its counters.
pub record Shape : Type 0 where
  pub queue : List Item
  pub max_items : ℕ
  pub frame_capacity : ℕ
  pub buffered_frames : ℕ
  pub partial : List ℕ
  pub epoch : ℕ

abbrev pub shape_of : Playback → Shape
shape_of p = record {
  queue = p.queue;
  max_items = p.max_items;
  frame_capacity = p.frame_capacity;
  buffered_frames = p.buffered_frames;
  partial = p.partial;
  epoch = p.epoch;
}

abbrev pub weight : Kind → ℕ
weight Kind.audio = 1
weight _ = 0

unfoldable pub audio_count : List Item → ℕ
audio_count [] = 0
audio_count (item ∷ items) = weight item.kind + audio_count items

-- An audio item is one frame.
abbrev pub IsWhole : Item → Type 0
IsWhole item = (not (is_audio item.kind) || length item.pcm == 320) ≡ true

-- The counter counts the frames in the queue, which are at most the capacity and of the epoch of now;
-- less than a frame is left over; and the queue is within its size, if it has one.
pub record IsBounded (s : Shape) : Type 0 where
  pub counted : audio_count s.queue ≡ s.buffered_frames
  pub within : s.buffered_frames ≤ s.frame_capacity
  pub sized : (s.max_items == 0 || leb (length s.queue) s.max_items) ≡ true
  pub short : length s.partial < 320
  pub whole : All IsWhole s.queue
  pub current : All (λ item. item.epoch ≡ s.epoch) s.queue

pub new-IsBounded :
    (max_items capacity : ℕ) → IsBounded (shape_of (new_playback max_items capacity))
unfolding audio_count
new-IsBounded max_items capacity = record {
  counted = refl;
  within = ground arith;
  sized = ground arith;
  short = ground arith;
  whole = tt;
  current = tt;
}

-- An empty queue of any epoch.
pub empty-IsBounded :
    (max_items capacity epoch : ℕ)
    → IsBounded (record {
      queue = [];
      max_items = max_items;
      frame_capacity = capacity;
      buffered_frames = 0;
      partial = [];
      epoch = epoch;
    })
unfolding audio_count
empty-IsBounded max_items capacity epoch = record {
  counted = refl;
  within = ground arith;
  sized = ground arith;
  short = ground arith;
  whole = tt;
  current = tt;
}

abbrev pub put_items : List Item → ℕ → List ℕ → Shape → Shape
put_items items n partial s = record s {
  queue = s.queue ++ items;
  buffered_frames = s.buffered_frames + n;
  partial = partial;
}

audio_count-append :
    (items more : List Item) → audio_count (items ++ more) ≡ audio_count items + audio_count more
unfolding audio_count
audio_count-append [] more = omega arith
audio_count-append (item ∷ items) more = omega (arith, audio_count-append items more)

-- Items are put in where there is room for them.
pub put-IsBounded :
    (s : Shape) (items : List Item) (n : ℕ) (partial : List ℕ)
    → IsBounded s
    → audio_count items ≡ n
    → s.buffered_frames + n ≤ s.frame_capacity
    → (s.max_items == 0 || leb (length s.queue + length items) s.max_items) ≡ true
    → length partial < 320
    → All IsWhole items
    → All (λ item. item.epoch ≡ s.epoch) items
    → IsBounded (put_items items n partial s)
put-IsBounded s items n partial h count room size short whole current = record {
  counted = audio_count-append s.queue items ∙ omega (arith, h.counted, count);
  within = room;
  sized = rw (length-append s.queue items) size;
  short = short;
  whole = All-append IsWhole s.queue items h.whole whole;
  current = All-append (λ item. item.epoch ≡ s.epoch) s.queue items h.current current;
}

unbuffered-count : (kind : Kind) (n rest : ℕ) → weight kind + rest ≡ n → rest ≡ unbuffered kind n
unbuffered-count Kind.audio n rest e = omega (arith, e)
unbuffered-count Kind.playback_start n rest e = omega (arith, e)
unbuffered-count Kind.playback_end n rest e = omega (arith, e)

-- The first item is taken out.
pub take-IsBounded :
    (s : Shape) (item : Item) (rest : List Item)
    → s.queue ≡ item ∷ rest
    → IsBounded s
    → IsBounded
        (record s { queue = rest; buffered_frames = unbuffered item.kind s.buffered_frames })
unfolding audio_count
take-IsBounded s item rest front h = record {
  counted = unbuffered-count item.kind s.buffered_frames (audio_count rest) (rw front at h.counted);
  within = within_less item.kind;
  sized = sized_less (rw front at h.sized);
  short = h.short;
  whole = (rw front at h.whole).1;
  current = (rw front at h.current).1;
}
  where
    within_less : (kind : Kind) → unbuffered kind s.buffered_frames ≤ s.frame_capacity
    within_less Kind.audio = omega (arith, h.within)
    within_less Kind.playback_start = h.within
    within_less Kind.playback_end = h.within

    sized_less :
        (s.max_items == 0 || leb (suc (length rest)) s.max_items) ≡ true
        → (s.max_items == 0 || leb (length rest) s.max_items) ≡ true
    sized_less size = ground (arith, size)
