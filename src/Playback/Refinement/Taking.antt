-- ===== src/Playback/Refinement/Taking.antt =====
-- The writer of src/hfp_mcp/audio/gemini_playback.py takes an item from the queue.
use hermes_phone_hfp.Prelude.{
  ℕ, ◌≤◌, Bool, true, false, not, ◌||◌, none, some, List, [], ◌∷◌, ◌++◌, map, leb, ltb, ◌==◌,
  length, ◌≡◌, refl, ap, sym, ◌∙◌, arith, if_both, if_split, if◌then◌else◌,
}
use mathlib.Core.List.{append_assoc, append-nil}
use hermes_phone_hfp.Playback
use hermes_phone_hfp.Playback.{Kind, Item, Playback, dequeue, first_of}
use hermes_phone_hfp.Playback.Writer
use hermes_phone_hfp.Playback.Writer.{Waits, Writer, Message, control, bytes, Reason, join}
use hermes_phone_hfp.Playback.Bounds.{IsBounded, shape_of, take-IsBounded}
use hermes_phone_hfp.Playback.Stream.{
  Symbol, sample, symbols_of, live, live_batch, in_hand, lined, queued, heard_of, stream_of,
}
use hermes_phone_hfp.Playback.Delivery.{
  Fits, Keeps-eq, waits-Keeps, taken-Keeps, gathered-Keeps, map_sample-append, symbols_of-audio,
}
use hermes_phone_hfp.Playback.Refinement.{Resumes, quiet-Resumes}

-- The item that is taken from the queue was waiting behind what is in the hand.
abbrev pub dequeued : Playback → Item → List Item → Playback
dequeued p item rest = record p {
  queue = rest;
  buffered_frames = Playback.unbuffered item.kind p.buffered_frames;
}

pub live-current :
    (epoch : ℕ) (item : Item) → item.epoch ≡ epoch → live epoch item ≡ symbols_of item
live-current epoch item current = ground (arith, current)

pub front-waiting :
    (w : Writer) (item : Item) (rest : List Item) (held : List Symbol)
    → in_hand w.playback.epoch w.waits ≡ held
    → w.playback.queue ≡ item ∷ rest
    → item.epoch ≡ w.playback.epoch
    → (stream_of w).waiting
      ≡ lined w.playback.stopped (held ++ live w.playback.epoch item) (queued rest)
unfolding queued
front-waiting w item rest held hand front current =
    ap (λ xs. lined w.playback.stopped xs (queued w.playback.queue)) hand
    ∙ ap (λ xs. lined w.playback.stopped held (queued xs)) front
    ∙ ap (λ xs. if w.playback.stopped then [] else xs)
        (sym (append_assoc held (symbols_of item) (queued rest)))
    ∙ ap (λ xs. lined w.playback.stopped (held ++ xs) (queued rest))
        (sym (live-current w.playback.epoch item current))

pub idle-Resumes :
    (w : Writer) → IsBounded (shape_of w.playback) → Fits w.playback.epoch w.waits → Resumes w w
idle-Resumes w current fits = record {
  delivery = record {
    said = [];
    left = (stream_of w).waiting;
    split = refl;
    heard_more = sym (append-nil (heard_of w.sent));
    waiting_left = refl;
  };
  orderly = record { bounded = current; fits = fits };
}

pub received-Resumes :
    (now : ℕ) (w : Writer) (items : List Item)
    → w.playback.queue ≡ items
    → IsBounded (shape_of w.playback)
    → w.waits ≡ Waits.for_item
    → Resumes w (Writer.received now (first_of w.playback items) w)
received-Resumes now w [] none_left current at = idle-Resumes w current (rw at tt)
received-Resumes now w (item ∷ rest) front current at =
    quiet-Resumes w (record w { playback = dequeued w.playback item rest }) _
      (live w.playback.epoch item) refl
      (take-IsBounded (shape_of w.playback) item rest front current)
      (front-waiting w item rest [] (rw at refl) front (rw front at current.current).0)
      (taken-Keeps now item (record w { playback = dequeued w.playback item rest })
        (omega (arith, (rw front at current.current).0)))

pub join-append :
    (frames : List (List ℕ)) (pcm : List ℕ) → join (frames ++ pcm ∷ []) ≡ join frames ++ pcm
unfolding join
join-append [] pcm = append-nil pcm
join-append (frame ∷ frames) pcm =
    ap (λ xs. frame ++ xs) (join-append frames pcm) ∙ sym (append_assoc frame (join frames) pcm)

pub if-append :
    (test : Bool) (xs ys : List Symbol)
    → (if test then xs ++ ys else []) ≡ (if test then xs else []) ++ (if test then ys else [])
if-append true xs ys = refl
if-append false xs ys = refl

pub is_audio-eq : (kind : Kind) → Writer.is_audio kind ≡ true → kind ≡ Kind.audio
is_audio-eq Kind.audio e = refl
is_audio-eq Kind.playback_start e = absurd (ground (arith, e))
is_audio-eq Kind.playback_end e = absurd (ground (arith, e))

-- A frame joins a batch of the same epoch.
pub live_batch-append :
    (own epoch : ℕ) (frames : List (List ℕ)) (item : Item)
    → (item.epoch == own) ≡ true
    → item.kind ≡ Kind.audio
    → live_batch epoch own (frames ++ item.pcm ∷ [])
      ≡ live_batch epoch own frames ++ live epoch item
live_batch-append own epoch frames item same audio =
    ap (λ pcm. if own == epoch then map sample pcm else []) (join-append frames item.pcm)
    ∙ ap (λ xs. if own == epoch then xs else []) (map_sample-append (join frames) item.pcm)
    ∙ if-append (own == epoch) (map sample (join frames)) (map sample item.pcm)
    ∙ ap
        (λ own'. live_batch epoch own frames ++ (if own' == epoch then map sample item.pcm else []))
        own_epoch
    ∙ ap (λ xs. live_batch epoch own frames ++ (if item.epoch == epoch then xs else []))
        (sym (symbols_of-audio item audio))
  where
    own_epoch : own ≡ item.epoch
    own_epoch = ground (arith, same)

pub gather-Resumes :
    (now : ℕ) (w : Writer) (reason : Reason) (own deadline : ℕ) (frames : List (List ℕ))
    → w.waits ≡ Waits.for_batch reason own deadline frames
    → IsBounded (shape_of w.playback)
    → own ≤ w.playback.epoch
    → Resumes w (Writer.gathered now reason own frames none w)
gather-Resumes now w reason own deadline frames at current past =
    quiet-Resumes w w _ (live_batch w.playback.epoch own frames ++ []) refl current
      (ap (λ xs. lined w.playback.stopped xs (queued w.playback.queue))
        (rw at (sym (append-nil (live_batch w.playback.epoch own frames)))))
      (gathered-Keeps now reason own frames none w past tt)

pub collected-Resumes :
    (now : ℕ) (w : Writer) (reason : Reason) (own deadline : ℕ) (frames : List (List ℕ))
    (items : List Item)
    → w.playback.queue ≡ items
    → IsBounded (shape_of w.playback)
    → w.waits ≡ Waits.for_batch reason own deadline frames
    → own ≤ w.playback.epoch
    → Resumes w (Writer.collected now reason own deadline frames (first_of w.playback items) w)
collected-Resumes now w reason own deadline frames [] none_left current at past =
    idle-Resumes w current (rw at past)
collected-Resumes now w reason own deadline frames (item ∷ rest) front current at past =
    if_split (Resumes w) (not (item.epoch == own) || not (Writer.is_audio item.kind))
      (λ other.
        quiet-Resumes w (record w { playback = dequeued w.playback item rest }) _
          (live_batch w.playback.epoch own frames ++ live w.playback.epoch item) refl
          (take-IsBounded (shape_of w.playback) item rest front current)
          (front-waiting w item rest (live_batch w.playback.epoch own frames) (rw at refl) front
            (rw front at current.current).0)
          (gathered-Keeps now reason own frames (some item)
            (record w { playback = dequeued w.playback item rest }) past
            (omega (arith, (rw front at current.current).0))))
      (λ another.
        quiet-Resumes w (record w { playback = dequeued w.playback item rest }) _
          (live_batch w.playback.epoch own frames ++ live w.playback.epoch item) refl
          (take-IsBounded (shape_of w.playback) item rest front current)
          (front-waiting w item rest (live_batch w.playback.epoch own frames) (rw at refl) front
            (rw front at current.current).0)
          (Keeps-eq _ _ _ _
            (live_batch-append own w.playback.epoch frames item (ground (arith, another))
              (is_audio-eq item.kind (ground (arith, another))))
            (waits-Keeps (Waits.for_batch reason own deadline (frames ++ item.pcm ∷ []))
              (record w { playback = dequeued w.playback item rest }) past)))

pub collects-Resumes :
    (now : ℕ) (w : Writer) (reason : Reason) (own deadline : ℕ) (frames : List (List ℕ))
    → w.waits ≡ Waits.for_batch reason own deadline frames
    → IsBounded (shape_of w.playback)
    → own ≤ w.playback.epoch
    → Resumes w (Writer.collects now reason own deadline frames w)
unfolding dequeue
collects-Resumes now w reason own deadline frames at current past =
    if_both (Resumes w) (ltb (length frames) 8)
      (if_both (Resumes w) (Writer.is_stale own w || w.playback.stopped || leb deadline now)
        (gather-Resumes now w reason own deadline frames at current past)
        (collected-Resumes now w reason own deadline frames w.playback.queue refl current at past))
      (gather-Resumes now w reason own deadline frames at current past)
