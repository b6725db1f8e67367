-- ===== src/Playback/Order.antt =====
-- Every execution of the playback in src/hfp_mcp/audio/gemini_playback.py against the stream that a
-- listener knows.
use hermes_phone_hfp.Prelude.{
  ℕ, suc, Bool, true, false, List, [], ◌∷◌, ◌++◌, map, ◌≡◌, refl, ap, sym, ◌∙◌, arith, if_both,
  if◌then◌else◌,
}
use mathlib.Core.Path.{subst}
use mathlib.Core.List.{append_assoc, append-nil}
use hermes_phone_hfp.Playback
use hermes_phone_hfp.Playback.{Item, Playback, new_playback}
use hermes_phone_hfp.Playback.Writer.{Writer, new_writer}
use hermes_phone_hfp.Playback.Bounds.{IsBounded, shape_of, new-IsBounded, empty-IsBounded}
use hermes_phone_hfp.Playback.Stream.{
  Symbol, Stream, symbols_of, in_hand, lined, queued, heard_of, stream_of,
}
use hermes_phone_hfp.Playback.Delivery.{Fits}
use hermes_phone_hfp.Playback.Enqueue.{Extends, enqueue_pcm-Extends}
use hermes_phone_hfp.Playback.Enqueue.Marks.{
  flush_partial-Extends, begin_window-Extends, end_window-Extends,
}
use hermes_phone_hfp.Playback.Refinement.{IsDelivery, IsOrderly}
use hermes_phone_hfp.Playback.Refinement.Resume.{resume-Resumes}
use hermes_phone_hfp.Playback.Steps.{Op, apply, run, with_playback}
use hermes_phone_hfp.Playback.Epochs.{in_hand-next, Fits-next}

-- Something joins the end of what is waiting.
pub record IsQueued (s s' : Stream) : Type 0 where
  pub more : List Symbol
  pub heard_same : s'.heard ≡ s.heard
  pub waiting_more : s'.waiting ≡ s.waiting ++ more

-- What is waiting is given up.
pub record IsHushed (s s' : Stream) : Type 0 where
  pub heard_same : s'.heard ≡ s.heard
  pub none_waiting : s'.waiting ≡ []

-- What each step may do to the stream.
abbrev pub IsFollowed : Op → Stream → Stream → Type 0
IsFollowed (Op.enqueue_pcm _ _) s s' = IsQueued s s'
IsFollowed (Op.flush_partial _) s s' = IsQueued s s'
IsFollowed Op.begin_window s s' = IsQueued s s'
IsFollowed (Op.end_window _) s s' = IsQueued s s'
IsFollowed (Op.discard _) s s' = IsHushed s s'
IsFollowed Op.reset s s' = IsHushed s s'
IsFollowed Op.stop s s' = IsHushed s s'
IsFollowed (Op.resumes _) s s' = IsDelivery s s'

pub data Trace : List Op → Stream → Stream → Type 0 where
  done : (s : Stream) → Trace [] s s
  step :
      (op : Op) (ops : List Op) (s s' s'' : Stream)
      → IsFollowed op s s'
      → Trace ops s' s''
      → Trace (op ∷ ops) s s''

queued-append : (items more : List Item) → queued (items ++ more) ≡ queued items ++ queued more
unfolding queued
queued-append [] more = refl
queued-append (item ∷ items) more =
    ap (λ xs. symbols_of item ++ xs) (queued-append items more)
    ∙ sym (append_assoc (symbols_of item) (queued items) (queued more))

lined-append :
    (stop : Bool) (held rest more : List Symbol)
    → lined stop held (rest ++ more) ≡ lined stop held rest ++ (if stop then [] else more)
lined-append true held rest more = refl
lined-append false held rest more = sym (append_assoc held rest more)

pub record Steps (P : Stream → Stream → Type 0) (w v : Writer) : Type 0 where
  pub followed : P (stream_of w) (stream_of v)
  pub orderly : IsOrderly v

Extends-Steps :
    (w : Writer) (p : Playback)
    → IsOrderly w
    → Extends w.playback p
    → Steps IsQueued w (with_playback p w)
Extends-Steps w p orderly more = record {
  followed = record {
    more = if w.playback.stopped then [] else queued more.items;
    heard_same = refl;
    waiting_more =
        ap (λ b. lined b (in_hand p.epoch w.waits) (queued p.queue)) more.stopped_same
        ∙ ap (λ e. lined w.playback.stopped (in_hand e w.waits) (queued p.queue)) more.epoch_same
        ∙ ap (lined w.playback.stopped (in_hand w.playback.epoch w.waits))
            (ap queued more.queue_more ∙ queued-append w.playback.queue more.items)
        ∙ lined-append w.playback.stopped (in_hand w.playback.epoch w.waits)
            (queued w.playback.queue) (queued more.items);
  };
  orderly = record {
    bounded = more.bounded;
    fits = subst (λ e. Fits e w.waits) (sym more.epoch_same) orderly.fits;
  };
}

IsHushed-Steps :
    (w : Writer) (p : Playback)
    → IsOrderly w
    → p.epoch ≡ suc w.playback.epoch
    → p.queue ≡ []
    → IsBounded (shape_of p)
    → Steps IsHushed w (with_playback p w)
unfolding queued
IsHushed-Steps w p orderly next empty bounded = record {
  followed = record {
    heard_same = refl;
    none_waiting =
        ap (λ e. lined p.stopped (in_hand e w.waits) (queued p.queue)) next
        ∙ ap (λ items. lined p.stopped (in_hand (suc w.playback.epoch) w.waits) (queued items))
            empty
        ∙ ap (λ xs. lined p.stopped xs []) (in_hand-next w.playback.epoch w.waits orderly.fits)
        ∙ if_both (λ xs. xs ≡ []) p.stopped refl refl;
  };
  orderly = record {
    bounded = bounded;
    fits = subst (λ e. Fits e w.waits) (sym next) (Fits-next w.playback.epoch w.waits orderly.fits);
  };
}

pub apply-Steps : (op : Op) (w : Writer) → IsOrderly w → Steps (IsFollowed op) w (apply op w)
unfolding apply Playback.discard Playback.reset
apply-Steps (Op.enqueue_pcm window_id pcm) w h =
    Extends-Steps w _ h (enqueue_pcm-Extends window_id pcm w.playback h.bounded)
apply-Steps (Op.flush_partial window_id) w h =
    Extends-Steps w _ h (flush_partial-Extends window_id w.playback h.bounded)
apply-Steps Op.begin_window w h = Extends-Steps w _ h (begin_window-Extends w.playback h.bounded)
apply-Steps (Op.end_window window_id) w h =
    Extends-Steps w _ h (end_window-Extends window_id w.playback h.bounded)
apply-Steps (Op.discard interrupted) w h = IsHushed-Steps w _ h refl refl (empty-IsBounded _ _ _)
apply-Steps Op.reset w h = IsHushed-Steps w _ h refl refl (empty-IsBounded _ _ _)
apply-Steps Op.stop w h = record {
  followed = record { heard_same = refl; none_waiting = refl };
  orderly = record { bounded = h.bounded; fits = h.fits };
}
apply-Steps (Op.resumes now) w h =
    let step = resume-Resumes now w h in record { followed = step.delivery; orderly = step.orderly }

abbrev pub started : ℕ → ℕ → ℕ → Writer
started max_items capacity now = new_writer (new_playback max_items capacity) now

pub started-IsOrderly : (max_items capacity now : ℕ) → IsOrderly (started max_items capacity now)
started-IsOrderly max_items capacity now = record {
  bounded = new-IsBounded max_items capacity;
  fits = tt;
}

pub run-IsOrderly : (ops : List Op) (w : Writer) → IsOrderly w → IsOrderly (run ops w)
unfolding run
run-IsOrderly [] w h = h
run-IsOrderly (op ∷ ops) w h = run-IsOrderly ops (apply op w) (apply-Steps op w h).orderly

run-traces :
    (ops : List Op) (w : Writer) → IsOrderly w → Trace ops (stream_of w) (stream_of (run ops w))
unfolding run
run-traces [] w h = done (stream_of w)
run-traces (op ∷ ops) w h =
    let next = apply-Steps op w h in
    step op ops (stream_of w) (stream_of (apply op w)) (stream_of (run ops (apply op w)))
      next.followed (run-traces ops (apply op w) next.orderly)

-- In every execution the counter of buffered frames counts the frames in the queue, at most its
-- capacity; every frame is whole and of the epoch of now; less than a frame is left over; and the
-- queue is within its size, if it has one.
pub run-IsBounded :
    (max_items capacity now : ℕ) (ops : List Op)
    → IsBounded (shape_of (run ops (started max_items capacity now)).playback)
run-IsBounded max_items capacity now ops =
    (run-IsOrderly ops (started max_items capacity now)
      (started-IsOrderly max_items capacity now)).bounded

nothing_yet :
    (max_items capacity now : ℕ)
    → stream_of (started max_items capacity now) ≡ record { heard = []; waiting = [] }
unfolding heard_of queued
nothing_yet max_items capacity now = refl

-- Every execution is one of the stream: calls that enqueue add at the end of what is waiting to be
-- heard, an interruption, a reset and a stop give up what is waiting, and whatever the writer does,
-- with its batches, sleeps and late frames, it moves a front part of what is waiting to what was
-- heard, so that nothing is lost, doubled or said out of order.
pub run-Trace :
    (max_items capacity now : ℕ) (ops : List Op)
    → Trace ops
        (record { heard = []; waiting = [] })
        (stream_of (run ops (started max_items capacity now)))
run-Trace max_items capacity now ops =
    subst (λ s. Trace ops s (stream_of (run ops (started max_items capacity now))))
      (nothing_yet max_items capacity now)
      (run-traces ops (started max_items capacity now) (started-IsOrderly max_items capacity now))

nothing_left : (xs ys : List Symbol) → [] ≡ xs ++ ys → (xs ≡ []) × (ys ≡ [])
nothing_left [] ys e = (refl, sym e)
nothing_left (x ∷ xs) ys e = absurd (ground (arith, e))

silent :
    (nows : List ℕ) (w : Writer)
    → IsOrderly w
    → (stream_of w).waiting ≡ []
    → heard_of (run (map Op.resumes nows) w).sent ≡ heard_of w.sent
unfolding run
silent [] w h none_waiting = refl
silent (now ∷ nows) w h none_waiting =
    let next = apply-Steps (Op.resumes now) w h in
    let split =
      nothing_left next.followed.said next.followed.left (sym none_waiting ∙ next.followed.split) in
    silent nows (apply (Op.resumes now) w) next.orderly (next.followed.waiting_left ∙ split.1)
    ∙ next.followed.heard_more
    ∙ ap (λ xs. heard_of w.sent ++ xs) split.0
    ∙ append-nil (heard_of w.sent)

-- After an interruption nothing that was queued before it is heard, however often the writer goes on
-- and whatever it held, collected or waited to send.
pub discard_silences :
    (max_items capacity now : ℕ) (ops : List Op) (interrupted : Bool) (nows : List ℕ)
    → heard_of
        (run
          (map Op.resumes nows)
          (apply (Op.discard interrupted) (run ops (started max_items capacity now)))).sent
      ≡ heard_of (run ops (started max_items capacity now)).sent
discard_silences max_items capacity now ops interrupted nows =
    let w = run ops (started max_items capacity now) in
    let hushed = apply-Steps (Op.discard interrupted) w (
      run-IsOrderly ops (started max_items capacity now)
        (started-IsOrderly max_items capacity now)) in
    silent nows (apply (Op.discard interrupted) w) hushed.orderly hushed.followed.none_waiting
    ∙ hushed.followed.heard_same
