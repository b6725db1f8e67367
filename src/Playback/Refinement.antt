-- ===== src/Playback/Refinement.antt =====
-- The writer of src/hfp_mcp/audio/gemini_playback.py against the stream that a listener knows: what is
-- heard is what was waiting, in order.
pub mod Taking
pub mod Resume
use hermes_phone_hfp.Prelude.{
  ℕ, suc, ◌+◌, Bool, true, false, not, ◌&&◌, ◌||◌, Option, none, some, List, [], ◌∷◌, ◌++◌, map,
  leb, ltb, ◌==◌, length, All, ◌≡◌, refl, ap, sym, ◌∙◌, arith, if_both, if_split, if_apply,
  if◌then◌else◌,
}
use mathlib.Core.Path.{subst}
use mathlib.Core.List.{append_assoc, append-nil}
use hermes_phone_hfp.Playback.{Kind, Item, Playback, dequeue, first_of}
use hermes_phone_hfp.Playback.Writer
use hermes_phone_hfp.Playback.Writer.{Waits, Writer, Message, control, bytes, Reason, join}
use hermes_phone_hfp.Playback.Bounds.{IsBounded, shape_of, take-IsBounded}
use hermes_phone_hfp.Playback.Stream.{
  Symbol, Stream, sample, mark, symbols_of, message_symbols, live, live_pending, live_batch,
  in_hand, lined, queued, heard_of, stream_of,
}
use hermes_phone_hfp.Playback.Delivery.{
  Keeps, Fits, Keeps-eq, next_round-Keeps, waits-Keeps, taken-Keeps, woken-Keeps,
  next_pending-Keeps, behind_batch-Keeps, gathered-Keeps, same-Keeps,
}

-- Something at the front of what is waiting is heard.
pub record IsDelivery (s s' : Stream) : Type 0 where
  pub said : List Symbol
  pub left : List Symbol
  pub split : s.waiting ≡ said ++ left
  pub heard_more : s'.heard ≡ s.heard ++ said
  pub waiting_left : s'.waiting ≡ left

-- The queue is within its bounds, and the writer waits for what it says it waits for.
pub record IsOrderly (w : Writer) : Type 0 where
  pub bounded : IsBounded (shape_of w.playback)
  pub fits : Fits w.playback.epoch w.waits

pub record Resumes (w v : Writer) : Type 0 where
  pub delivery : IsDelivery (stream_of w) (stream_of v)
  pub orderly : IsOrderly v

heard_of-append :
    (ms : List Message) (m : Message) → heard_of (ms ++ m ∷ []) ≡ heard_of ms ++ message_symbols m
unfolding heard_of
heard_of-append [] m = append-nil (message_symbols m)
heard_of-append (n ∷ ms) m =
    ap (λ xs. message_symbols n ++ xs) (heard_of-append ms m)
    ∙ sym (append_assoc (message_symbols n) (heard_of ms) (message_symbols m))

kept-IsOrderly :
    (w v : Writer) (held : List Symbol)
    → IsBounded (shape_of w.playback)
    → Keeps w held v
    → IsOrderly v
kept-IsOrderly w v held current kept = record {
  bounded = subst IsBounded (sym kept.shape_kept) current;
  fits = kept.fits;
}

-- Nothing is sent: the writer moves an item from the queue to its hand at most.
pub quiet-Resumes :
    (w after v : Writer) (held : List Symbol)
    → after.sent ≡ w.sent
    → IsBounded (shape_of after.playback)
    → (stream_of w).waiting ≡ lined after.playback.stopped held (queued after.playback.queue)
    → Keeps after held v
    → Resumes w v
quiet-Resumes w after v held sent current moved kept = record {
  delivery = record {
    said = [];
    left = lined after.playback.stopped held (queued after.playback.queue);
    split = moved;
    heard_more = ap heard_of (kept.sent_kept ∙ sent) ∙ sym (append-nil (heard_of w.sent));
    waiting_left = kept.waiting_kept;
  };
  orderly = kept-IsOrderly after v held current kept;
}

-- A message is sent that was the first thing in the hand.
sent-Resumes :
    (w v : Writer) (m : Message) (more : List Symbol)
    → IsBounded (shape_of w.playback)
    → (stream_of w).waiting ≡ (message_symbols m ++ more) ++ queued w.playback.queue
    → w.playback.stopped ≡ false
    → Keeps (Writer.send m w) more v
    → Resumes w v
sent-Resumes w v m more current front running kept = record {
  delivery = record {
    said = message_symbols m;
    left = more ++ queued w.playback.queue;
    split = front ∙ append_assoc (message_symbols m) more (queued w.playback.queue);
    heard_more = ap heard_of kept.sent_kept ∙ heard_of-append w.sent m;
    waiting_left = kept.waiting_kept ∙ ap (λ b. lined b more (queued w.playback.queue)) running;
  };
  orderly = kept-IsOrderly (Writer.send m w) v more current kept;
}

-- The test under the lock: an epoch that has passed and a stopped session send nothing, and nothing
-- of it was still to be heard.
pub by_send-Resumes :
    (w : Writer) (current stop : Bool) (m : Message) (more : List Symbol) (sent unsent : Writer)
    → w.playback.stopped ≡ stop
    → IsBounded (shape_of w.playback)
    → in_hand w.playback.epoch w.waits ≡ (if current then message_symbols m else []) ++ more
    → Keeps (Writer.send m w) more sent
    → Keeps w more unsent
    → Resumes w (if not (not current || stop) then sent else unsent)
by_send-Resumes w true false m more sent unsent e queue hand first second =
    sent-Resumes w sent m more queue (rw (e, hand) refl) e first
by_send-Resumes w true true m more sent unsent e queue hand first second =
    quiet-Resumes w w unsent more refl queue (rw e refl) second
by_send-Resumes w false stop m more sent unsent e queue hand first second =
    quiet-Resumes w w unsent more refl queue (rw hand refl) second

-- The same where the hand holds one item.
pub item_send-Resumes :
    (w : Writer) (item : Item) (m : Message) (sent unsent : Writer)
    → IsBounded (shape_of w.playback)
    → in_hand w.playback.epoch w.waits ≡ live w.playback.epoch item
    → symbols_of item ≡ message_symbols m
    → Keeps (Writer.send m w) [] sent
    → Keeps w [] unsent
    → Resumes w (if Writer.may_send item.epoch w then sent else unsent)
item_send-Resumes w item m sent unsent current hand said first second =
    by_send-Resumes w (item.epoch == w.playback.epoch) w.playback.stopped m [] sent unsent refl
      current
      (hand
        ∙ ap (λ xs. if item.epoch == w.playback.epoch then xs else []) said
        ∙ sym (append-nil (if item.epoch == w.playback.epoch then message_symbols m else [])))
      first second

pub send_frame-Resumes :
    (w : Writer) (item : Item)
    → w.waits ≡ Waits.to_send_frame item
    → IsBounded (shape_of w.playback)
    → item.kind ≡ Kind.audio
    → Resumes w (Writer.send_frame item w)
send_frame-Resumes w item at current audio =
    item_send-Resumes w item (bytes item.pcm) _ _ current (rw at refl) (rw audio refl)
      (same-Keeps (Writer.send (bytes item.pcm) w)
        (Writer.restarts_at (w.next_send_at + 20000)
          (Writer.count_sent 1 (Writer.send (bytes item.pcm) w)))
        _ [] refl refl refl (next_round-Keeps _))
      (same-Keeps w (Writer.interrupted 1 w) _ [] refl refl refl (next_round-Keeps _))

pub control-Resumes :
    (w : Writer) (item : Item) (after : Writer → Writer)
    → in_hand w.playback.epoch w.waits ≡ live w.playback.epoch item
    → IsBounded (shape_of w.playback)
    → symbols_of item ≡ mark item.kind item.window_id ∷ []
    → ((v : Writer) → Keeps v [] (after v))
    → Resumes w (after (Writer.send_control item w))
control-Resumes w item after hand current said keeps =
    subst (Resumes w)
      (sym (
        if_apply after (Writer.may_send item.epoch w)
          (Writer.send (control item.kind item.window_id) w) w))
      (item_send-Resumes w item (control item.kind item.window_id) _ _ current hand said (keeps _)
        (keeps w))
