-- ===== src/Playback/Drain.antt =====
-- Every step of the writer of src/hfp_mcp/audio/gemini_playback.py, by what it waits for, brings it on.
use hermes_phone_hfp.Prelude.{
  ℕ, suc, ◌+◌, ◌-◌, ◌*◌, ◌≤◌, false, ◌||◌, Option, none, some, List, [], ◌∷◌, leb, ltb, length, ◌≡◌,
  refl, arith, if_both, if_split,
}
use hermes_phone_hfp.Playback.{Item, dequeue, first_of}
use hermes_phone_hfp.Playback.Writer
use hermes_phone_hfp.Playback.Writer.{Waits, Writer, Reason, Message, control, bytes, join, resume}
use hermes_phone_hfp.Playback.Progress.{
  Rests, rank, pending_rank, steps_left, is_finished, IsDue, waits-Rests, round-Rests, taken-Rests,
  woken-Rests, next_pending-Rests, behind_batch-Rests, gathered-Rests,
}
use hermes_phone_hfp.Playback.Steps.{run}

-- A control is sent or not, and the writer goes on.
control-Rests :
    (now n : ℕ) (item : Item) (w : Writer) (after : Writer → Writer)
    → w.playback.stopped ≡ false
    → ((c : Writer)
        → c.playback.queue ≡ w.playback.queue
        → c.playback.stopped ≡ false
        → Rests now n w.playback.queue (after c))
    → Rests now n w.playback.queue (after (Writer.send_control item w))
control-Rests now n item w after run rest =
    if_both (λ c. Rests now n w.playback.queue (after c)) (Writer.may_send item.epoch w)
      (rest (Writer.send (control item.kind item.window_id) w) refl run) (rest w refl run)

send_batch-Rests :
    (now : ℕ) (reason : Reason) (own : ℕ) (frames : List (List ℕ)) (pending : Option Item)
    (w : Writer)
    → w.playback.stopped ≡ false
    → Rests now
        (pending_rank pending - 1)
        w.playback.queue
        (Writer.send_batch now reason own frames pending w)
send_batch-Rests now reason own frames pending w run =
    if_both (Rests now (pending_rank pending - 1) w.playback.queue) (Writer.may_send own w)
      (counted reason)
      (next_pending-Rests now w.playback.queue pending (Writer.interrupted (length frames) w) refl
        run)
  where
    counted :
        (r : Reason)
        → Rests now (pending_rank pending - 1) w.playback.queue (
            Writer.behind_batch now pending (
              Writer.restarts_at (now + 20000) (
                Writer.count_batch r
                  (length frames)
                  (Writer.count_sent (length frames) (Writer.send (bytes (join frames)) w)))))
    counted Reason.prebuffering = behind_batch-Rests now w.playback.queue pending _ refl run
    counted Reason.rebuffering = behind_batch-Rests now w.playback.queue pending _ refl run

collects-Rests :
    (now : ℕ) (reason : Reason) (own deadline : ℕ) (frames : List (List ℕ)) (w : Writer)
    → w.playback.stopped ≡ false
    → deadline ≤ now
    → Rests now 1 w.playback.queue (Writer.collects now reason own deadline frames w)
collects-Rests now reason own deadline frames w run due =
    if_both (Rests now 1 w.playback.queue) (ltb (length frames) 8)
      (if_split (Rests now 1 w.playback.queue)
        (Writer.is_stale own w || w.playback.stopped || leb deadline now)
        (λ over. gathered-Rests now w.playback.queue reason own frames w refl run)
        (λ early. absurd (ground (arith, early, due))))
      (gathered-Rests now w.playback.queue reason own frames w refl run)

-- One step takes the bound down, and leaves the writer running.
pub record Progresses (now : ℕ) (w v : Writer) : Type 0 where
  pub fewer : steps_left v ≤ steps_left w - 1
  pub running : v.playback.stopped ≡ false
  pub unfinished : is_finished v.waits ≡ false
  pub due : IsDue (now + 120000) v.waits

Rests-Progresses :
    (now n : ℕ) (w v : Writer) (queue : List Item)
    → 4 * length queue + n ≤ steps_left w - 1
    → Rests now n queue v
    → Progresses now w v
Rests-Progresses now n w v queue less rest = record {
  fewer = rw rest.queue_is (omega (arith, less, rest.rank_less));
  running = rest.running;
  unfinished = rest.unfinished;
  due = rest.due;
}

received-Progresses :
    (now : ℕ) (w : Writer) (items : List Item)
    → w.playback.queue ≡ items
    → w.waits ≡ Waits.for_item
    → w.playback.stopped ≡ false
    → Progresses now w (Writer.received now (first_of w.playback items) w)
received-Progresses now w [] empty at run = record {
  fewer = rw (empty, at) (ground arith);
  running = run;
  unfinished = rw at refl;
  due = rw at tt;
}
received-Progresses now w (item ∷ rest) front at run =
    Rests-Progresses now 3 w _ rest (rw (front, at) (omega arith))
      (taken-Rests now rest item _ refl run)

-- A step that leaves the queue as it was.
same-Progresses :
    (now n : ℕ) (w v : Writer) (waits : Waits)
    → w.waits ≡ waits
    → suc n ≤ rank waits
    → Rests now n w.playback.queue v
    → Progresses now w v
same-Progresses now n w v waits at less rest =
    Rests-Progresses now n w v w.playback.queue (rw at (omega (arith, less))) rest

pub resumed-Progresses :
    (now : ℕ) (w : Writer) (waits : Waits)
    → w.waits ≡ waits
    → w.playback.stopped ≡ false
    → is_finished waits ≡ false
    → IsDue now waits
    → Progresses now w (Writer.resumed now waits w)
unfolding dequeue
resumed-Progresses now w Waits.for_item at run open_ due =
    received-Progresses now w w.playback.queue refl at run
resumed-Progresses now w (Waits.for_time item) at run open_ due =
    same-Progresses now 2 w _ (Waits.for_time item) at (ground arith)
      (woken-Rests now 2 w.playback.queue item w refl run (ground arith))
resumed-Progresses now w (Waits.for_batch reason own deadline frames) at run open_ due =
    same-Progresses now 1 w _ (Waits.for_batch reason own deadline frames) at (ground arith)
      (collects-Rests now reason own deadline frames w run due)
resumed-Progresses now w (Waits.to_send_start item) at run open_ due =
    same-Progresses now 2 w _ (Waits.to_send_start item) at (ground arith) (
      if_both (Rests now 2 w.playback.queue) (Writer.may_send item.epoch w)
        (waits-Rests now 2 w.playback.queue
          (Waits.for_batch Reason.prebuffering item.epoch (now + 120000) [])
          (Writer.send (control item.kind item.window_id) w) refl run (ground arith) refl
          (omega arith))
        (round-Rests now 2 w.playback.queue w refl run))
resumed-Progresses now w (Waits.to_send_end item) at run open_ due =
    same-Progresses now 0 w _ (Waits.to_send_end item) at (ground arith) (
      control-Rests now 0 item w (λ c. Writer.next_round (Writer.restarts_at now c)) run
        (λ c same r. round-Rests now 0 w.playback.queue (Writer.restarts_at now c) same r))
resumed-Progresses now w (Waits.to_end_batch item) at run open_ due =
    same-Progresses now 0 w _ (Waits.to_end_batch item) at (ground arith) (
      control-Rests now 0 item w Writer.next_round run
        (λ c same r. round-Rests now 0 w.playback.queue c same r))
resumed-Progresses now w (Waits.to_send_batch reason own frames none) at run open_ due =
    same-Progresses now 0 w _ (Waits.to_send_batch reason own frames none) at (ground arith)
      (send_batch-Rests now reason own frames none w run)
resumed-Progresses now w (Waits.to_send_batch reason own frames (some item)) at run open_ due =
    same-Progresses now 4 w _ (Waits.to_send_batch reason own frames (some item)) at (ground arith)
      (send_batch-Rests now reason own frames (some item) w run)
resumed-Progresses now w (Waits.to_send_frame item) at run open_ due =
    same-Progresses now 0 w _ (Waits.to_send_frame item) at (ground arith) (
      if_both (Rests now 0 w.playback.queue) (Writer.may_send item.epoch w)
        (round-Rests now 0 w.playback.queue
          (Writer.restarts_at (w.next_send_at + 20000)
            (Writer.count_sent 1 (Writer.send (bytes item.pcm) w)))
          refl run)
        (round-Rests now 0 w.playback.queue (Writer.interrupted 1 w) refl run))
resumed-Progresses now w Waits.finished at run open_ due = absurd (ground (arith, open_))
