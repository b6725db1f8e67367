-- ===== src/Playback/Progress.antt =====
-- The writer of src/hfp_mcp/audio/gemini_playback.py gets on: each time it goes on, at the latest when
-- its wait for more frames is over, it comes nearer to an empty queue.
use hermes_phone_hfp.Prelude.{
  ℕ, ◌+◌, ◌-◌, ◌*◌, ◌≤◌, Bool, true, false, Option, none, some, List, [], ◌∷◌, leb, ltb, length,
  ◌≡◌, refl, arith, if_both, if_split,
}
use hermes_phone_hfp.Playback.{Kind, Item}
use hermes_phone_hfp.Playback.Writer
use hermes_phone_hfp.Playback.Writer.{Waits, Writer, Reason, resume}

-- How many steps a wait may still take without another item.
abbrev pub pending_rank : Option Item → ℕ
pending_rank none = 1
pending_rank (some item) = 5

abbrev pub rank : Waits → ℕ
rank Waits.for_item = 0
rank (Waits.for_time item) = 3
rank (Waits.for_batch reason own deadline frames) = 2
rank (Waits.to_send_start item) = 3
rank (Waits.to_send_end item) = 1
rank (Waits.to_end_batch item) = 1
rank (Waits.to_send_batch reason own frames pending) = pending_rank pending
rank (Waits.to_send_frame item) = 1
rank Waits.finished = 0

-- A bound on the steps that the writer needs for what it holds and what is queued.
abbrev pub steps_left : Writer → ℕ
steps_left w = 4 * length w.playback.queue + rank w.waits

abbrev pub is_finished : Waits → Bool
is_finished Waits.finished = true
is_finished _ = false

-- A wait for more frames is over at this time.
abbrev pub IsDue : ℕ → Waits → Type 0
IsDue now (Waits.for_batch reason own deadline frames) = deadline ≤ now
IsDue now _ = Unit

-- The writer goes on with this queue, in so many steps without another item, and stays running.
pub record Rests (now n : ℕ) (queue : List Item) (v : Writer) : Type 0 where
  pub queue_is : v.playback.queue ≡ queue
  pub running : v.playback.stopped ≡ false
  pub rank_less : rank v.waits ≤ n
  pub unfinished : is_finished v.waits ≡ false
  pub due : IsDue (now + 120000) v.waits

pub waits-Rests :
    (now n : ℕ) (queue : List Item) (next : Waits) (c : Writer)
    → c.playback.queue ≡ queue
    → c.playback.stopped ≡ false
    → rank next ≤ n
    → is_finished next ≡ false
    → IsDue (now + 120000) next
    → Rests now n queue (Writer.waits_for next c)
waits-Rests now n queue next c same run less open_ due = record {
  queue_is = same;
  running = run;
  rank_less = less;
  unfinished = open_;
  due = due;
}

pub round-Rests :
    (now n : ℕ) (queue : List Item) (c : Writer)
    → c.playback.queue ≡ queue
    → c.playback.stopped ≡ false
    → Rests now n queue (Writer.next_round c)
round-Rests now n queue c same run = record {
  queue_is = same;
  running = run;
  rank_less = rw run (ground arith);
  unfinished = rw run refl;
  due = rw run tt;
}

paced-Rests :
    (now n : ℕ) (queue : List Item) (item : Item) (w : Writer)
    → w.playback.queue ≡ queue
    → w.playback.stopped ≡ false
    → 2 ≤ n
    → Rests now n queue (Writer.paced now item w)
paced-Rests now n queue item w same run less =
    let counted = Writer.lateness_counted (Writer.late now w) w in
    let same_still : counted.playback.queue ≡ queue =
      if_both (λ (c : Writer). c.playback.queue ≡ queue) (leb 500 (Writer.late now w)) same same in
    let run_still : counted.playback.stopped ≡ false =
      if_both (λ (c : Writer). c.playback.stopped ≡ false) (leb 500 (Writer.late now w)) run run in
    if_both (Rests now n queue) (leb 80000 (Writer.late now w))
      (waits-Rests now n queue
        (Waits.for_batch Reason.rebuffering item.epoch (now + 120000) (item.pcm ∷ [])) counted
        same_still run_still less refl (omega arith))
      (waits-Rests now n queue (Waits.to_send_frame item) counted same_still run_still
        (omega (arith, less)) refl tt)

pub woken-Rests :
    (now n : ℕ) (queue : List Item) (item : Item) (w : Writer)
    → w.playback.queue ≡ queue
    → w.playback.stopped ≡ false
    → 2 ≤ n
    → Rests now n queue (Writer.woken now item w)
woken-Rests now n queue item w same run less =
    if_both (Rests now n queue) (Writer.is_stale item.epoch w)
      (round-Rests now n queue (Writer.restarts_at now (Writer.interrupted 1 w)) same run)
      (paced-Rests now n queue item w same run less)

by_kind-Rests :
    (now : ℕ) (queue : List Item) (item : Item) (w : Writer) (kind : Kind)
    → w.playback.queue ≡ queue
    → w.playback.stopped ≡ false
    → Rests now 3 queue (Writer.by_kind now item w kind)
by_kind-Rests now queue item w Kind.playback_start same run =
    waits-Rests now 3 queue (Waits.to_send_start item) w same run (ground arith) refl tt
by_kind-Rests now queue item w Kind.playback_end same run =
    waits-Rests now 3 queue (Waits.to_send_end item) w same run (ground arith) refl tt
by_kind-Rests now queue item w Kind.audio same run =
    if_both (Rests now 3 queue) (ltb now w.next_send_at)
      (waits-Rests now 3 queue (Waits.for_time item) w same run (ground arith) refl tt)
      (woken-Rests now 3 queue item w same run (ground arith))

pub taken-Rests :
    (now : ℕ) (queue : List Item) (item : Item) (w : Writer)
    → w.playback.queue ≡ queue
    → w.playback.stopped ≡ false
    → Rests now 3 queue (Writer.taken now item w)
taken-Rests now queue item w same run =
    if_both (Rests now 3 queue) (Writer.is_stale item.epoch w)
      (round-Rests now 3 queue (Writer.restarts_at now w) same run)
      (by_kind-Rests now queue item w item.kind same run)

pub weaken-Rests :
    (now n m : ℕ) (queue : List Item) (v : Writer)
    → n ≤ m
    → Rests now n queue v
    → Rests now m queue v
weaken-Rests now n m queue v more r = record {
  queue_is = r.queue_is;
  running = r.running;
  rank_less = omega (arith, more, r.rank_less);
  unfinished = r.unfinished;
  due = r.due;
}

pub next_pending-Rests :
    (now : ℕ) (queue : List Item) (pending : Option Item) (w : Writer)
    → w.playback.queue ≡ queue
    → w.playback.stopped ≡ false
    → Rests now (pending_rank pending - 1) queue (Writer.next_pending now pending w)
next_pending-Rests now queue none w same run = round-Rests now 0 queue w same run
next_pending-Rests now queue (some item) w same run =
    if_split (Rests now 4 queue) w.playback.stopped (λ stop. absurd (ground (arith, stop, run)))
      (λ e. weaken-Rests now 3 4 queue _ (ground arith) (taken-Rests now queue item w same run))

pub behind_batch-Rests :
    (now : ℕ) (queue : List Item) (pending : Option Item) (w : Writer)
    → w.playback.queue ≡ queue
    → w.playback.stopped ≡ false
    → Rests now (pending_rank pending - 1) queue (Writer.behind_batch now pending w)
behind_batch-Rests now queue none w same run = round-Rests now 0 queue w same run
behind_batch-Rests now queue (some item) w same run =
    if_both (Rests now 4 queue) (Writer.is_end item.kind)
      (waits-Rests now 4 queue (Waits.to_end_batch item) w same run (ground arith) refl tt)
      (next_pending-Rests now queue (some item) w same run)

to_batch-Rests :
    (now : ℕ) (queue : List Item) (reason : Reason) (own : ℕ) (frames : List (List ℕ)) (w : Writer)
    → w.playback.queue ≡ queue
    → w.playback.stopped ≡ false
    → Rests now 1 queue (Writer.to_batch now reason own frames none w)
to_batch-Rests now queue reason own [] w same run = round-Rests now 1 queue w same run
to_batch-Rests now queue reason own (frame ∷ frames) w same run =
    waits-Rests now 1 queue (Waits.to_send_batch reason own (frame ∷ frames) none) w same run
      (ground arith) refl tt

pub gathered-Rests :
    (now : ℕ) (queue : List Item) (reason : Reason) (own : ℕ) (frames : List (List ℕ)) (w : Writer)
    → w.playback.queue ≡ queue
    → w.playback.stopped ≡ false
    → Rests now 1 queue (Writer.gathered now reason own frames none w)
gathered-Rests now queue reason own frames w same run =
    if_both (Rests now 1 queue) (Writer.is_stale own w)
      (round-Rests now 1 queue (Writer.restarts_at now (Writer.interrupted (length frames) w)) same
        run)
      (to_batch-Rests now queue reason own frames w same run)
