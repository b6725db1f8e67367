-- ===== src/Playback/Heard.antt =====
-- What is queued in src/hfp_mcp/audio/gemini_playback.py is heard in the end.
use hermes_phone_hfp.Prelude.{
  ℕ, zero, suc, ◌+◌, ◌*◌, ◌≤◌, false, Option, none, some, List, [], ◌∷◌, ◌++◌, map, length, ◌≡◌,
  refl, ap, sym, ◌∙◌, arith, if_both,
}
use mathlib.Core.List.{append_assoc, append-nil}
use hermes_phone_hfp.Playback.{Item}
use hermes_phone_hfp.Playback.Writer.{Waits, Writer, resume}
use hermes_phone_hfp.Playback.Stream.{heard_of, queued, lined, in_hand, stream_of}
use hermes_phone_hfp.Playback.Progress.{steps_left, rank, pending_rank, is_finished, IsDue}
use hermes_phone_hfp.Playback.Drain.{resumed-Progresses}
use hermes_phone_hfp.Playback.Refinement.{IsOrderly}
use hermes_phone_hfp.Playback.Refinement.Resume.{resume-Resumes}
use hermes_phone_hfp.Playback.Steps.{Op, apply, run}
use hermes_phone_hfp.Playback.Order.{started, run-IsOrderly, started-IsOrderly}

-- A clock that is read every 120 ms.
unfoldable pub ticks : ℕ → ℕ → List ℕ
ticks now zero = []
ticks now (suc n) = now ∷ ticks (now + 120000) n

idle_hand :
    (epoch : ℕ) (waits : Waits)
    → rank waits ≤ 0
    → is_finished waits ≡ false
    → in_hand epoch waits ≡ []
idle_hand epoch Waits.for_item none_left open_ = refl
idle_hand epoch (Waits.for_time item) none_left open_ = absurd (ground (arith, none_left))
idle_hand epoch (Waits.for_batch reason own deadline frames) none_left open_ =
    absurd (ground (arith, none_left))
idle_hand epoch (Waits.to_send_start item) none_left open_ = absurd (ground (arith, none_left))
idle_hand epoch (Waits.to_send_end item) none_left open_ = absurd (ground (arith, none_left))
idle_hand epoch (Waits.to_end_batch item) none_left open_ = absurd (ground (arith, none_left))
idle_hand epoch (Waits.to_send_batch reason own frames pending) none_left open_ =
    absurd (busy pending none_left)
  where
    busy : (p : Option Item) → pending_rank p ≤ 0 → ⊥
    busy none h = ground (arith, h)
    busy (some item) h = ground (arith, h)
idle_hand epoch (Waits.to_send_frame item) none_left open_ = absurd (ground (arith, none_left))
idle_hand epoch Waits.finished none_left open_ = absurd (ground (arith, open_))

nothing_queued : (items : List Item) (n : ℕ) → 4 * length items + n ≤ 0 → (items ≡ []) × (n ≤ 0)
nothing_queued [] n h = (refl, omega (arith, h))
nothing_queued (item ∷ items) n h = absurd (ground (arith, h))

nothing_waiting :
    (w : Writer) → steps_left w ≤ 0 → is_finished w.waits ≡ false → (stream_of w).waiting ≡ []
unfolding queued
nothing_waiting w none_left open_ =
    let idle = nothing_queued w.playback.queue (rank w.waits) none_left in
    ap (λ items. lined w.playback.stopped (in_hand w.playback.epoch w.waits) (queued items)) idle.0
    ∙ ap (λ xs. lined w.playback.stopped xs []) (idle_hand w.playback.epoch w.waits idle.1 open_)
    ∙ if_both (λ xs. xs ≡ []) w.playback.stopped refl refl

drained :
    (n now : ℕ) (w : Writer)
    → steps_left w ≤ n
    → IsOrderly w
    → w.playback.stopped ≡ false
    → is_finished w.waits ≡ false
    → IsDue now w.waits
    → heard_of (run (map Op.resumes (ticks now n)) w).sent
      ≡ heard_of w.sent ++ (stream_of w).waiting
unfolding run apply ticks resume
drained zero now w enough h run open_ due = sym (
    ap (λ xs. heard_of w.sent ++ xs) (nothing_waiting w enough open_)
    ∙ append-nil (heard_of w.sent))
drained (suc n) now w enough h running open_ due =
    let next = resume-Resumes now w h in
    let on = resumed-Progresses now w w.waits refl running open_ due in
    let v = resume now w in
    drained n (now + 120000) v (omega (arith, enough, on.fewer)) next.orderly on.running
      on.unfinished on.due
    ∙ ap (λ xs. xs ++ (stream_of v).waiting) next.delivery.heard_more
    ∙ append_assoc (heard_of w.sent) next.delivery.said (stream_of v).waiting
    ∙ ap (λ xs. heard_of w.sent ++ (next.delivery.said ++ xs)) next.delivery.waiting_left
    ∙ ap (λ xs. heard_of w.sent ++ xs) (sym next.delivery.split)

-- Everything that is queued is heard in the end. The state is one that an execution reaches in which
-- the session is not stopped, the writer has not ended, and a wait for more frames that it is in ends
-- by the first reading of the clock. Where the writer then goes on every 120 ms, with nothing between,
-- as often as the bound `steps_left` says, what is heard by then is what was heard before and all that
-- was waiting, in order.
pub all_heard :
    (max_items capacity start : ℕ) (ops : List Op) (now : ℕ)
    → (run ops (started max_items capacity start)).playback.stopped ≡ false
    → is_finished (run ops (started max_items capacity start)).waits ≡ false
    → IsDue now (run ops (started max_items capacity start)).waits
    → heard_of
        (run
          (map Op.resumes (ticks now (steps_left (run ops (started max_items capacity start)))))
          (run ops (started max_items capacity start))).sent
      ≡ heard_of (run ops (started max_items capacity start)).sent
        ++ (stream_of (run ops (started max_items capacity start))).waiting
all_heard max_items capacity start ops now running open_ due =
    let w = run ops (started max_items capacity start) in
    drained (steps_left w) now w (omega arith)
      (run-IsOrderly ops (started max_items capacity start)
        (started-IsOrderly max_items capacity start))
      running open_ due
