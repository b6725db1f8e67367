-- ===== src/Playback/Refinement/Resume.antt =====
-- Every step of the writer of src/hfp_mcp/audio/gemini_playback.py refines the stream.
use hermes_phone_hfp.Prelude.{ℕ, ◌+◌, ◌≤◌, Option, List, [], ◌==◌, length, ◌≡◌, refl, if_both}
use hermes_phone_hfp.Playback.{Kind, Item, dequeue}
use hermes_phone_hfp.Playback.Writer
use hermes_phone_hfp.Playback.Writer.{Waits, Writer, Message, control, bytes, Reason, join}
use hermes_phone_hfp.Playback.Bounds.{IsBounded, shape_of}
use hermes_phone_hfp.Playback.Stream.{live, live_pending}
use hermes_phone_hfp.Playback.Delivery.{
  Keeps, Fits, IsPast, Keeps-eq, next_round-Keeps, waits-Keeps, woken-Keeps, next_pending-Keeps,
  behind_batch-Keeps, same-Keeps,
}
use hermes_phone_hfp.Playback.Refinement.{
  IsOrderly, Resumes, quiet-Resumes, by_send-Resumes, item_send-Resumes, send_frame-Resumes,
  control-Resumes,
}
use hermes_phone_hfp.Playback.Refinement.Taking.{idle-Resumes, received-Resumes, collects-Resumes}

send_start-Resumes :
    (now : ℕ) (w : Writer) (item : Item)
    → w.waits ≡ Waits.to_send_start item
    → IsBounded (shape_of w.playback)
    → item.kind ≡ Kind.playback_start
    → item.epoch ≤ w.playback.epoch
    → Resumes w (Writer.send_start now item w)
unfolding join
send_start-Resumes now w item at current start past =
    item_send-Resumes w item (control item.kind item.window_id) _ _ current (rw at refl)
      (rw start refl)
      (Keeps-eq _ _ _ _ (if_both (λ xs. xs ≡ []) (item.epoch == w.playback.epoch) refl refl) (
        waits-Keeps (Waits.for_batch Reason.prebuffering item.epoch (now + 120000) [])
          (Writer.send (control item.kind item.window_id) w) past))
      (next_round-Keeps w)

send_batch-Resumes :
    (now : ℕ) (w : Writer) (reason : Reason) (own : ℕ) (frames : List (List ℕ))
    (pending : Option Item)
    → w.waits ≡ Waits.to_send_batch reason own frames pending
    → IsBounded (shape_of w.playback)
    → IsPast w.playback.epoch pending
    → Resumes w (Writer.send_batch now reason own frames pending w)
send_batch-Resumes now w reason own frames pending at current past =
    by_send-Resumes w (own == w.playback.epoch) w.playback.stopped (bytes (join frames))
      (live_pending w.playback.epoch pending) _ _ refl current (rw at refl) (counted reason)
      (same-Keeps w (Writer.interrupted (length frames) w) _ _ refl refl refl
        (next_pending-Keeps now pending (Writer.interrupted (length frames) w) past))
  where
    counted :
        (r : Reason)
        → Keeps (Writer.send (bytes (join frames)) w) (live_pending w.playback.epoch pending) (
            Writer.behind_batch now pending (
              Writer.restarts_at (now + 20000) (
                Writer.count_batch r
                  (length frames)
                  (Writer.count_sent (length frames) (Writer.send (bytes (join frames)) w)))))
    counted Reason.prebuffering =
        same-Keeps _ _ _ _ refl refl refl (behind_batch-Keeps now pending _ past)
    counted Reason.rebuffering =
        same-Keeps _ _ _ _ refl refl refl (behind_batch-Keeps now pending _ past)

resumed-Resumes :
    (now : ℕ) (w : Writer) (waits : Waits)
    → w.waits ≡ waits
    → IsBounded (shape_of w.playback)
    → Fits w.playback.epoch waits
    → Resumes w (Writer.resumed now waits w)
unfolding dequeue
resumed-Resumes now w Waits.for_item at current fits =
    received-Resumes now w w.playback.queue refl current at
resumed-Resumes now w (Waits.for_time item) at current fits =
    quiet-Resumes w w _ (live w.playback.epoch item) refl current (rw at refl)
      (woken-Keeps now item w fits.0 fits.1)
resumed-Resumes now w (Waits.for_batch reason own deadline frames) at current fits =
    collects-Resumes now w reason own deadline frames at current fits
resumed-Resumes now w (Waits.to_send_start item) at current fits =
    send_start-Resumes now w item at current fits.0 fits.1
resumed-Resumes now w (Waits.to_send_end item) at current fits =
    control-Resumes w item (λ v. Writer.next_round (Writer.restarts_at now v)) (rw at refl) current
      (rw fits.0 refl)
      (λ v. same-Keeps v (Writer.restarts_at now v) _ [] refl refl refl (next_round-Keeps _))
resumed-Resumes now w (Waits.to_end_batch item) at current fits =
    control-Resumes w item Writer.next_round (rw at refl) current (rw fits.0 refl) next_round-Keeps
resumed-Resumes now w (Waits.to_send_batch reason own frames pending) at current fits =
    send_batch-Resumes now w reason own frames pending at current fits.1
resumed-Resumes now w (Waits.to_send_frame item) at current fits =
    send_frame-Resumes w item at current fits.0
resumed-Resumes now w Waits.finished at current fits = idle-Resumes w current (rw at tt)

-- The writer goes on at any time.
pub resume-Resumes : (now : ℕ) (w : Writer) → IsOrderly w → Resumes w (Writer.resume now w)
unfolding Writer.resume
resume-Resumes now w orderly = resumed-Resumes now w w.waits refl orderly.bounded orderly.fits
