-- ===== src/Playback/Delivery.antt =====
-- What the writer of src/hfp_mcp/audio/gemini_playback.py does between two sends: it takes up items and
-- collects frames, and nothing that is still to be heard is lost, doubled or moved.
use hermes_phone_hfp.Prelude.{
  ℕ, ◌≤◌, Bool, true, false, not, Option, none, some, List, [], ◌∷◌, ◌++◌, map, ltb, ◌==◌, length,
  ◌≡◌, refl, ap, sym, ◌∙◌, arith, if_both, if◌then◌else◌,
}
use mathlib.Core.List.{append-nil}
use hermes_phone_hfp.Playback.{Kind, Item}
use hermes_phone_hfp.Playback.Writer
use hermes_phone_hfp.Playback.Writer.{
  Waits, Writer, Message, Reason, next_round, next_pending, taken, woken, paced, by_kind,
  behind_batch, to_batch, gathered, kept, waits_for, restarts_at, interrupted, join, is_stale,
  lateness_counted, late,
}
use hermes_phone_hfp.Playback.Bounds.{shape_of}
use hermes_phone_hfp.Playback.Stream.{
  Symbol, sample, symbols_of, live, live_pending, live_batch, lined, queued,
}
pub use hermes_phone_hfp.Playback.Keeping.{
  IsPast, Fits, Keeps, next_round-Keeps, waits-Keeps, Keeps-eq, lateness-Keeps, map_sample-append,
  symbols_of-audio, join-one, live_batch-one, paced-Keeps,
}

-- A test of the epoch: behind it what the writer holds counts, and in another epoch it does not.
by_epoch-Keeps :
    (w : Writer) (current : Bool) (held more : List Symbol) (stale other : Writer)
    → Keeps w more stale
    → Keeps w ((if current then held else []) ++ more) other
    → Keeps w ((if current then held else []) ++ more) (if not current then stale else other)
by_epoch-Keeps w true held more stale other first second = second
by_epoch-Keeps w false held more stale other first second = first

by_item-Keeps :
    (w : Writer) (item : Item) (stale other : Writer)
    → Keeps w [] stale
    → Keeps w (live w.playback.epoch item) other
    → Keeps w (live w.playback.epoch item) (if is_stale item.epoch w then stale else other)
by_item-Keeps w item stale other first second =
    Keeps-eq w _ _ _ (append-nil (live w.playback.epoch item)) (
      by_epoch-Keeps w (item.epoch == w.playback.epoch) (symbols_of item) [] stale other first
        (Keeps-eq w _ _ _ (sym (append-nil (live w.playback.epoch item))) second))

round-Keeps : (now n : ℕ) (w : Writer) → Keeps w [] (next_round (restarts_at now (interrupted n w)))
round-Keeps now n w = record {
  sent_kept = refl;
  shape_kept = refl;
  fits = if_both (Fits w.playback.epoch) w.playback.stopped tt tt;
  waiting_kept = ground arith;
}

pub woken-Keeps :
    (now : ℕ) (item : Item) (w : Writer)
    → item.kind ≡ Kind.audio
    → item.epoch ≤ w.playback.epoch
    → Keeps w (live w.playback.epoch item) (woken now item w)
woken-Keeps now item w audio past =
    by_item-Keeps w item _ _ (round-Keeps now 1 w) (paced-Keeps now item w audio past)

by_kind-Keeps :
    (now : ℕ) (item : Item) (w : Writer) (kind : Kind)
    → item.kind ≡ kind
    → item.epoch ≤ w.playback.epoch
    → Keeps w (live w.playback.epoch item) (by_kind now item w kind)
by_kind-Keeps now item w Kind.playback_start e past =
    waits-Keeps (Waits.to_send_start item) w (e, past)
by_kind-Keeps now item w Kind.playback_end e past = waits-Keeps (Waits.to_send_end item) w (e, past)
by_kind-Keeps now item w Kind.audio e past =
    if_both (Keeps w (live w.playback.epoch item)) (ltb now w.next_send_at)
      (waits-Keeps (Waits.for_time item) w (e, past)) (woken-Keeps now item w e past)

pub taken-Keeps :
    (now : ℕ) (item : Item) (w : Writer)
    → item.epoch ≤ w.playback.epoch
    → Keeps w (live w.playback.epoch item) (taken now item w)
taken-Keeps now item w past =
    by_item-Keeps w item _ _
      (record {
        sent_kept = refl;
        shape_kept = refl;
        fits = if_both (Fits w.playback.epoch) w.playback.stopped tt tt;
        waiting_kept = ground arith;
      })
      (by_kind-Keeps now item w item.kind refl past)

-- Where the session is stopped nothing is left to be heard.
finished-Keeps :
    (w : Writer) (held : List Symbol) (other : Writer) (test : Bool)
    → w.playback.stopped ≡ test
    → Keeps w held other
    → Keeps w held (if test then waits_for Waits.finished w else other)
finished-Keeps w held other true e kept = record {
  sent_kept = refl;
  shape_kept = refl;
  fits = tt;
  waiting_kept = rw e refl;
}
finished-Keeps w held other false e kept = kept

pub next_pending-Keeps :
    (now : ℕ) (pending : Option Item) (w : Writer)
    → IsPast w.playback.epoch pending
    → Keeps w (live_pending w.playback.epoch pending) (next_pending now pending w)
next_pending-Keeps now none w past = next_round-Keeps w
next_pending-Keeps now (some item) w past =
    finished-Keeps w _ _ w.playback.stopped refl (taken-Keeps now item w past)

by_end-Keeps :
    (now : ℕ) (item : Item) (w : Writer) (kind : Kind)
    → item.kind ≡ kind
    → item.epoch ≤ w.playback.epoch
    → Keeps w (live w.playback.epoch item) (
        if Writer.is_end kind
        then waits_for (Waits.to_end_batch item) w
        else next_pending now (some item) w)
by_end-Keeps now item w Kind.playback_start e past = next_pending-Keeps now (some item) w past
by_end-Keeps now item w Kind.playback_end e past = waits-Keeps (Waits.to_end_batch item) w (e, past)
by_end-Keeps now item w Kind.audio e past = next_pending-Keeps now (some item) w past

pub behind_batch-Keeps :
    (now : ℕ) (pending : Option Item) (w : Writer)
    → IsPast w.playback.epoch pending
    → Keeps w (live_pending w.playback.epoch pending) (behind_batch now pending w)
behind_batch-Keeps now none w past = next_round-Keeps w
behind_batch-Keeps now (some item) w past = by_end-Keeps now item w item.kind refl past

live_pending-kept :
    (pending : Option Item) (w : Writer)
    → live_pending w.playback.epoch (kept pending w) ≡ live_pending w.playback.epoch pending
live_pending-kept none w = refl
live_pending-kept (some item) w = ground arith

kept-IsPast :
    (pending : Option Item) (w : Writer)
    → IsPast w.playback.epoch pending
    → IsPast w.playback.epoch (kept pending w)
kept-IsPast none w past = tt
kept-IsPast (some item) w past = if_both (IsPast w.playback.epoch) (is_stale item.epoch w) tt past

to_batch-Keeps :
    (now : ℕ) (reason : Reason) (own : ℕ) (frames : List (List ℕ)) (pending : Option Item)
    (w : Writer)
    → own ≤ w.playback.epoch
    → IsPast w.playback.epoch pending
    → Keeps w
        (live_batch w.playback.epoch own frames ++ live_pending w.playback.epoch pending)
        (to_batch now reason own frames pending w)
unfolding join
to_batch-Keeps now reason own [] pending w own_past past =
    Keeps-eq w _ _ _ (ground arith) (behind_batch-Keeps now pending w past)
to_batch-Keeps now reason own (frame ∷ frames) pending w own_past past =
    waits-Keeps (Waits.to_send_batch reason own (frame ∷ frames) pending) w (own_past, past)

-- What was counted and the next time of sending are none of its concern.
pub same-Keeps :
    (w counted v : Writer) (held : List Symbol)
    → counted.sent ≡ w.sent
    → counted.playback.stopped ≡ w.playback.stopped
    → shape_of counted.playback ≡ shape_of w.playback
    → Keeps counted held v
    → Keeps w held v
same-Keeps w counted v held sent stop shape kept = record {
  sent_kept = kept.sent_kept ∙ sent;
  shape_kept = kept.shape_kept ∙ shape;
  fits = kept.fits;
  waiting_kept =
      kept.waiting_kept
      ∙ ap (λ s. lined counted.playback.stopped held (queued s.queue)) shape
      ∙ ap (λ b. lined b held (queued w.playback.queue)) stop;
}

pub gathered-Keeps :
    (now : ℕ) (reason : Reason) (own : ℕ) (frames : List (List ℕ)) (pending : Option Item)
    (w : Writer)
    → own ≤ w.playback.epoch
    → IsPast w.playback.epoch pending
    → Keeps w
        (live_batch w.playback.epoch own frames ++ live_pending w.playback.epoch pending)
        (gathered now reason own frames pending w)
gathered-Keeps now reason own frames pending w own_past past =
    by_epoch-Keeps w (own == w.playback.epoch) (map sample (join frames))
      (live_pending w.playback.epoch pending) _ _
      (Keeps-eq w _ _ _ (live_pending-kept pending w) (
        same-Keeps w (restarts_at now (interrupted (length frames) w)) _ _ refl refl refl (
          next_pending-Keeps now (kept pending w) (restarts_at now (interrupted (length frames) w))
            (kept-IsPast pending w past))))
      (to_batch-Keeps now reason own frames pending w own_past past)
