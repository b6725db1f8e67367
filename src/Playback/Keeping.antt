-- ===== src/Playback/Keeping.antt =====
-- What the writer of src/hfp_mcp/audio/gemini_playback.py holds while it sends nothing.
use hermes_phone_hfp.Prelude.{
  ℕ, ◌+◌, ◌≤◌, Option, none, some, List, [], ◌∷◌, ◌++◌, map, leb, ◌≡◌, refl, ap, arith, if_both,
}
use mathlib.Core.Path.{subst}
use mathlib.Core.List.{append-nil}
use hermes_phone_hfp.Playback.{Kind, Item}
use hermes_phone_hfp.Playback.Writer.{
  Waits, Writer, Reason, next_round, paced, kept, waits_for, join, lateness_counted, late,
}
use hermes_phone_hfp.Playback.Bounds.{shape_of}
use hermes_phone_hfp.Playback.Stream.{
  Symbol, sample, symbols_of, live, live_batch, in_hand, lined, queued,
}

-- What each wait is about. No epoch of it is yet to come.
abbrev pub IsPast : ℕ → Option Item → Type 0
IsPast epoch none = Unit
IsPast epoch (some item) = item.epoch ≤ epoch

abbrev pub Fits : ℕ → Waits → Type 0
Fits epoch (Waits.for_time item) = (item.kind ≡ Kind.audio) × (item.epoch ≤ epoch)
Fits epoch (Waits.for_batch reason own deadline frames) = own ≤ epoch
Fits epoch (Waits.to_send_start item) = (item.kind ≡ Kind.playback_start) × (item.epoch ≤ epoch)
Fits epoch (Waits.to_send_end item) = (item.kind ≡ Kind.playback_end) × (item.epoch ≤ epoch)
Fits epoch (Waits.to_end_batch item) = (item.kind ≡ Kind.playback_end) × (item.epoch ≤ epoch)
Fits epoch (Waits.to_send_batch reason own frames pending) = (own ≤ epoch) × IsPast epoch pending
Fits epoch (Waits.to_send_frame item) = (item.kind ≡ Kind.audio) × (item.epoch ≤ epoch)
Fits _ _ = Unit

-- The writer goes on from `w` to `v` with these symbols in its hand, and sends nothing.
pub record Keeps (w : Writer) (held : List Symbol) (v : Writer) : Type 0 where
  pub sent_kept : v.sent ≡ w.sent
  pub shape_kept : shape_of v.playback ≡ shape_of w.playback
  pub fits : Fits v.playback.epoch v.waits
  pub waiting_kept :
      lined v.playback.stopped (in_hand v.playback.epoch v.waits) (queued v.playback.queue)
      ≡ lined w.playback.stopped held (queued w.playback.queue)

pub next_round-Keeps : (w : Writer) → Keeps w [] (next_round w)
next_round-Keeps w = record {
  sent_kept = refl;
  shape_kept = refl;
  fits = if_both (Fits w.playback.epoch) w.playback.stopped tt tt;
  waiting_kept = ground arith;
}

pub waits-Keeps :
    (next : Waits) (w : Writer)
    → Fits w.playback.epoch next
    → Keeps w (in_hand w.playback.epoch next) (waits_for next w)
waits-Keeps next w fit = record {
  sent_kept = refl;
  shape_kept = refl;
  fits = fit;
  waiting_kept = refl;
}

pub Keeps-eq :
    (w v : Writer) (held other : List Symbol) → held ≡ other → Keeps w held v → Keeps w other v
Keeps-eq w v held other same kept = subst (λ xs. Keeps w xs v) same kept

pub lateness-Keeps :
    (lateness : ℕ) (next : Waits) (w : Writer)
    → Fits w.playback.epoch next
    → Keeps w (in_hand w.playback.epoch next) (waits_for next (lateness_counted lateness w))
lateness-Keeps lateness next w fit =
    if_both (λ v. Keeps w (in_hand w.playback.epoch next) (waits_for next v)) (leb 500 lateness)
      (record { sent_kept = refl; shape_kept = refl; fits = fit; waiting_kept = refl })
      (record { sent_kept = refl; shape_kept = refl; fits = fit; waiting_kept = refl })

pub map_sample-append : (xs ys : List ℕ) → map sample (xs ++ ys) ≡ map sample xs ++ map sample ys
map_sample-append [] ys = refl
map_sample-append (x ∷ xs) ys = ap (λ zs. sample x ∷ zs) (map_sample-append xs ys)

pub symbols_of-audio :
    (item : Item) → item.kind ≡ Kind.audio → symbols_of item ≡ map sample item.pcm
symbols_of-audio item audio = rw audio refl

pub join-one : (pcm : List ℕ) → join (pcm ∷ []) ≡ pcm
unfolding join
join-one pcm = append-nil pcm

pub live_batch-one :
    (epoch : ℕ) (item : Item)
    → item.kind ≡ Kind.audio
    → live_batch epoch item.epoch (item.pcm ∷ []) ≡ live epoch item
live_batch-one epoch item audio = rw (join-one item.pcm, symbols_of-audio item audio) refl

pub paced-Keeps :
    (now : ℕ) (item : Item) (w : Writer)
    → item.kind ≡ Kind.audio
    → item.epoch ≤ w.playback.epoch
    → Keeps w (live w.playback.epoch item) (paced now item w)
paced-Keeps now item w audio past =
    if_both (Keeps w (live w.playback.epoch item)) (leb 80000 (late now w))
      (Keeps-eq w _ _ _ (live_batch-one w.playback.epoch item audio) (
        lateness-Keeps (late now w)
          (Waits.for_batch Reason.rebuffering item.epoch (now + 120000) (item.pcm ∷ [])) w past))
      (lateness-Keeps (late now w) (Waits.to_send_frame item) w (audio, past))
