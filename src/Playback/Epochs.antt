-- ===== src/Playback/Epochs.antt =====
-- In the next epoch of src/hfp_mcp/audio/gemini_playback.py nothing that the writer holds counts.
use hermes_phone_hfp.Prelude.{ℕ, suc, ◌≤◌, Option, none, some, List, [], ◌≡◌, refl, arith}
use hermes_phone_hfp.Playback.{Item}
use hermes_phone_hfp.Playback.Writer.{Waits}
use hermes_phone_hfp.Playback.Stream.{live, live_pending, live_batch, in_hand}
use hermes_phone_hfp.Playback.Delivery.{Fits, IsPast}

-- In the next epoch nothing in the hand counts.
pub live-next : (epoch : ℕ) (item : Item) → item.epoch ≤ epoch → live (suc epoch) item ≡ []
live-next epoch item past = ground (arith, past)

pub live_pending-next :
    (epoch : ℕ) (pending : Option Item)
    → IsPast epoch pending
    → live_pending (suc epoch) pending ≡ []
live_pending-next epoch none past = refl
live_pending-next epoch (some item) past = live-next epoch item past

pub live_batch-next :
    (epoch own : ℕ) (frames : List (List ℕ)) → own ≤ epoch → live_batch (suc epoch) own frames ≡ []
live_batch-next epoch own frames past = ground (arith, past)

pub in_hand-next : (epoch : ℕ) (waits : Waits) → Fits epoch waits → in_hand (suc epoch) waits ≡ []
in_hand-next epoch Waits.for_item fits = refl
in_hand-next epoch (Waits.for_time item) fits = live-next epoch item fits.1
in_hand-next epoch (Waits.for_batch reason own deadline frames) fits =
    live_batch-next epoch own frames fits
in_hand-next epoch (Waits.to_send_start item) fits = live-next epoch item fits.1
in_hand-next epoch (Waits.to_send_end item) fits = live-next epoch item fits.1
in_hand-next epoch (Waits.to_end_batch item) fits = live-next epoch item fits.1
in_hand-next epoch (Waits.to_send_batch reason own frames pending) fits =
    rw (live_batch-next epoch own frames fits.0, live_pending-next epoch pending fits.1) refl
in_hand-next epoch (Waits.to_send_frame item) fits = live-next epoch item fits.1
in_hand-next epoch Waits.finished fits = refl

pub IsPast-next :
    (epoch : ℕ) (pending : Option Item) → IsPast epoch pending → IsPast (suc epoch) pending
IsPast-next epoch none past = tt
IsPast-next epoch (some item) past = omega (arith, past)

pub Fits-next : (epoch : ℕ) (waits : Waits) → Fits epoch waits → Fits (suc epoch) waits
Fits-next epoch Waits.for_item fits = tt
Fits-next epoch (Waits.for_time item) fits = (fits.0, omega (arith, fits.1))
Fits-next epoch (Waits.for_batch reason own deadline frames) fits = omega (arith, fits)
Fits-next epoch (Waits.to_send_start item) fits = (fits.0, omega (arith, fits.1))
Fits-next epoch (Waits.to_send_end item) fits = (fits.0, omega (arith, fits.1))
Fits-next epoch (Waits.to_end_batch item) fits = (fits.0, omega (arith, fits.1))
Fits-next epoch (Waits.to_send_batch reason own frames pending) fits =
    (omega (arith, fits.0), IsPast-next epoch pending fits.1)
Fits-next epoch (Waits.to_send_frame item) fits = (fits.0, omega (arith, fits.1))
Fits-next epoch Waits.finished fits = tt
