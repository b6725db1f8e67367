-- ===== src/Playback/Frames.antt =====
-- What a call that enqueues in src/hfp_mcp/audio/gemini_playback.py leaves in the queue.
use hermes_phone_hfp.Prelude.{
  ℕ, zero, suc, ◌+◌, ◌-◌, ◌*◌, ◌≤◌, Bool, true, false, ◌||◌, Option, List, [], ◌∷◌, ◌++◌, leb, ◌==◌,
  length, length-append, take, drop, All, ◌≡◌, refl, ap, sym, ◌∙◌, arith, if◌then◌else◌,
}
use mathlib.Core.List.{append_assoc, append-nil}
use hermes_phone_hfp.Prelude.Text.{Text}
use hermes_phone_hfp.Prelude.Result.{ok}
use hermes_phone_hfp.Playback.Writer.{is_audio}
use hermes_phone_hfp.Playback.Bounds.{IsWhole, audio_count}
use hermes_phone_hfp.Playback.{
  Kind, Item, Playback, and_then, put_nowait, put_frames, is_full, audio_item,
}

-- The items of so many frames.
unfoldable pub frame_items : ℕ → Option Text → List ℕ → ℕ → List Item
frame_items zero window_id combined epoch = []
frame_items (suc n) window_id combined epoch =
    record { epoch = epoch; kind = Kind.audio; window_id = window_id; pcm = take 320 combined }
    ∷ frame_items n window_id (drop 320 combined) epoch

abbrev pub with_items : List Item → Playback → Playback
with_items items p = record p { queue = p.queue ++ items }

abbrev pub room_for : ℕ → Playback → Bool
room_for n p = p.max_items == 0 || leb (length p.queue + n) p.max_items

not_full : (n : ℕ) (p : Playback) → room_for (suc n) p ≡ true → is_full p ≡ false
not_full n p room = ground (arith, room)

pub put_nowait-room :
    (n : ℕ) (item : Item) (p : Playback)
    → room_for (suc n) p ≡ true
    → put_nowait item p ≡ (ok tt, with_items (item ∷ []) p)
unfolding put_nowait
put_nowait-room n item p room = rw (not_full n p room) refl

room_less :
    (n : ℕ) (item : Item) (p : Playback)
    → room_for (suc n) p ≡ true
    → room_for n (with_items (item ∷ []) p) ≡ true
room_less n item p room = rw (length-append p.queue (item ∷ [])) (ground (arith, room))

-- The test for room is enough: no frame finds the queue full.
pub put_frames-room :
    (n : ℕ) (window_id : Option Text) (combined : List ℕ) (p : Playback)
    → room_for n p ≡ true
    → put_frames n window_id combined p
      ≡ (ok tt, with_items (frame_items n window_id combined p.epoch) p)
unfolding put_frames frame_items
put_frames-room zero window_id combined p room =
    ap (λ items. (ok tt, record p { queue = items })) (sym (append-nil p.queue))
put_frames-room (suc n) window_id combined p room =
    let item = audio_item window_id (take 320 combined) p in
    ap (λ answer. and_then answer (put_frames n window_id (drop 320 combined)))
      (put_nowait-room n item p room)
    ∙ put_frames-room n window_id (drop 320 combined) (with_items (item ∷ []) p)
        (room_less n item p room)
    ∙ ap (λ items. (ok tt, record p { queue = items }))
        (append_assoc p.queue (item ∷ []) (frame_items n window_id (drop 320 combined) p.epoch))

take-drop : {A : Type 0} (k : ℕ) (xs : List A) → take k xs ++ drop k xs ≡ xs
take-drop zero xs = refl
take-drop (suc k) [] = refl
take-drop (suc k) (x ∷ xs) = ap (λ ys. x ∷ ys) (take-drop k xs)

length-take_enough : {A : Type 0} (k : ℕ) (xs : List A) → k ≤ length xs → length (take k xs) ≡ k
length-take_enough zero xs h = refl
length-take_enough (suc k) [] h = omega (arith, h)
length-take_enough (suc k) (x ∷ xs) h = omega (arith, length-take_enough k xs (omega (arith, h)))

pub length-drop : {A : Type 0} (k : ℕ) (xs : List A) → length (drop k xs) ≡ length xs - k
length-drop zero xs = omega arith
length-drop (suc k) [] = omega arith
length-drop (suc k) (x ∷ xs) = omega (arith, length-drop k xs)

drop_nil : {A : Type 0} (k : ℕ) → drop {A = A} k [] ≡ []
drop_nil zero = refl
drop_nil (suc k) = refl

drop_more : {A : Type 0} (k j : ℕ) (xs : List A) → drop (k + j) xs ≡ drop j (drop k xs)
drop_more zero j xs = ap (λ n. drop n xs) (omega arith)
drop_more (suc k) j [] = drop_nil (suc k + j) ∙ sym (drop_nil j)
drop_more (suc k) j (x ∷ xs) = ap (λ n. drop n (x ∷ xs)) (sum_suc k j) ∙ drop_more k j xs
  where
    sum_suc : (k j : ℕ) → suc k + j ≡ suc (k + j)
    sum_suc k j = omega arith

-- The bytes of the frames in a queue.
unfoldable pub pcm_of : List Item → List ℕ
pcm_of [] = []
pcm_of (item ∷ items) = (if is_audio item.kind then item.pcm else []) ++ pcm_of items

pub pcm_of-append : (items more : List Item) → pcm_of (items ++ more) ≡ pcm_of items ++ pcm_of more
unfolding pcm_of
pcm_of-append [] more = refl
pcm_of-append (item ∷ items) more =
    ap (λ xs. (if is_audio item.kind then item.pcm else []) ++ xs) (pcm_of-append items more)
    ∙ sym (append_assoc (if is_audio item.kind then item.pcm else []) (pcm_of items) (pcm_of more))

-- The frames and what is left over are the bytes.
pub pcm_of-frame_items :
    (n : ℕ) (window_id : Option Text) (combined : List ℕ) (epoch : ℕ)
    → pcm_of (frame_items n window_id combined epoch) ++ drop (n * 320) combined ≡ combined
unfolding pcm_of frame_items
pcm_of-frame_items zero window_id combined epoch = refl
pcm_of-frame_items (suc n) window_id combined epoch =
    append_assoc (take 320 combined) (pcm_of (frame_items n window_id (drop 320 combined) epoch))
      (drop (suc n * 320) combined)
    ∙ ap
        (λ xs.
          take 320 combined ++ (pcm_of (frame_items n window_id (drop 320 combined) epoch) ++ xs))
        (ap (λ k. drop k combined) (omega arith) ∙ drop_more 320 (n * 320) combined)
    ∙ ap (λ xs. take 320 combined ++ xs) (pcm_of-frame_items n window_id (drop 320 combined) epoch)
    ∙ take-drop 320 combined

pub frame_items-IsWhole :
    (n : ℕ) (window_id : Option Text) (combined : List ℕ) (epoch : ℕ)
    → n * 320 ≤ length combined
    → All IsWhole (frame_items n window_id combined epoch)
unfolding frame_items
frame_items-IsWhole zero window_id combined epoch h = tt
frame_items-IsWhole (suc n) window_id combined epoch h = (
  ground (arith, length-take_enough 320 combined (omega (arith, h))),
  frame_items-IsWhole n window_id (drop 320 combined) epoch
      (omega (arith, h, length-drop 320 combined)),
)

-- A frame of 320 bytes.
abbrev pub IsFrame : Option Text → ℕ → Item → Type 0
IsFrame window_id epoch item =
    (is_audio item.kind ≡ true)
    × (length item.pcm ≡ 320)
    × (item.window_id ≡ window_id)
    × (item.epoch ≡ epoch)

pub frame_items-IsFrame :
    (n : ℕ) (window_id : Option Text) (combined : List ℕ) (epoch : ℕ)
    → n * 320 ≤ length combined
    → All (IsFrame window_id epoch) (frame_items n window_id combined epoch)
unfolding frame_items
frame_items-IsFrame zero window_id combined epoch h = tt
frame_items-IsFrame (suc n) window_id combined epoch h = (
  (refl, length-take_enough 320 combined (omega (arith, h)), refl, refl),
  frame_items-IsFrame n window_id (drop 320 combined) epoch
      (omega (arith, h, length-drop 320 combined)),
)

pub frame_items-epoch :
    (n : ℕ) (window_id : Option Text) (combined : List ℕ) (epoch : ℕ)
    → All (λ item. item.epoch ≡ epoch) (frame_items n window_id combined epoch)
unfolding frame_items
frame_items-epoch zero window_id combined epoch = tt
frame_items-epoch (suc n) window_id combined epoch =
    (refl, frame_items-epoch n window_id (drop 320 combined) epoch)

pub audio_count-frame_items :
    (n : ℕ) (window_id : Option Text) (combined : List ℕ) (epoch : ℕ)
    → audio_count (frame_items n window_id combined epoch) ≡ n
unfolding frame_items audio_count
audio_count-frame_items zero window_id combined epoch = refl
audio_count-frame_items (suc n) window_id combined epoch =
    omega (arith, audio_count-frame_items n window_id (drop 320 combined) epoch)

pub length-frame_items :
    (n : ℕ) (window_id : Option Text) (combined : List ℕ) (epoch : ℕ)
    → length (frame_items n window_id combined epoch) ≡ n
unfolding frame_items
length-frame_items zero window_id combined epoch = refl
length-frame_items (suc n) window_id combined epoch =
    omega (arith, length-frame_items n window_id (drop 320 combined) epoch)
