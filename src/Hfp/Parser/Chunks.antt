-- ===== src/Hfp/Parser/Chunks.antt =====
-- `ATParser.feed` and the way in which the bytes are cut.
use hermes_phone_hfp.Prelude.{
  ℕ, zero, suc, ◌+◌, ◌≤◌, ◌<◌, false, none, some, List, [], ◌∷◌, ◌++◌, length, length-append, ltb,
  ◌≡◌, refl, sym, ◌∙◌, arith, Option-cases, inl, inr, if◌then◌else◌,
}
use hermes_phone_hfp.Prelude.Result.{ok, err}
use hermes_phone_hfp.Hfp.Line.{ParsedAt}
use hermes_phone_hfp.Hfp.Parser.{
  Bytes, AtParser, frame_exceeded, split_crlf, frame_events, Scan, prefixed, scan, feed,
}
use mathlib.Core.List.{append_assoc}

-- What is behind the delimiter is shorter by it.
pub split-length :
    (x before after : Bytes)
    → split_crlf x ≡ some (before, after)
    → length x ≡ length before + 2 + length after
unfolding split_crlf
split-length [] b a e = ground arith
split-length (c ∷ []) b a e = ground arith
split-length (c ∷ d ∷ rest) [] a e = ground arith
split-length (c ∷ d ∷ rest) (b ∷ bs) a e = ground (arith, split-length (d ∷ rest) bs a)

-- The first delimiter stays the first when bytes follow.
pub split-append :
    (x y before after : Bytes)
    → split_crlf x ≡ some (before, after)
    → split_crlf (x ++ y) ≡ some (before, after ++ y)
unfolding split_crlf
split-append [] y b a e = ground arith
split-append (c ∷ []) y b a e = ground arith
split-append (c ∷ d ∷ rest) y [] a e = ground arith
split-append (c ∷ d ∷ rest) y (b ∷ bs) a e = ground (arith, split-append (d ∷ rest) y bs a)

prefixed-nil : (m : Scan) → prefixed [] m ≡ m
prefixed-nil (ok (fs, r)) = refl
prefixed-nil (err e) = refl

prefixed-append :
    (es fs : List ParsedAt) (m : Scan) → prefixed es (prefixed fs m) ≡ prefixed (es ++ fs) m
prefixed-append es fs (ok (gs, r)) = rw append_assoc
prefixed-append es fs (err e) = refl

-- The three ways in which a round ends.
module _ (limit f : ℕ) (x : Bytes) where
  pub scan-shut : split_crlf x ≡ none → scan limit (suc f) x ≡ ok ([], x)
  unfolding scan
  scan-shut e = ground arith

  pub scan-partial :
      (noise opened : Bytes)
      → split_crlf x ≡ some (noise, opened)
      → split_crlf opened ≡ none
      → scan limit (suc f) x
        ≡ (if ltb limit (length opened) then err frame_exceeded else ok ([], 13 ∷ 10 ∷ opened))
  unfolding scan
  scan-partial noise opened e e' = ground arith

  pub scan-frame :
      (noise opened frame rest : Bytes)
      → split_crlf x ≡ some (noise, opened)
      → split_crlf opened ≡ some (frame, rest)
      → scan limit (suc f) x ≡ (
          if ltb limit (length frame)
          then err frame_exceeded
          else prefixed (frame_events frame) (scan limit f rest))
  unfolding scan
  scan-frame noise opened frame rest e e' = ground arith

-- How a buffer reads: no delimiter, an open frame, or a frame and what follows it.
pub data Reading (x : Bytes) : Type 0 where
  shut : split_crlf x ≡ none → Reading x
  open_frame :
      (noise opened : Bytes)
      → split_crlf x ≡ some (noise, opened)
      → split_crlf opened ≡ none
      → Reading x
  framed :
      (noise opened frame rest : Bytes)
      → split_crlf x ≡ some (noise, opened)
      → split_crlf opened ≡ some (frame, rest)
      → Reading x

pub read : (x : Bytes) → Reading x
read x = elim (Option-cases (split_crlf x)) [
  | inl e ↦ shut e
  | inr ((noise, opened), e) ↦ elim (Option-cases (split_crlf opened)) [
    | inl e' ↦ open_frame noise opened e e'
    | inr ((frame, rest), e') ↦ framed noise opened frame rest e e'
  ]
]

pub framed-length :
    (x noise opened frame rest : Bytes)
    → split_crlf x ≡ some (noise, opened)
    → split_crlf opened ≡ some (frame, rest)
    → length rest + 4 ≤ length x
framed-length x noise opened frame rest e e' =
    omega (arith, split-length x noise opened e, split-length opened frame rest e')

-- Fuel above the length of the buffer is enough.
pub scan_fuel :
    (limit f g : ℕ) (x : Bytes) → length x < f → length x < g → scan limit f x ≡ scan limit g x
scan_fuel limit zero g x hf hg = elim hf [ ]
scan_fuel limit (suc f) zero x hf hg = elim hg [ ]
scan_fuel limit (suc f) (suc g) x hf hg = elim (read x) [
  | shut e ↦ rw (scan-shut limit f x e, scan-shut limit g x e)
  | open_frame n o e e' ↦ rw (scan-partial limit f x n o e e', scan-partial limit g x n o e e')
  | framed n o frame rest e e' ↦
      let shorter = framed-length x n o frame rest e e' in
      rw (
        scan-frame limit f x n o frame rest e e',
        scan-frame limit g x n o frame rest e e',
        scan_fuel limit f g rest (omega (arith, shorter)) (omega (arith, shorter)),
      )
]

pub prefixed-eq-ok :
    (es : List ParsedAt) (m : Scan) (fs : List ParsedAt) (kept : Bytes)
    → prefixed es m ≡ ok (fs, kept)
    → (gs : List ParsedAt) × (m ≡ ok (gs, kept)) × (fs ≡ es ++ gs)
prefixed-eq-ok es (ok (gs, r)) fs kept h = (gs, ground arith, ground arith)
prefixed-eq-ok es (err e) fs kept h = cc

pub split-crlf : (x : Bytes) → split_crlf (13 ∷ 10 ∷ x) ≡ some ([], x)
unfolding split_crlf
split-crlf x = refl

-- Bytes before the first delimiter are ignored.
pub scan-noise :
    (limit f : ℕ) (x noise opened : Bytes)
    → split_crlf x ≡ some (noise, opened)
    → scan limit (suc f) x ≡ scan limit (suc f) (13 ∷ 10 ∷ opened)
unfolding scan
scan-noise limit f x noise opened e = ground (arith, split-crlf opened)

-- A scan that stopped without an error goes on, when bytes follow, from what it kept.
abbrev pub Continues : ℕ → ℕ → Bytes → Bytes → List ParsedAt → Bytes → Type 0
Continues limit g x y es kept =
    (scan limit g (x ++ y) ≡ prefixed es (scan limit g (kept ++ y))) × (length kept ≤ length x)

open_frame-Continues :
    (limit g : ℕ) (x y noise opened : Bytes)
    → split_crlf x ≡ some (noise, opened)
    → Continues limit (suc g) x y [] (13 ∷ 10 ∷ opened)
open_frame-Continues limit g x y noise opened e = (
  scan-noise limit g (x ++ y) noise (opened ++ y) (split-append x y noise opened e)
      ∙ sym (prefixed-nil _),
  omega (arith, split-length x noise opened e),
)

scan-Continues :
    (limit f g : ℕ) (x y : Bytes) (es : List ParsedAt) (kept : Bytes)
    → length x < f
    → length (x ++ y) < g
    → scan limit f x ≡ ok (es, kept)
    → Continues limit g x y es kept
scan-Continues limit zero g x y es kept hf hg done = elim hf [ ]
scan-Continues limit (suc f) zero x y es kept hf hg done = elim hg [ ]
scan-Continues limit (suc f) (suc g) x y es kept hf hg done = elim (read x) [
  | shut e ↦
      let known : scan limit (suc f) x ≡ ok ([], x) = scan-shut limit f x e in
      let e1 : [] ≡ es = ground (arith, known) in
      let e2 : x ≡ kept = ground (arith, known) in
      rw (← e1, ← e2) (sym (prefixed-nil _), omega arith)
  | open_frame n o e e' ↦
      let known = scan-partial limit f x n o e e' in
      let e1 : [] ≡ es = ground (arith, known) in
      let e2 : 13 ∷ 10 ∷ o ≡ kept = ground (arith, known) in
      rw (← e1, ← e2) (open_frame-Continues limit g x y n o e)
  | framed n o frame rest e e' ↦
      let known = scan-frame limit f x n o frame rest e e' in
      let shorter = framed-length x n o frame rest e e' in
      let fits : ltb limit (length frame) ≡ false = ground (arith, known) in
      let split : prefixed (frame_events frame) (scan limit f rest) ≡ ok (es, kept) =
        ground (arith, known) in
      let (gs, inner, e_es) =
        prefixed-eq-ok (frame_events frame) (scan limit f rest) es kept split in
      let room : length (rest ++ y) + 4 ≤ length (x ++ y) =
        omega (arith, length-append rest y, length-append x y, shorter) in
      let ih =
        scan-Continues limit f g rest y gs kept (omega (arith, shorter)) (omega (arith, room))
          inner in
      let joined =
        scan-frame limit g (x ++ y) n (o ++ y) frame (rest ++ y) (split-append x y n o e)
          (split-append o y frame rest e') in
      let enough : scan limit g (kept ++ y) ≡ scan limit (suc g) (kept ++ y) =
        scan_fuel limit g (suc g) (kept ++ y)
          (omega (arith, length-append kept y, length-append rest y, ih.1, room))
          (omega (arith, length-append kept y, length-append rest y, ih.1, room)) in
      (
        joined ∙ rw (fits, ih.0, enough, e_es) (prefixed-append (frame_events frame) gs _),
        omega (arith, ih.1, shorter),
      )
]

abbrev scan_all : AtParser → Bytes → Scan
scan_all p buf = scan p.max_frame_bytes (suc (length buf)) buf

-- A call of `feed` that succeeds is a scan of the buffer with the input behind it.
pub feed-eq-ok :
    (p q : AtParser) (x : Bytes) (es : List ParsedAt)
    → feed p x ≡ (ok es, q)
    → (kept : Bytes) × (scan_all p (p.buf ++ x) ≡ ok (es, kept)) × (q ≡ record p { buf = kept })
unfolding feed
feed-eq-ok p q x es h = inspect (scan_all p (p.buf ++ x)) refl
  where
    inspect :
        (m : Scan)
        → scan_all p (p.buf ++ x) ≡ m
        → (kept : Bytes) × (scan_all p (p.buf ++ x) ≡ ok (es, kept)) × (q ≡ record p { buf = kept })
    inspect (ok (fs, kept)) e = (kept, ground arith, ground arith)
    inspect (err why) e = absurd (ground arith)

pub feed-of-scan :
    (p : AtParser) (x : Bytes) (es : List ParsedAt) (kept : Bytes)
    → length p.buf + length x ≤ p.max_buffer_bytes
    → scan_all p (p.buf ++ x) ≡ ok (es, kept)
    → feed p x ≡ (ok es, record p { buf = kept })
unfolding feed
feed-of-scan p x es kept room e = ground arith

-- Cutting the input does not matter: where the parser takes two pieces one after the other, and
-- the buffer limit leaves room for both as one, the one piece gives the events of both, in order,
-- and leaves the same parser.
pub feed-append :
    (p q r : AtParser) (x y : Bytes) (es fs : List ParsedAt)
    → feed p x ≡ (ok es, q)
    → feed q y ≡ (ok fs, r)
    → length p.buf + length (x ++ y) ≤ p.max_buffer_bytes
    → feed p (x ++ y) ≡ (ok (es ++ fs), r)
feed-append p q r x y es fs first second room =
    let (kept, e, eq) = feed-eq-ok p q x es first in
    let (left, e', er) = feed-eq-ok q r y fs second in
    let whole = p.buf ++ (x ++ y) in
    let joined =
      scan-Continues p.max_frame_bytes (suc (length (p.buf ++ x)))
        (suc (length ((p.buf ++ x) ++ y))) (p.buf ++ x) y es kept (omega arith) (omega arith) e in
    let assoc : whole ≡ (p.buf ++ x) ++ y = sym (append_assoc p.buf x y) in
    let bound : length (kept ++ y) < suc (length ((p.buf ++ x) ++ y)) =
      omega (arith, length-append kept y, length-append (p.buf ++ x) y, joined.1) in
    let tail : scan p.max_frame_bytes (suc (length ((p.buf ++ x) ++ y))) (kept ++ y)
        ≡ ok (fs, left) =
      scan_fuel p.max_frame_bytes (suc (length ((p.buf ++ x) ++ y))) (suc (length (kept ++ y)))
        (kept ++ y) bound (omega arith)
      ∙ (rw eq at e') in
    rw er (rw eq (feed-of-scan p (x ++ y) (es ++ fs) left room (rw assoc (joined.0 ∙ rw tail))))
