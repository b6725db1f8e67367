-- ===== src/Hfp/Parser/Frames.antt =====
-- What `ATParser.feed` keeps, and the framing `CR LF <content> CR LF` of src/hfp_mcp/hfp/protocol.py.
use hermes_phone_hfp.Prelude.{
  ℕ, zero, suc, ◌+◌, ◌≤◌, ◌<◌, false, none, some, List, [], ◌∷◌, ◌++◌, length, length-append, ◌==◌,
  ltb, ◌≡◌, refl, ap, ◌∙◌, arith, Bool-cases, inl, inr, All,
}
use hermes_phone_hfp.Prelude.Result.{Result, ok, err}
use hermes_phone_hfp.Hfp.Line.{ParsedAt}
use hermes_phone_hfp.Hfp.Parser.{
  Bytes, AtParser, AtProtocolError, frame_exceeded, split_crlf, frame_events, Scan, scan, feed,
  after_scan,
}
use hermes_phone_hfp.Hfp.Parser.Chunks.{
  split-crlf, shut, open_frame, framed, read, split-length, scan-shut, scan-partial, scan-frame,
  framed-length, prefixed-eq-ok, feed-of-scan,
}

-- What a parser may hold between two calls: at most its buffer limit.
abbrev pub IsBounded : AtParser → Type 0
IsBounded p = length p.buf ≤ p.max_buffer_bytes

scan-length :
    (limit f : ℕ) (x : Bytes) (es : List ParsedAt) (kept : Bytes)
    → scan limit f x ≡ ok (es, kept)
    → length kept ≤ length x
unfolding scan
scan-length limit zero x es kept done = ground arith
scan-length limit (suc f) x es kept done = elim (read x) [
  | shut e ↦ ground (arith, scan-shut limit f x e)
  | open_frame n o e e' ↦ ground (arith, scan-partial limit f x n o e e', split-length x n o e)
  | framed n o frame rest e e' ↦
      let (gs, inner, _) =
        prefixed-eq-ok (frame_events frame) (scan limit f rest) es kept
          (ground (arith, scan-frame limit f x n o frame rest e e')) in
      omega (arith, scan-length limit f rest gs kept inner, framed-length x n o frame rest e e')
]

-- After an error nothing is kept.
abbrev pub IsClearedBy : Result AtProtocolError (List ParsedAt) → Bytes → Type 0
IsClearedBy (ok events) kept = Unit
IsClearedBy (err why) kept = kept ≡ []

abbrev Keeps : AtParser → Result AtProtocolError (List ParsedAt) × AtParser → Type 0
Keeps p (result, q) =
    (q.max_buffer_bytes ≡ p.max_buffer_bytes)
    × (q.max_frame_bytes ≡ p.max_frame_bytes)
    × IsBounded q
    × IsClearedBy result q.buf

after_scan-Keeps :
    (p : AtParser) (x : Bytes) (m : Scan)
    → length p.buf + length x ≤ p.max_buffer_bytes
    → scan p.max_frame_bytes (suc (length (p.buf ++ x))) (p.buf ++ x) ≡ m
    → Keeps p (after_scan p m)
after_scan-Keeps p x (ok (es, kept)) room e = (
  refl,
  refl,
  omega (
    arith,
    scan-length p.max_frame_bytes (suc (length (p.buf ++ x))) (p.buf ++ x) es kept e,
    length-append p.buf x,
  ),
  tt,
)
after_scan-Keeps p x (err why) room e = (refl, refl, omega arith, refl)

-- `feed` keeps the two limits, never holds more than the buffer limit whatever it is given, and
-- holds nothing after an error.
pub feed-IsBounded :
    (p : AtParser) (x : Bytes)
    → ((feed p x).1.max_buffer_bytes ≡ p.max_buffer_bytes)
      × ((feed p x).1.max_frame_bytes ≡ p.max_frame_bytes)
      × IsBounded (feed p x).1
      × IsClearedBy (feed p x).0 (feed p x).1.buf
unfolding feed
feed-IsBounded p x = elim (Bool-cases (ltb p.max_buffer_bytes (length p.buf + length x))) [
  | inl full ↦ rw full (refl, refl, omega arith, refl)
  | inr room ↦ rw room (after_scan-Keeps p x _ (ground arith) refl)
]

-- A content without a carriage return.
abbrev pub IsContent : Bytes → Type 0
IsContent = All (λ c. (c == 13) ≡ false)

split-content :
    (line rest : Bytes) → IsContent line → split_crlf (line ++ (13 ∷ 10 ∷ rest)) ≡ some (line, rest)
unfolding split_crlf
split-content [] rest h = refl
split-content (c ∷ []) rest h = ground (arith, h.0)
split-content (c ∷ d ∷ line) rest h = ground (arith, h.0, split-content (d ∷ line) rest h.1)

-- The stream of an audio gateway that sends these contents.
unfoldable pub encode : List Bytes → Bytes
encode [] = []
encode (line ∷ lines) = 13 ∷ 10 ∷ (line ++ (13 ∷ 10 ∷ encode lines))

unfoldable pub events_of : List Bytes → List ParsedAt
events_of [] = []
events_of (line ∷ lines) = frame_events line ++ events_of lines

abbrev pub Fits : ℕ → List Bytes → Type 0
Fits limit = All (λ line. IsContent line × (length line ≤ limit))

scan-encode :
    (limit f : ℕ) (lines : List Bytes)
    → Fits limit lines
    → length (encode lines) < f
    → scan limit f (encode lines) ≡ ok (events_of lines, [])
unfolding encode events_of
scan-encode limit zero lines h enough = elim enough [ ]
scan-encode limit (suc f) [] h enough = scan-shut limit f [] (unfold split_crlf in refl)
scan-encode limit (suc f) (line ∷ lines) h enough =
    let rest = encode lines in
    let room : length rest < f = omega (arith, length-append line (13 ∷ 10 ∷ rest)) in
    let ih = scan-encode limit f lines h.1 room in
    let fits : ltb limit (length line) ≡ false = ground (arith, h.0.1) in
    scan-frame limit f (encode (line ∷ lines)) [] (line ++ (13 ∷ 10 ∷ rest)) line rest
      (split-crlf (line ++ (13 ∷ 10 ∷ rest))) (split-content line rest h.0.0)
    ∙ rw (fits, ih)

-- A parser that holds nothing reads the stream of contents without a carriage return, each within
-- the frame limit and all within the buffer limit, as the typed lines of the contents in order, and
-- holds nothing afterwards.
pub feed-encode :
    (p : AtParser) (lines : List Bytes)
    → p.buf ≡ []
    → Fits p.max_frame_bytes lines
    → length (encode lines) ≤ p.max_buffer_bytes
    → feed p (encode lines) ≡ (ok (events_of lines), record p { buf = [] })
feed-encode p lines clear fits room =
    feed-of-scan p (encode lines) (events_of lines) [] (rw clear (omega arith))
      (rw clear (scan-encode p.max_frame_bytes _ lines fits (omega arith)))

split-open : (line : Bytes) → IsContent line → split_crlf (line ++ (13 ∷ [])) ≡ none
unfolding split_crlf
split-open [] h = refl
split-open (c ∷ []) h = ground (arith, h.0)
split-open (c ∷ d ∷ line) h = ground (arith, h.0, split-open (d ∷ line) h.1)

-- A content of exactly the frame limit is read when it comes whole, and refused when the input is
-- cut between the carriage return and the line feed behind it: the lone carriage return is counted
-- as content.
pub cut_terminator_refused :
    (p : AtParser) (line : Bytes)
    → p.buf ≡ []
    → IsContent line
    → length line ≡ p.max_frame_bytes
    → length line + 4 ≤ p.max_buffer_bytes
    → ((feed p (encode (line ∷ []))).0 ≡ ok (frame_events line ++ []))
      × ((feed p (13 ∷ 10 ∷ (line ++ (13 ∷ [])))).0 ≡ err frame_exceeded)
unfolding encode events_of
cut_terminator_refused p line clear content full room = (
  ap (λ r. r.0)
      (feed-encode p (line ∷ []) clear ((content, omega arith), tt)
        (omega (arith, length-append line (13 ∷ 10 ∷ [])))),
  unfold feed in
      (rw clear (
        ground (
          arith,
          scan-partial p.max_frame_bytes (length (13 ∷ 10 ∷ (line ++ (13 ∷ []))))
              (13 ∷ 10 ∷ (line ++ (13 ∷ []))) [] (line ++ (13 ∷ []))
              (split-crlf (line ++ (13 ∷ []))) (split-open line content),
          length-append line (13 ∷ []),
        ))),
)
