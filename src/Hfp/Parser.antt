-- ===== src/Hfp/Parser.antt =====
-- `ATParser` of src/hfp_mcp/hfp/protocol.py: bytes to typed lines, with a bound on what is kept.
pub mod Chunks
pub mod Frames
use hermes_phone_hfp.Prelude.{
  ℕ, zero, suc, ◌+◌, Bool, true, false, ◌&&◌, Option, none, some, List, [], ◌∷◌, ◌++◌, length, ◌==◌,
  ltb, if◌then◌else◌,
}
use hermes_phone_hfp.Prelude.Text.{Text}
use hermes_phone_hfp.Prelude.Result.{Result, ok, err}
use hermes_phone_hfp.Hfp.Line.{ParsedAt, strip, decode, parse_line}

abbrev pub Bytes : Type 0
Bytes = List ℕ

pub data AtProtocolError : Type 0 where
  buffer_exceeded frame_exceeded : AtProtocolError

pub data ValueError : Type 0 where
  not_positive frame_above_buffer : ValueError

pub record AtParser : Type 0 where
  pub max_buffer_bytes : ℕ
  pub max_frame_bytes : ℕ
  pub buf : Bytes

-- `ATParser(...)`
unfoldable pub new_parser : ℕ → ℕ → Result ValueError AtParser
new_parser max_buffer max_frame =
    if ltb max_buffer 4
    then err not_positive
    else if ltb max_frame 1
    then err not_positive
    else if ltb max_buffer max_frame
    then err frame_above_buffer
    else ok (record { max_buffer_bytes = max_buffer; max_frame_bytes = max_frame; buf = [] })

-- `find(b"\r\n")` with the two slices that the caller takes: before it, and behind it.
unfoldable pub split_crlf : Bytes → Option (Bytes × Bytes)
split_crlf [] = none
split_crlf (c ∷ []) = none
split_crlf (c ∷ d ∷ rest) =
    if c == 13 && d == 10 then some ([], rest) else elim (split_crlf (d ∷ rest)) [
      | none ↦ none
      | some (before, after) ↦ some (c ∷ before, after)
    ]

-- `line = frame.decode(...).strip()`, and `_parse_line` unless it is empty.
abbrev event_of : Text → List ParsedAt
event_of [] = []
event_of (c ∷ cs) = parse_line (c ∷ cs) ∷ []

unfoldable pub frame_events : Bytes → List ParsedAt
frame_events frame = event_of (strip (decode frame))

abbrev pub Scan : Type 0
Scan = Result AtProtocolError (List ParsedAt × Bytes)

-- The events of a frame go before those of the rest.
abbrev pub prefixed : List ParsedAt → Scan → Scan
prefixed es (ok (fs, rest)) = ok (es ++ fs, rest)
prefixed es (err e) = err e

-- The `while True` loop of `feed` over the buffer, with the frame limit.
unfoldable pub scan : ℕ → ℕ → Bytes → Scan
scan limit zero buf = ok ([], buf)
scan limit (suc fuel) buf = elim (split_crlf buf) [
  | none ↦ ok ([], buf)
  | some (noise, opened) ↦ elim (split_crlf opened) [
    | none ↦ if ltb limit (length opened) then err frame_exceeded else ok ([], 13 ∷ 10 ∷ opened)
    | some (frame, rest) ↦
        if ltb limit (length frame)
        then err frame_exceeded
        else prefixed (frame_events frame) (scan limit fuel rest)
  ]
]

abbrev pub after_scan : AtParser → Scan → Result AtProtocolError (List ParsedAt) × AtParser
after_scan p (ok (events, rest)) = (ok events, record p { buf = rest })
after_scan p (err e) = (err e, record p { buf = [] })

-- Each round that goes on takes at least four bytes, so the length of the buffer is fuel enough.
unfoldable pub feed : AtParser → Bytes → Result AtProtocolError (List ParsedAt) × AtParser
feed p input =
    if ltb p.max_buffer_bytes (length p.buf + length input)
    then (err buffer_exceeded, record p { buf = [] })
    else (let buf = p.buf ++ input in after_scan p (scan p.max_frame_bytes (suc (length buf)) buf))

-- `reset`
unfoldable pub reset : AtParser → AtParser
reset p = record p { buf = [] }
