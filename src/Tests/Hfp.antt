-- ===== src/Tests/Hfp.antt =====
-- The theorems about src/hfp_mcp/hfp at concrete commands, events and streams.
use hermes_phone_hfp.Prelude.{
  ℕ, ◌≡◌, refl, true, false, none, some, List, [], ◌∷◌, ◌++◌, ◌+◌, ◌≤◌, length, arith,
}
use hermes_phone_hfp.Prelude.Text.{Text, codes, text_eq, lower}
use hermes_phone_hfp.Prelude.Decimal.{decimal}
use hermes_phone_hfp.Prelude.Result.{ok, err}
use hermes_phone_hfp.State.Types.{
  changed_locked, notify_change, publish, CallState, CallDirection, ConnectionState, Reading,
  initial,
}
use hermes_phone_hfp.State.Connection.{set_connected, set_handshake_complete}
use hermes_phone_hfp.State.Steps
use hermes_phone_hfp.State.Audio.{set_audio_active}
use hermes_phone_hfp.State.Call.{
  audio_after, begin_call, enter_state, name_call, set_call_state, set_direction, settle_pending,
}
use hermes_phone_hfp.Prelude.Dict.{lookup, insert, text_equality}
use hermes_phone_hfp.Hfp.Results.{
  parse_cind_definition, parse_cind_values, all_ints, number_names, quoted_names, split_comma,
}
use hermes_phone_hfp.Hfp.Line.{lstrip, rstrip, strip, ParsedAt, parse_line, decode}
use hermes_phone_hfp.Hfp.Number.{int_digits, signed, parse_int}
use hermes_phone_hfp.Hfp.Parser.{AtParser, feed, scan, split_crlf, frame_events, frame_exceeded}
use hermes_phone_hfp.Hfp.Parser.Chunks.{feed-append}
use hermes_phone_hfp.Hfp.Parser.Frames.{
  IsContent, IsBounded, IsClearedBy, encode, events_of, feed-encode, feed-IsBounded,
  cut_terminator_refused,
}
use hermes_phone_hfp.Hfp.Command.{
  encode_command, misplaced_cr, body, IsLine, max_at_command_bytes, encode_command_sends,
  encode_command-of_line,
}
use hermes_phone_hfp.Hfp.Broker.{
  Broker, Future, Request, begin, handle_event, time_out, terminal_quarantined, finish,
  fresh_broker,
}
use hermes_phone_hfp.Hfp.Broker.Attribution
use hermes_phone_hfp.Hfp.Broker.Attribution.{Action, start_of, GoesRight, answers_attributed}
use hermes_phone_hfp.Hfp.Broker.Pump.{pump, pump_order}
use hermes_phone_hfp.Hfp.Dispatcher.{Readings, new_dispatcher}
use hermes_phone_hfp.Hfp.Dispatcher.Calls.{Turn, rounds, calls_reported_once}
use hermes_phone_hfp.State.Balance.{present}
use hermes_phone_hfp.State.Steps.{Op}
use hermes_phone_hfp.Hfp.Handshake
use hermes_phone_hfp.Hfp.Handshake.{Exchange, Slc, Config, exchange_features}
use hermes_phone_hfp.Hfp.Handshake.Completion.{commands_of, slc_established}

abbrev noon : Reading
noon = record { monotonic = 120; utc_now = "2026-01-01T12:00:00Z"; uuid = "call-a" }

abbrev both : Readings
both = record { first = noon; second = noon }

abbrev answer_call : Request
answer_call = record {
  command = codes "ATA\r";
  expected_prefixes = [];
  require_result = none;
  timeout = 100;
}

-- A command is sent and times out; its answer comes late.
abbrev late_answer : List Action
late_answer = Action.start 0 answer_call ∷ Action.expire 100 ∷ Action.finish ∷ []

answers_attributed_example :
    GoesRight 1 [] true (codes "OK") (Attribution.run late_answer (start_of 5000 1))
unfolding Attribution.run Attribution.act begin terminal_quarantined time_out finish encode_command
    misplaced_cr
answers_attributed_example =
    answers_attributed 5000 1 late_answer 1 [] true (codes "OK") (refl, (refl, (refl, tt))) refl

abbrev parser : AtParser
parser = record { max_buffer_bytes = 64; max_frame_bytes = 8; buf = [] }

abbrev half : AtParser
half = record parser { buf = codes "\r\nRI" }

abbrev ring : ParsedAt
ring = ParsedAt.unsolicited (codes "RING") []

feed-append_example :
    feed parser (codes "\r\nRI" ++ codes "NG\r\n") ≡ (ok ([] ++ ring ∷ []), parser)
unfolding feed scan split_crlf frame_events parse_line decode
feed-append_example =
    feed-append parser half parser (codes "\r\nRI") (codes "NG\r\n") [] (ring ∷ []) refl refl
      (omega arith)

ring-IsContent : IsContent (codes "RING")
ring-IsContent = (refl, (refl, (refl, (refl, tt))))

feed-encode_example :
    feed parser (encode (codes "RING" ∷ []))
    ≡ (ok (events_of (codes "RING" ∷ [])), record parser { buf = [] })
unfolding encode
feed-encode_example =
    feed-encode parser (codes "RING" ∷ []) refl ((ring-IsContent, omega arith), tt) (omega arith)

feed-IsBounded_example :
    ((feed parser (codes "\r\nRI")).1.max_buffer_bytes ≡ 64)
    × ((feed parser (codes "\r\nRI")).1.max_frame_bytes ≡ 8)
    × IsBounded (feed parser (codes "\r\nRI")).1
    × IsClearedBy (feed parser (codes "\r\nRI")).0 (feed parser (codes "\r\nRI")).1.buf
feed-IsBounded_example = feed-IsBounded parser (codes "\r\nRI")

abbrev tight : AtParser
tight = record { max_buffer_bytes = 16; max_frame_bytes = 4; buf = [] }

cut_terminator_refused_example :
    ((feed tight (encode (codes "RING" ∷ []))).0 ≡ ok (frame_events (codes "RING") ++ []))
    × ((feed tight (13 ∷ 10 ∷ (codes "RING" ++ (13 ∷ [])))).0 ≡ err frame_exceeded)
cut_terminator_refused_example =
    cut_terminator_refused tight (codes "RING") refl ring-IsContent refl (omega arith)

abbrev dial : Text
dial = codes "ATD5550100;\r"

encode_command_sends_example :
    (dial ≡ dial)
    × (dial ≡ body dial ++ 13 ∷ [])
    × IsLine (body dial)
    × (length dial ≤ max_at_command_bytes)
unfolding encode_command misplaced_cr
encode_command_sends_example = encode_command_sends dial dial refl

encode_command-of_line_example :
    encode_command (codes "ATA" ++ 13 ∷ []) ≡ ok (codes "ATA" ++ 13 ∷ [])
encode_command-of_line_example =
    encode_command-of_line (codes "ATA")
      ((refl, refl, refl), ((refl, refl, refl), ((refl, refl, refl), tt))) (omega arith)

abbrev waiting : Broker
waiting = record (fresh_broker 5000 1) {
  pending = some (record {
    command = codes "ATA\r";
    expected_prefixes = [];
    require_result = false;
    future = Future.waiting;
    results = [];
  });
}

abbrev answered : Broker
answered = (handle_event (ParsedAt.response true (codes "OK")) waiting).0

pump_order_example :
    pump waiting (some ring ∷ some (ParsedAt.response true (codes "OK")) ∷ none ∷ [])
    ≡ (answered, none ∷ some ring ∷ [])
unfolding handle_event
pump_order_example =
    pump_order waiting answered (ParsedAt.response true (codes "OK")) (some ring ∷ []) (none ∷ [])
      refl (refl, tt) refl refl

-- What an accepted `ATD` does from an idle state.
abbrev dialing : Op
dialing =
    Op.transition CallState.dialing
      (record {
        expected_call_id = none;
        expected_generation = 0;
        allowed_states = CallState.idle ∷ [];
        expected_connection_generation = some 0;
      })
      (some CallDirection.outgoing)

-- A call is dialed by another coroutine, which sends a command as well, is busy, and a caller rings.
abbrev turns : List Turn
turns =
    record {
      others = (noon, dialing) ∷ [];
      commands = λ b. (begin 120 answer_call b).1;
      readings = both;
      event = some (ParsedAt.unsolicited (codes "BUSY") []);
    }
    ∷ record { others = []; commands = λ b. b; readings = both; event = some ring }
    ∷ []

calls_reported_once_example :
    let d = rounds turns (new_dispatcher 0 (initial noon) (fresh_broker 5000 0)) in
    length d.ended + present d.state + 0 ≡ d.state.call.call_generation + 0
calls_reported_once_example =
    calls_reported_once 0 (initial noon) (fresh_broker 5000 0) turns ((refl, tt), (tt, tt))

abbrev config : Config
config = record { hf_features = 6; generation = 1; reading = noon }

abbrev given : Text → Text → Exchange
given prefix payload = record {
  outcome = ok (record { prefix = prefix; payload = payload } ∷ []);
  meanwhile = [];
}

abbrev accepted : Exchange
accepted = record { outcome = ok []; meanwhile = [] }

abbrev gateway : List Exchange
gateway =
    given (codes "+BRSF") (codes "0")
    ∷ given (codes "+CIND") (codes "(\"call\",(0,1)),(\"callsetup\",(0-3))")
    ∷ given (codes "+CIND") (codes "0,1")
    ∷ accepted
    ∷ accepted
    ∷ []

abbrev opening : Slc
opening = record {
  state = (set_connected noon "AA:BB" 7 none none (initial noon)).0;
  exchanges = gateway;
  sent = [];
}

slc_established_example :
    let t = (Handshake.run config opening).1 in
    (t.state.connection.connection_state ≡ ConnectionState.connected)
    × (t.state.connection.connection_generation ≡ 1)
    × ((remote : ℕ) × (u : Slc) × (exchange_features config opening ≡ (ok remote, u))
        × (t.sent ≡ [] ++ commands_of config remote))
unfolding Handshake.run Handshake.◌>>=◌ Handshake.◌>>◌ exchange_features Handshake.execute
    Handshake.first text_eq Handshake.parse_feature_mask parse_int
    Handshake.ensure_current_generation Steps.run set_connected Handshake.read_indicators lookup
    parse_cind_definition parse_cind_values Handshake.indicators_of
    Handshake.apply_initial_call_state Handshake.initial_call_state lstrip rstrip strip int_digits
    signed all_ints number_names quoted_names split_comma decimal insert lower set_audio_active
    audio_after begin_call enter_state name_call set_call_state set_direction settle_pending
    set_handshake_complete changed_locked notify_change publish
slc_established_example = slc_established config opening (Handshake.run config opening).1 refl
