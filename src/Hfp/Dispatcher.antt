-- ===== src/Hfp/Dispatcher.antt =====
-- `ATEventDispatcher` of src/hfp_mcp/hfp/session.py: the one consumer of the events of an active
-- session. The callbacks are the lists of what they were called with, newest last; the exceptions
-- that they raise are swallowed by the source. `on_call_ended` is called behind each entry of
-- `ended`, so that it has no list of its own.
pub mod Counts
pub mod Calls
use hermes_phone_hfp.Prelude.{
  ℕ, zero, suc, ◌+◌, String, Bool, true, false, not, ◌&&◌, ◌||◌, Option, none, some, List, [], ◌∷◌,
  ◌++◌, ◌==◌, ltb, if◌then◌else◌,
}
use hermes_phone_hfp.Prelude.Text.{Text, codes, text_eq}
use hermes_phone_hfp.Prelude.Int.{ℤ, pos, is_nat}
use hermes_phone_hfp.Prelude.Dict.{lookup, text_equality}
use hermes_phone_hfp.Prelude.Result.{ok, err}
use hermes_phone_hfp.State.Types.{CallState, CallDirection, Reading, Indicator, HfpState, is_idle}
use hermes_phone_hfp.State.Connection.{set_disconnected}
use hermes_phone_hfp.State.Call.{set_call_state, same_state}
use hermes_phone_hfp.State.Identity.{Identity, set_remote_identity}
use hermes_phone_hfp.State.Audio.{set_audio_active}
use hermes_phone_hfp.Hfp.Line.{ParsedAt, strip}
use hermes_phone_hfp.Hfp.Number.{parse_int}
use hermes_phone_hfp.Hfp.Results
use hermes_phone_hfp.Hfp.Results.{
  ClipInfo, ClccStatus, ClccEntry, split_comma, parse_clip, parse_clcc,
}
use hermes_phone_hfp.Hfp.Broker.{AtResult, Broker, handle_event, abort}
pub use hermes_phone_hfp.Hfp.Reports.{
  CallInfo, no_call_info, Dispatcher, Readings, direction_text, notify_call_info, is_ending,
  is_active,
}
unfoldable pub use hermes_phone_hfp.Hfp.Reports.{new_dispatcher, set_state, end_call}
pub use hermes_phone_hfp.Hfp.CurrentCalls.{
  priority, state_by_status, or_text, identify, stated, identified,
}
unfoldable pub use hermes_phone_hfp.Hfp.CurrentCalls.{primary_of, apply_clcc_entries}

-- What the indicators say, in the order of the tests of `_reconcile_indicators`.
abbrev pub value_of : Text → List (Text × Indicator) → ℤ
value_of name indicators = elim (lookup name indicators) [ none ↦ pos 0 | some i ↦ i.value ]

unfoldable pub reconcile_indicators : Readings → Dispatcher → Dispatcher
reconcile_indicators r d =
    let indicators = d.state.indicators in
    let setup = value_of (codes "callsetup") indicators in
    let active = is_nat (value_of (codes "call") indicators) 1 in
    let held = not (is_nat (value_of (codes "callheld") indicators) 0) in
    if is_nat setup 1
    then set_state r.first CallState.incoming (some Results.CallDirection.incoming) d
    else if is_nat setup 2
    then set_state r.first CallState.dialing (some Results.CallDirection.outgoing) d
    else if is_nat setup 3
    then set_state r.first CallState.ringing (some Results.CallDirection.outgoing) d
    else if held && not active
    then set_state r.first CallState.held d.call_info.direction d
    else if active
    then set_state r.first CallState.active d.call_info.direction d
    else end_call r (codes "disconnected") d

-- The loop of `_handle_ciev`: the first indicator with the index takes the value.
unfoldable pub set_indicator :
    ℤ → ℤ → List (Text × Indicator) → Option Text × List (Text × Indicator)
set_indicator index value [] = (none, [])
set_indicator index value ((name, i) ∷ rest) =
    let (found, later) = set_indicator index value rest in
    if is_nat index i.index
    then (some name, (name, record i { value = value }) ∷ rest)
    else (found, (name, i) ∷ later)

abbrev pub is_call_indicator : Option Text → Bool
is_call_indicator none = false
is_call_indicator (some name) =
    text_eq name (codes "call")
    || (text_eq name (codes "callsetup") || text_eq name (codes "callheld"))

abbrev pub ciev_of : List Text → Option (ℤ × ℤ)
ciev_of (index ∷ value ∷ []) = elim (parse_int (strip index)) [
  | none ↦ none
  | some i ↦ elim (parse_int (strip value)) [ none ↦ none | some v ↦ some (i, v) ]
]
ciev_of _ = none

-- `_handle_ciev` on an index and a value.
unfoldable pub apply_ciev : Readings → ℤ → ℤ → Dispatcher → Dispatcher
apply_ciev r index value d =
    let (name, indicators) = set_indicator index value d.state.indicators in
    let e = record d { state = record d.state { indicators = indicators } } in
    if is_call_indicator name then reconcile_indicators r e else e

abbrev pub ciev_result : Readings → Option (ℤ × ℤ) → Dispatcher → Dispatcher
ciev_result r none d = d
ciev_result r (some (index, value)) d = apply_ciev r index value d

unfoldable pub handle_ciev : Readings → Text → Dispatcher → Dispatcher
unfolding parse_int strip split_comma
handle_ciev r payload d = ciev_result r (ciev_of (split_comma payload)) d

unfoldable pub apply_clip : Readings → ClipInfo → Dispatcher → Dispatcher
apply_clip r caller d =
    let info : CallInfo = record {
      generation = d.call_info.generation;
      direction = some Results.CallDirection.incoming;
      number = some caller.number;
      name = caller.name;
      calls = d.call_info.calls;
      termination_reason = none;
      was_active = d.call_info.was_active;
    } in
    notify_call_info (record d {
      call_info = info;
      state =
          identify r.second "clip_unvalidated" (some caller.number) caller.name
            CallDirection.incoming d.state;
    })

abbrev pub clip_result : Readings → Text → Dispatcher → Dispatcher
clip_result r payload d = elim (parse_clip payload) [
  | ok caller ↦ apply_clip r caller d
  | err _ ↦ d
]

abbrev pub clcc_result : Readings → Text → Dispatcher → Dispatcher
clcc_result r payload d = elim (parse_clcc payload) [
  | ok entry ↦ apply_clcc_entries r (entry ∷ []) d
  | err _ ↦ d
]

unfoldable pub handle_urc : Readings → Text → Text → Dispatcher → Dispatcher
handle_urc r prefix payload d =
    if text_eq prefix (codes "+CIEV")
    then handle_ciev r payload d
    else if text_eq prefix (codes "RING")
    then set_state r.first CallState.incoming (some Results.CallDirection.incoming) d
    else if text_eq prefix (codes "+CLIP")
    then clip_result r payload d
    else if text_eq prefix (codes "+CLCC")
    then clcc_result r payload d
    else if text_eq prefix (codes "NO CARRIER")
    then end_call r (codes "no_carrier") d
    else if text_eq prefix (codes "BUSY")
    then end_call r (codes "busy") d
    else if text_eq prefix (codes "NO ANSWER")
    then end_call r (codes "no_answer") d
    else d

abbrev pub urc_of : Readings → ParsedAt → Dispatcher → Dispatcher
urc_of r (ParsedAt.response _ _) d = d
urc_of r (ParsedAt.result prefix payload) d = handle_urc r prefix payload d
urc_of r (ParsedAt.unsolicited prefix payload) d = handle_urc r prefix payload d

-- `_dispatch`
unfoldable pub dispatch : Readings → ParsedAt → Dispatcher → Dispatcher
dispatch r event d =
    let (b, mine) = handle_event event d.broker in
    if mine then record d { broker = b } else urc_of r event d

-- `_is_stale_generation`
abbrev pub is_stale : Dispatcher → Bool
is_stale d =
    not (d.generation == 0) && not (d.state.connection.connection_generation == d.generation)

abbrev pub had_call : Dispatcher → Bool
had_call d = not (is_idle d.state.call.call_state)

abbrev pub close : Readings → Dispatcher → Dispatcher
close r d =
    let ended_info = record d.call_info {
      termination_reason = some (codes "transport_disconnected");
    } in
    let (s, disconnected) = set_disconnected r.first (some d.generation) d.state in
    let e = record d { broker = abort d.broker; state = s } in
    if disconnected && had_call d then record e { ended = e.ended ++ ended_info ∷ [] } else e

abbrev pub live_round : Readings → Option ParsedAt → Dispatcher → Dispatcher × Bool
live_round r none d = (close r d, false)
live_round r (some event) d = (dispatch r event d, true)

-- One round of `run`, on an event or on the sentinel of a closed connection, and whether it goes on.
unfoldable pub round : Readings → Option ParsedAt → Dispatcher → Dispatcher × Bool
round r event d =
    if is_stale d then (record d { broker = abort d.broker }, false) else live_round r event d

-- The +CLCC results of a transaction, parsed; none stands for the `ATProtocolError` of one.
unfoldable pub clcc_entries : List AtResult → Option (List ClccEntry)
clcc_entries [] = some []
clcc_entries (item ∷ items) =
    let rest = clcc_entries items in
    if not (text_eq item.prefix (codes "+CLCC")) then rest else elim (parse_clcc item.payload) [
      | err _ ↦ none
      | ok entry ↦ elim rest [ none ↦ none | some entries ↦ some (entry ∷ entries) ]
    ]

-- `query_current_calls`, behind its transaction: the results, or the error that they raise.
unfoldable pub query_current_calls :
    Readings → List AtResult → Dispatcher → Option (List ClccEntry) × Dispatcher
query_current_calls r results d = elim (clcc_entries results) [
  | none ↦ (none, d)
  | some entries ↦ (some entries, apply_clcc_entries r entries d)
]
