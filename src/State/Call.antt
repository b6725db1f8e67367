-- ===== src/State/Call.antt =====
-- `set_call_state` and `transition_call_state` of src/hfp_mcp/state.py. The source writes the same
-- body twice; here its blocks are functions, which both methods compose in the order of the source.
use hermes_phone_hfp.Prelude.{
  ℕ, suc, String, Bool, true, false, not, ◌&&◌, ◌||◌, Option, none, some, List, is_none, any, ◌==◌,
  if◌then◌else◌,
}
use hermes_phone_hfp.Prelude.Dict.{option_eq, string_eq}
use hermes_phone_hfp.State.Types.{
  CallState, CallDirection, is_idle, call_code, Reading, Call, Audio, HfpState, publish,
}

-- `a == b`
abbrev pub same_state : CallState → CallState → Bool
same_state a b = call_code a == call_code b

-- The direction after the call's first block.
abbrev pub direction_after : CallState → Option CallDirection → CallDirection → CallDirection
direction_after state (some d) old = d
direction_after CallState.incoming none old = CallDirection.incoming
direction_after CallState.dialing none old = CallDirection.outgoing
direction_after CallState.ringing none old = CallDirection.outgoing
direction_after _ none old = old

unfoldable pub set_direction : CallState → Option CallDirection → Call → Call
set_direction state direction c = record c {
  call_direction = direction_after state direction c.call_direction;
}

abbrev pub is_outgoing : CallDirection → Bool
is_outgoing CallDirection.outgoing = true
is_outgoing _ = false

-- The identity of the remote party is forgotten.
abbrev pub forget_remote : Call → Call
forget_remote c = record c {
  remote_number = none;
  remote_number_source = none;
  remote_name = none;
  caller_role = "unknown";
}

-- The first transition out of idle promotes the target of a dial, or forgets it if an incoming call
-- came first.
unfoldable pub settle_pending : CallState → CallState → Call → Call
settle_pending previous state c =
    if is_idle previous
      && (not (is_idle state) && option_eq c.remote_number_source (some "dialed_pending"))
    then (if is_outgoing c.call_direction
        then record c { remote_number_source = some "dialed" }
        else forget_remote c)
    else c

-- `call_generation` grows when a call begins.
unfoldable pub begin_call : CallState → CallState → Call → Call
begin_call previous state c =
    if is_idle previous && not (is_idle state)
    then record c { call_generation = suc c.call_generation }
    else c

unfoldable pub name_call : Reading → CallState → Call → Call
name_call r state c =
    if not (is_idle state) && is_none c.call_id then record c { call_id = some r.uuid } else c

-- `self.call_state = state`, and then the start of an active call or the reset of an idle one.
unfoldable pub enter_state : Reading → CallState → Call → Call
enter_state r CallState.idle c = record (forget_remote c) {
  call_state = CallState.idle;
  call_started_at = none;
  call_started_at_utc = none;
  call_id = none;
  call_direction = CallDirection.unknown;
}
enter_state r CallState.active c =
    if is_none c.call_started_at
    then record c {
      call_state = CallState.active;
      call_started_at = some r.monotonic;
      call_started_at_utc = some r.utc_now;
    }
    else record c { call_state = CallState.active }
enter_state r state c = record c { call_state = state }

-- An idle call leaves no call audio and no attached client.
unfoldable pub audio_after : CallState → Audio → Audio
audio_after state a =
    if is_idle state then record a { audio_active = false; audio_client_attached = false } else a

unfoldable pub set_call_state : Reading → CallState → Option CallDirection → HfpState → HfpState
set_call_state r state direction s =
    let previous = s.call.call_state in
    let directed = set_direction state direction s.call in
    let settled = settle_pending previous state directed in
    let begun = begin_call previous state settled in
    let named = name_call r state begun in
    let entered = enter_state r state named in
    let t = record s { call = entered; audio = audio_after state s.audio } in
    if same_state state previous then t else publish r t

-- What a caller of `transition_call_state` observed before it waited.
pub record Expected : Type 0 where
  pub expected_call_id : Option String
  pub expected_generation : ℕ
  pub allowed_states : List CallState
  pub expected_connection_generation : Option ℕ

abbrev elsewhere : Option ℕ → ℕ → Bool
elsewhere none current = false
elsewhere (some g) current = not (current == g)

-- The guard of `transition_call_state`: true if something changed since the observation.
unfoldable pub replaced : Expected → HfpState → Bool
replaced e s =
    elsewhere e.expected_connection_generation s.connection.connection_generation
    || (not (option_eq s.call.call_id e.expected_call_id)
        || (not (s.call.call_generation == e.expected_generation)
            || not (any (same_state s.call.call_state) e.allowed_states)))

unfoldable pub transition_call_state :
    Reading → CallState → Expected → Option CallDirection → HfpState → HfpState × Bool
transition_call_state r state e direction s =
    let previous = s.call.call_state in
    let directed = set_direction state direction s.call in
    let settled = settle_pending previous state directed in
    let begun = begin_call previous state settled in
    let named = name_call r state begun in
    let entered = enter_state r state named in
    let t = record s { call = entered; audio = audio_after state s.audio } in
    if replaced e s
    then (s, false)
    else if not (same_state state previous)
    then (publish r t, true)
    else (t, true)
