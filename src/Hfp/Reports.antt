-- ===== src/Hfp/Reports.antt =====
-- The state of `ATEventDispatcher` of src/hfp_mcp/hfp/session.py, the callbacks that it reports to and
-- the two methods that change the call.
use hermes_phone_hfp.Prelude.{
  ℕ, ◌+◌, Bool, true, false, not, ◌&&◌, ◌||◌, Option, none, some, List, [], ◌∷◌, ◌++◌,
  if◌then◌else◌,
}
use hermes_phone_hfp.Prelude.Text.{Text}
use hermes_phone_hfp.Prelude.Dict.{text_equality}
use hermes_phone_hfp.State.Types.{CallState, CallDirection, Reading, HfpState, is_idle}
use hermes_phone_hfp.State.Call.{set_call_state, same_state}
use hermes_phone_hfp.State.Audio.{set_audio_active}
use hermes_phone_hfp.Hfp.Results
use hermes_phone_hfp.Hfp.Results.{
  ClipInfo, ClccStatus, ClccEntry, split_comma, parse_clip, parse_clcc,
}
use hermes_phone_hfp.Hfp.Broker.{Broker}

pub record CallInfo : Type 0 where
  pub generation : ℕ
  pub direction : Option Results.CallDirection
  pub number : Option Text
  pub name : Option Text
  pub calls : List ClccEntry
  pub termination_reason : Option Text
  pub was_active : Bool

abbrev pub no_call_info : ℕ → CallInfo
no_call_info generation = record {
  generation = generation;
  direction = none;
  number = none;
  name = none;
  calls = [];
  termination_reason = none;
  was_active = false;
}

pub record Dispatcher : Type 0 where
  pub state : HfpState
  pub broker : Broker
  pub generation : ℕ
  pub call_info : CallInfo
  pub informed : List CallInfo
  pub ended : List CallInfo

-- `ATEventDispatcher(...)`
unfoldable pub new_dispatcher : ℕ → HfpState → Broker → Dispatcher
new_dispatcher generation s b = record {
  state = s;
  broker = b;
  generation = generation;
  call_info = record (no_call_info (if is_idle s.call.call_state then 0 else 1)) {
    was_active = same_state s.call.call_state CallState.active;
  };
  informed = [];
  ended = [];
}

-- The clock readings of the two state methods that one event may call.
pub record Readings : Type 0 where
  pub first : Reading
  pub second : Reading

-- `_direction_text`, and what the state makes of it.
abbrev pub direction_text : Option Results.CallDirection → Option CallDirection
direction_text none = none
direction_text (some Results.CallDirection.incoming) = some CallDirection.incoming
direction_text (some Results.CallDirection.outgoing) = some CallDirection.outgoing

abbrev pub notify_call_info : Dispatcher → Dispatcher
notify_call_info d = record d { informed = d.informed ++ d.call_info ∷ [] }

abbrev pub is_ending : CallState → Bool
is_ending CallState.ending = true
is_ending _ = false

abbrev pub is_active : CallState → Bool
is_active CallState.active = true
is_active _ = false

-- `_set_call_state`
unfoldable pub set_state :
    Reading → CallState → Option Results.CallDirection → Dispatcher → Dispatcher
set_state r state direction d =
    let was_idle = is_idle d.state.call.call_state in
    let info = d.call_info in
    let next : CallInfo = record {
      generation = if was_idle then info.generation + 1 else info.generation;
      direction = direction;
      number = info.number;
      name = info.name;
      calls = if was_idle then [] else info.calls;
      termination_reason = none;
      was_active = is_active state || (not was_idle && info.was_active);
    } in
    if is_ending d.state.call.call_state && not (is_idle state)
    then d
    else notify_call_info (record d {
      state = set_call_state r state (direction_text direction) d.state;
      call_info = next;
    })

-- `_end_call`
unfoldable pub end_call : Readings → Text → Dispatcher → Dispatcher
end_call r reason d =
    let had_call = not (is_idle d.state.call.call_state) in
    let ended_info = record d.call_info { termination_reason = some reason } in
    let e = notify_call_info (record d {
      state = set_audio_active r.second false (set_call_state r.first CallState.idle none d.state);
      call_info = no_call_info d.call_info.generation;
    }) in
    if had_call then record e { ended = e.ended ++ ended_info ∷ [] } else e
