-- ===== src/State/Types.antt =====
-- The enumerations and the record `HFPState` of src/hfp_mcp/state.py, its flat fields grouped by the
-- comments that group them there. A monotonic or wall-clock reading and a fresh uuid are arguments
-- (`Reading`). `notified` counts the calls of `_on_change`, whose exceptions the source swallows.
use hermes_phone_hfp.Prelude.{ℕ, suc, String, Bool, true, false, Option, none, List, [], ◌∷◌}
use hermes_phone_hfp.Prelude.Text.{Text}
use hermes_phone_hfp.Prelude.Int.{ℤ}

pub data CallState : Type 0 where
  idle incoming dialing ringing active held ending : CallState

pub data CallDirection : Type 0 where
  unknown incoming outgoing : CallDirection

pub data ConnectionState : Type 0 where
  disconnected connecting handshaking connected error : ConnectionState

pub data ScoState : Type 0 where
  disconnected connecting ready failed : ScoState

-- `a == b` on call states.
abbrev pub is_idle : CallState → Bool
is_idle CallState.idle = true
is_idle _ = false

pub CallState-discrete : Discrete CallState
CallState-discrete = hlevel

-- The place of a state in the enumeration.
abbrev pub call_code : CallState → ℕ
call_code CallState.idle = 0
call_code CallState.incoming = 1
call_code CallState.dialing = 2
call_code CallState.ringing = 3
call_code CallState.active = 4
call_code CallState.held = 5
call_code CallState.ending = 6

abbrev pub is_ready : ScoState → Bool
is_ready ScoState.ready = true
is_ready _ = false

-- What the clocks and `uuid.uuid4` answer during one method call.
pub record Reading : Type 0 where
  pub monotonic : ℕ
  pub utc_now : String
  pub uuid : String

pub record Connection : Type 0 where
  pub connection_state : ConnectionState
  pub connected_address : Option String
  pub connected_name : Option String
  pub adapter_address : Option String
  pub rfcomm_socket : Option ℕ
  pub connection_generation : ℕ

pub record Call : Type 0 where
  pub call_state : CallState
  pub call_direction : CallDirection
  pub call_id : Option String
  pub call_generation : ℕ
  pub remote_number : Option Text
  pub remote_number_source : Option String
  pub remote_name : Option Text
  pub caller_role : String
  pub call_started_at : Option ℕ
  pub call_started_at_utc : Option String

-- The fourteen media counters; milliseconds are in some fixed fraction.
pub record Metrics : Type 0 where
  pub queue_ms : ℕ
  pub dropped_frames : ℕ
  pub queue_peak_ms : ℕ
  pub overflow_events : ℕ
  pub rejected_bytes : ℕ
  pub accepted_bytes : ℕ
  pub consumed_bytes : ℕ
  pub playback_controlled : Bool
  pub playback_target_ms : ℕ
  pub playback_underrun_events : ℕ
  pub playback_underrun_ms : ℕ
  pub capture_queue_ms : ℕ
  pub capture_queue_peak_ms : ℕ
  pub capture_overflow_bytes : ℕ

abbrev pub no_metrics : Metrics
no_metrics = record {
  queue_ms = 0;
  dropped_frames = 0;
  queue_peak_ms = 0;
  overflow_events = 0;
  rejected_bytes = 0;
  accepted_bytes = 0;
  consumed_bytes = 0;
  playback_controlled = false;
  playback_target_ms = 0;
  playback_underrun_events = 0;
  playback_underrun_ms = 0;
  capture_queue_ms = 0;
  capture_queue_peak_ms = 0;
  capture_overflow_bytes = 0;
}

pub record Audio : Type 0 where
  pub audio_active : Bool
  pub sco_connected : Bool
  pub sco_state : ScoState
  pub bridge_state : String
  pub audio_owner : Option String
  pub audio_stream_id : Option String
  pub audio_client_attached : Bool
  pub metrics : Metrics

-- A value of the `live_ai` dictionary.
pub data LiveValue : Type 0 where
  null : LiveValue
  text : String → LiveValue
  number : ℕ → LiveValue

-- `[index, value]`
pub record Indicator : Type 0 where
  pub index : ℕ
  pub value : ℤ

pub record HfpState : Type 0 where
  pub connection : Connection
  pub call : Call
  pub audio : Audio
  pub remote_brsf : ℕ
  pub indicators : List (Text × Indicator)
  pub revision : ℕ
  pub updated_at : String
  pub live_ai : List (String × LiveValue)
  pub health : List (String × String)
  pub notified : ℕ

abbrev pub no_connection : Connection
no_connection = record {
  connection_state = ConnectionState.disconnected;
  connected_address = none;
  connected_name = none;
  adapter_address = none;
  rfcomm_socket = none;
  connection_generation = 0;
}

abbrev pub no_call : Call
no_call = record {
  call_state = CallState.idle;
  call_direction = CallDirection.unknown;
  call_id = none;
  call_generation = 0;
  remote_number = none;
  remote_number_source = none;
  remote_name = none;
  caller_role = "unknown";
  call_started_at = none;
  call_started_at_utc = none;
}

abbrev pub no_audio : Audio
no_audio = record {
  audio_active = false;
  sco_connected = false;
  sco_state = ScoState.disconnected;
  bridge_state = "stopped";
  audio_owner = none;
  audio_stream_id = none;
  audio_client_attached = false;
  metrics = no_metrics;
}

-- `HFPState()`
abbrev pub initial : Reading → HfpState
initial r = record {
  connection = no_connection;
  call = no_call;
  audio = no_audio;
  remote_brsf = 0;
  indicators = [];
  revision = 0;
  updated_at = r.utc_now;
  live_ai =
      ("state", LiveValue.text "stopped")
      ∷ ("provider", LiveValue.null)
      ∷ ("model", LiveValue.null)
      ∷ ("session_id", LiveValue.null)
      ∷ ("pending_tools", LiveValue.number 0)
      ∷ [];
  health =
      ("bluez", "unknown")
      ∷ ("rfcomm", "stopped")
      ∷ ("sco", "stopped")
      ∷ ("http", "unknown")
      ∷ ("gemini", "disabled")
      ∷ ("ffmpeg", "unknown")
      ∷ [];
  notified = 0;
}

-- `_changed_locked`
unfoldable pub changed_locked : Reading → HfpState → HfpState
changed_locked r s = record s { revision = suc s.revision; updated_at = r.utc_now }

-- `_notify_change`
unfoldable pub notify_change : HfpState → HfpState
notify_change s = record s { notified = suc s.notified }

-- The end of a method that changed something: the new revision is published after the lock.
unfoldable pub publish : Reading → HfpState → HfpState
unfolding changed_locked notify_change
publish r s = notify_change (changed_locked r s)
