-- ===== src/State/Audio.antt =====
-- The audio methods of src/hfp_mcp/state.py.
use native.Mathlib.Decide.{ℕ_discrete}
use hermes_phone_hfp.Prelude.{
  String, Bool, true, false, not, ◌&&◌, Option, none, some, is_some, str_eq, if◌then◌else◌,
}
use hermes_phone_hfp.Prelude.Dict.{insert, option_eq, string_eq}
use hermes_phone_hfp.Prelude.Int.{ℤ, pos_part}
use hermes_phone_hfp.State.Types.{
  ScoState, is_ready, Reading, Metrics, no_metrics, Audio, HfpState, publish,
}

-- `a == b`
abbrev pub same_flag : Bool → Bool → Bool
same_flag true b = b
same_flag false b = not b

unfoldable pub set_audio_active : Reading → Bool → HfpState → HfpState
unfolding publish
set_audio_active r active s =
    if same_flag s.audio.audio_active active
    then s
    else publish r (record s { audio = record s.audio { audio_active = active } })

-- `bridge_state or ("ready" if self.sco_connected else "stopped")`
abbrev bridge_or : Option String → Bool → String
bridge_or none connected = if connected then "ready" else "stopped"
bridge_or (some given) connected =
    if str_eq given "" then (if connected then "ready" else "stopped") else given

abbrev own_stream : Option String → Audio → Audio
own_stream none a = a
own_stream (some owner) a = record a { audio_owner = some owner }

-- A stream id that differs from the current one drops the client and the counters of the old one.
abbrev open_stream : Option String → Audio → Audio
open_stream none a = a
open_stream (some id) a =
    if option_eq (some id) a.audio_stream_id
    then record a { audio_stream_id = some id }
    else record a { audio_client_attached = false; metrics = no_metrics; audio_stream_id = some id }

unfoldable pub audio_in_state :
    ScoState → Option String → Option String → Option String → Audio → Audio
audio_in_state state bridge owner stream_id a =
    let connected = is_ready state in
    let b = record a {
      sco_state = state;
      sco_connected = connected;
      bridge_state = bridge_or bridge connected;
    } in
    if connected
    then open_stream stream_id (own_stream owner b)
    else record b { audio_owner = none; audio_stream_id = none; audio_client_attached = false }

unfoldable pub set_sco_state :
    Reading → ScoState → Option String → Option String → Option String → HfpState → HfpState
unfolding publish audio_in_state
set_sco_state r state bridge owner stream_id s =
    let a = audio_in_state state bridge owner stream_id s.audio in
    publish r (record s {
      audio = a;
      health = insert "sco" (if a.sco_connected then "ok" else a.bridge_state) s.health;
    })

unfoldable pub set_sco_connected : Reading → Bool → HfpState → HfpState
unfolding set_sco_state
set_sco_connected r connected s =
    set_sco_state r (if connected then ScoState.ready else ScoState.disconnected) none none none s

unfoldable pub set_audio_client_attached :
    Reading → Bool → Option String → HfpState → HfpState × Bool
unfolding publish
set_audio_client_attached r attached stream_id s =
    if is_some stream_id && not (option_eq stream_id s.audio.audio_stream_id)
    then (s, false)
    else if same_flag s.audio.audio_client_attached attached
    then (s, true)
    else (
      publish r (record s { audio = record s.audio { audio_client_attached = attached } }),
      true,
    )

-- The arguments of `set_audio_metrics`, before they are cut at 0.
pub record RawMetrics : Type 0 where
  pub queue_ms : ℤ
  pub dropped_frames : ℤ
  pub queue_peak_ms : ℤ
  pub overflow_events : ℤ
  pub rejected_bytes : ℤ
  pub accepted_bytes : ℤ
  pub consumed_bytes : ℤ
  pub playback_controlled : Bool
  pub playback_target_ms : ℤ
  pub playback_underrun_events : ℤ
  pub playback_underrun_ms : ℤ
  pub capture_queue_ms : ℤ
  pub capture_queue_peak_ms : ℤ
  pub capture_overflow_bytes : ℤ

unfoldable pub cut_metrics : RawMetrics → Metrics
cut_metrics m = record {
  queue_ms = pos_part m.queue_ms;
  dropped_frames = pos_part m.dropped_frames;
  queue_peak_ms = pos_part m.queue_peak_ms;
  overflow_events = pos_part m.overflow_events;
  rejected_bytes = pos_part m.rejected_bytes;
  accepted_bytes = pos_part m.accepted_bytes;
  consumed_bytes = pos_part m.consumed_bytes;
  playback_controlled = m.playback_controlled;
  playback_target_ms = pos_part m.playback_target_ms;
  playback_underrun_events = pos_part m.playback_underrun_events;
  playback_underrun_ms = pos_part m.playback_underrun_ms;
  capture_queue_ms = pos_part m.capture_queue_ms;
  capture_queue_peak_ms = pos_part m.capture_queue_peak_ms;
  capture_overflow_bytes = pos_part m.capture_overflow_bytes;
}

pub Metrics-discrete : Discrete Metrics
Metrics-discrete = hlevel ℕ_discrete

unfoldable pub set_audio_metrics : Reading → RawMetrics → HfpState → HfpState
unfolding publish
set_audio_metrics r raw s =
    let values = cut_metrics raw in
    elim (Metrics-discrete s.audio.metrics values) [
      | yes _ ↦ s
      | no _ ↦ publish r (record s { audio = record s.audio { metrics = values } })
    ]
