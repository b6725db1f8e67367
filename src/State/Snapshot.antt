-- ===== src/State/Snapshot.antt =====
-- `versioned_snapshot` and `snapshot` of src/hfp_mcp/state.py. The id of the server instance is an
-- argument, as is the rounding of a duration; the dictionaries are records with the source's keys.
use hermes_phone_hfp.Prelude.{
  ℕ, ◌-◌, String, Bool, true, false, Option, none, some, List, [], ◌∷◌, any, ◌≡◌, refl, ap, sym,
  is_none, is_some, ◌∙◌, if◌then◌else◌, str_eq,
}
use hermes_phone_hfp.Prelude.Text.{Text}
use hermes_phone_hfp.State.Types.{
  CallState, CallDirection, ConnectionState, ScoState, Reading, Metrics, Connection, Call, Audio,
  LiveValue, HfpState, initial, is_ready, is_idle,
}
use hermes_phone_hfp.State.Call.{set_call_state}
use hermes_phone_hfp.State.Identity.{set_pending_outbound_identity}
use hermes_phone_hfp.State.Steps.{Op, run}
use hermes_phone_hfp.State.Invariant.{run-IsConsistent}
use hermes_phone_hfp.State.Pending.{
  Party, nobody, party, is_dialed_call, pending-settled, dial-IsPending,
}

pub record ConnectionView : Type 0 where
  pub state : ConnectionState
  pub generation : ℕ
  pub adapter_address : Option String
  pub device_address : Option String
  pub device_name : Option String

pub record CallView : Type 0 where
  pub id : Option String
  pub generation : ℕ
  pub state : CallState
  pub direction : CallDirection
  pub remote_number : Option Text
  pub remote_number_source : Option String
  pub remote_number_verified : Bool
  pub remote_name : Option Text
  pub caller_role : String
  pub started_at : Option String
  pub duration_seconds : Option ℕ

pub record AudioView : Type 0 where
  pub codec : String
  pub sample_rate_hz : ℕ
  pub sco_state : ScoState
  pub bridge_state : String
  pub owner : Option String
  pub stream_id : Option String
  pub client_attached : Bool
  pub metrics : Metrics

pub record Versioned : Type 0 where
  pub schema_version : String
  pub revision : ℕ
  pub updated_at : String
  pub server_instance_id : String
  pub connection : ConnectionView
  pub call : CallView
  pub audio : AudioView
  pub live_ai : List (String × LiveValue)
  pub health : List (String × String)

abbrev verified_sources : List String
verified_sources = "clip" ∷ "clcc" ∷ "dialed" ∷ []

-- `bool(number and source in {...})`
unfoldable pub is_verified : Option Text → Option String → Bool
is_verified none source = false
is_verified (some []) source = false
is_verified (some (c ∷ cs)) none = false
is_verified (some (c ∷ cs)) (some source) = any (str_eq source) verified_sources

abbrev duration_of : (ℕ → ℕ) → ℕ → Option ℕ → Option ℕ
duration_of rounded now none = none
duration_of rounded now (some started) = some (rounded (now - started))

abbrev connection_view : Connection → ConnectionView
connection_view c = record {
  state = c.connection_state;
  generation = c.connection_generation;
  adapter_address = c.adapter_address;
  device_address = c.connected_address;
  device_name = c.connected_name;
}

abbrev call_view : (ℕ → ℕ) → ℕ → Call → CallView
call_view rounded now c = record {
  id = c.call_id;
  generation = c.call_generation;
  state = c.call_state;
  direction = c.call_direction;
  remote_number = c.remote_number;
  remote_number_source = c.remote_number_source;
  remote_number_verified = is_verified c.remote_number c.remote_number_source;
  remote_name = c.remote_name;
  caller_role = c.caller_role;
  started_at = c.call_started_at_utc;
  duration_seconds = duration_of rounded now c.call_started_at;
}

abbrev audio_view : Audio → AudioView
audio_view a = record {
  codec = "CVSD";
  sample_rate_hz = 8000;
  sco_state = a.sco_state;
  bridge_state = a.bridge_state;
  owner = a.audio_owner;
  stream_id = a.audio_stream_id;
  client_attached = a.audio_client_attached;
  metrics = a.metrics;
}

unfoldable pub versioned_snapshot : (ℕ → ℕ) → ℕ → String → HfpState → Versioned
versioned_snapshot rounded now instance_id s = record {
  schema_version = "hfp.v1";
  revision = s.revision;
  updated_at = s.updated_at;
  server_instance_id = instance_id;
  connection = connection_view s.connection;
  call = call_view rounded now s.call;
  audio = audio_view s.audio;
  live_ai = s.live_ai;
  health = s.health;
}

abbrev party_verified : Party → Bool
party_verified p = is_verified p.number p.source

settled-verified :
    (dialed : Bool) (digit : ℕ) (digits : Text) (role : String)
    → party_verified (
        if dialed
        then record { number = some (digit ∷ digits); source = some "dialed"; role = role }
        else nobody)
      ≡ dialed
unfolding is_verified
settled-verified true digit digits role = refl
settled-verified false digit digits role = refl

-- A dial is shown as verified only once it is a call: a call that begins behind an accepted dial to
-- a number that is not empty shows a verified number where it is reported as outgoing, or without a
-- direction and in another state than `incoming`, and none otherwise.
pub dialed-verified :
    (rounded : ℕ → ℕ) (now : ℕ) (instance_id : String) (r r' : Reading) (digit : ℕ) (digits : Text)
    (role : String) (c g : ℕ) (s : HfpState) (state : CallState) (direction : Option CallDirection)
    → (set_pending_outbound_identity r (digit ∷ digits) role c g s).1 ≡ true
    → is_idle state ≡ false
    → let dial = (set_pending_outbound_identity r (digit ∷ digits) role c g s).0 in
      ((versioned_snapshot rounded now instance_id dial).call.remote_number_verified ≡ false)
      × ((versioned_snapshot rounded now instance_id
            (set_call_state r' state direction dial)).call.remote_number_verified
          ≡ is_dialed_call state direction)
unfolding versioned_snapshot is_verified party
dialed-verified rounded now instance_id r r' digit digits role c g s state direction done present =
    let pending = dial-IsPending r (digit ∷ digits) role c g s done in
    let settled = pending-settled r r' (digit ∷ digits) role c g s state direction done present in
    (
      rw (pending.numbered, pending.sourced) refl,
      ap party_verified settled
          ∙ settled-verified (is_dialed_call state direction) digit digits role,
    )

-- The flat keys of the older clients.
pub record Snapshot : Type 0 where
  pub schema_version : String
  pub revision : ℕ
  pub updated_at : String
  pub server_instance_id : String
  pub connection : ConnectionState
  pub connection_generation : ℕ
  pub connected_address : Option String
  pub connected_name : Option String
  pub call_state : CallState
  pub call_id : Option String
  pub call_generation : ℕ
  pub call_direction : CallDirection
  pub remote_number : Option Text
  pub remote_number_source : Option String
  pub remote_number_verified : Bool
  pub remote_name : Option Text
  pub caller_role : String
  pub audio_active : Bool
  pub sco_connected : Bool
  pub sco_state : ScoState
  pub audio_owner : Option String
  pub audio_stream_id : Option String
  pub audio_client_attached : Bool
  pub call_duration_seconds : Option ℕ

unfoldable pub snapshot : (ℕ → ℕ) → ℕ → String → HfpState → Snapshot
unfolding versioned_snapshot
snapshot rounded now instance_id s =
    let v = versioned_snapshot rounded now instance_id s in
    record {
      schema_version = v.schema_version;
      revision = v.revision;
      updated_at = v.updated_at;
      server_instance_id = v.server_instance_id;
      connection = v.connection.state;
      connection_generation = v.connection.generation;
      connected_address = v.connection.device_address;
      connected_name = v.connection.device_name;
      call_state = v.call.state;
      call_id = v.call.id;
      call_generation = v.call.generation;
      call_direction = v.call.direction;
      remote_number = v.call.remote_number;
      remote_number_source = v.call.remote_number_source;
      remote_number_verified = v.call.remote_number_verified;
      remote_name = v.call.remote_name;
      caller_role = v.call.caller_role;
      audio_active = s.audio.audio_active;
      sco_connected = is_ready v.audio.sco_state;
      sco_state = v.audio.sco_state;
      audio_owner = v.audio.owner;
      audio_stream_id = v.audio.stream_id;
      audio_client_attached = v.audio.client_attached;
      call_duration_seconds = v.call.duration_seconds;
    }

-- In every state that is reached, by any method calls, the flat snapshot shows a call id exactly
-- when it shows a call, shows a duration exactly when the state has the time of the start, and agrees with the state on the audio link.
pub snapshot-consistent :
    (rounded : ℕ → ℕ) (now : ℕ) (instance_id : String) (r : Reading) (ops : List (Reading × Op))
    → let s = run ops (initial r) in
      let v = snapshot rounded now instance_id s in
      (is_none v.call_id ≡ is_idle v.call_state)
      × (v.sco_connected ≡ s.audio.sco_connected)
      × (is_some v.call_duration_seconds ≡ is_some s.call.call_started_at_utc)
unfolding snapshot
snapshot-consistent rounded now instance_id r ops =
    let k = run-IsConsistent r ops in
    (
      k.call_consistent.named,
      sym k.audio_consistent.ready,
      shown rounded now (run ops (initial r)).call.call_started_at ∙ k.call_consistent.stamps,
    )
  where
    shown :
        (rounded : ℕ → ℕ) (now : ℕ) (m : Option ℕ) → is_some (duration_of rounded now m) ≡ is_some m
    shown rounded now none = refl
    shown rounded now (some started) = refl
