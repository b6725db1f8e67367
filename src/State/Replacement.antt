-- ===== src/State/Replacement.antt =====
-- Teardown and completion by the owner of a connection that was replaced, and the media fields that
-- follow the SCO link, in src/hfp_mcp/state.py.
use hermes_phone_hfp.Prelude.{
  ℕ, ◌<◌, String, Bool, false, not, ◌&&◌, Option, none, some, List, ◌≡◌, arith, eq_refl,
  if◌then◌else◌,
}
use hermes_phone_hfp.Prelude.Dict.{lookup-insert, option_eq, string_eq}
use hermes_phone_hfp.State.Types.{ScoState, is_ready, Reading, no_metrics, Audio, HfpState, publish}
use hermes_phone_hfp.State.Connection.{set_connected, set_handshake_complete, set_disconnected}
use hermes_phone_hfp.State.Audio.{
  RawMetrics, set_sco_state, set_audio_client_attached, set_audio_metrics,
}
use hermes_phone_hfp.State.Health.{set_health}
use hermes_phone_hfp.State.Steps.{Op, run}
use hermes_phone_hfp.State.Generations.{run_monotone}

stale_refused :
    (r : Reading) (g : ℕ) (t : HfpState)
    → g < t.connection.connection_generation
    → (set_disconnected r (some g) t ≡ (t, false))
      × (set_handshake_complete r (some g) t ≡ (t, false))
unfolding set_disconnected set_handshake_complete
stale_refused r g t h = ground arith

connected-generation :
    (r : Reading) (address : String) (sock : ℕ) (adapter name : Option String) (s : HfpState)
    → s.connection.connection_generation
      < (set_connected r address sock adapter name s).0.connection.connection_generation
unfolding set_connected publish
connected-generation r address sock adapter name s = omega arith

-- Once a new RFCOMM connection was recorded, whatever happens next, the owner of the connection
-- before it can neither tear the state down nor complete its handshake: both are refused and
-- change nothing.
pub replaced_connection :
    (r r' : Reading) (address : String) (sock : ℕ) (adapter name : Option String) (s : HfpState)
    (ops : List (Reading × Op))
    → let t = run ops (set_connected r address sock adapter name s).0 in
      (set_disconnected r' (some s.connection.connection_generation) t ≡ (t, false))
      × (set_handshake_complete r' (some s.connection.connection_generation) t ≡ (t, false))
replaced_connection r r' address sock adapter name s ops =
    let t = (set_connected r address sock adapter name s).0 in
    stale_refused r' s.connection.connection_generation (run ops t)
      (omega (arith, connected-generation r address sock adapter name s, run_monotone ops t))

-- `stream_id is not None and stream_id != self.audio_stream_id`
abbrev pub is_new_stream : Option String → Audio → Bool
is_new_stream none a = false
is_new_stream (some id) a = not (option_eq (some id) a.audio_stream_id)

-- Counters are reset exactly by a ready link with a stream id that is not the current one; the
-- client is detached exactly by that or by a link that is not ready; and the stream id afterwards
-- is none without a ready link, and otherwise the given one, or the old one if none is given.
pub set_sco_state-stream :
    (r : Reading) (state : ScoState) (bridge owner stream : Option String) (s : HfpState)
    → let t = set_sco_state r state bridge owner stream s in
      let renewed = is_ready state && is_new_stream stream s.audio in
      (t.audio.metrics ≡ (if renewed then no_metrics else s.audio.metrics))
      × (t.audio.audio_client_attached
          ≡ (if renewed then false else is_ready state && s.audio.audio_client_attached))
      × (t.audio.audio_stream_id ≡ (
          if is_ready state
          then elim stream [ none ↦ s.audio.audio_stream_id | some id ↦ some id ]
          else none))
unfolding set_sco_state publish
set_sco_state-stream r state bridge owner none s = ground arith
set_sco_state-stream r state bridge owner (some id) s = ground arith

-- After the link is lost a client that names a stream is refused, whatever stream it names.
pub lost_link_refuses :
    (r r' : Reading) (state : ScoState) (bridge owner stream : Option String) (attached : Bool)
    (id : String) (s : HfpState)
    → is_ready state ≡ false
    → set_audio_client_attached r' attached (some id) (set_sco_state r state bridge owner stream s)
      ≡ (set_sco_state r state bridge owner stream s, false)
unfolding set_sco_state set_audio_client_attached publish
lost_link_refuses r r' state bridge owner stream attached id s lost = ground arith

-- A report that repeats what is known changes nothing, so that it publishes no revision: the same
-- metrics twice, and the same health of a component twice, are as good as once.
pub repeated_report :
    (r r' : Reading) (m : RawMetrics) (component value : String) (s : HfpState)
    → (set_audio_metrics r' m (set_audio_metrics r m s) ≡ set_audio_metrics r m s)
      × (set_health r' component value (set_health r component value s)
          ≡ set_health r component value s)
unfolding set_audio_metrics set_health publish
repeated_report r r' m component value s = (
  ground arith,
  ground
      (arith, lookup-insert component component value s.health, eq_refl component, eq_refl value),
)
