-- ===== src/State/Steps.antt =====
-- The methods of src/hfp_mcp/state.py as the steps of one state machine. The threads of the daemon
-- interleave at the lock, so an execution is a list of method calls, each with its clock readings.
use hermes_phone_hfp.Prelude.{ℕ, String, Bool, Option, List, [], ◌∷◌, ◌++◌, ◌≡◌, refl}
use hermes_phone_hfp.Prelude.Text.{Text}
use hermes_phone_hfp.State.Types.{CallState, CallDirection, ScoState, LiveValue, Reading, HfpState}
use hermes_phone_hfp.State.Connection.{
  set_connecting, set_connected, set_handshake_complete, set_disconnected,
}
use hermes_phone_hfp.State.Call.{Expected, set_call_state, transition_call_state}
use hermes_phone_hfp.State.Identity.{
  Identity, set_remote_identity, set_remote_identity_if, set_pending_outbound_identity,
  clear_pending_outbound_identity,
}
use hermes_phone_hfp.State.Audio.{
  RawMetrics, set_audio_active, set_sco_state, set_sco_connected, set_audio_client_attached,
  set_audio_metrics,
}
use hermes_phone_hfp.State.Health.{set_live_ai_state, set_health}

pub data Op : Type 0 where
  connecting : String → Op
  connected : String → ℕ → Option String → Option String → Op
  handshake_complete : Option ℕ → Op
  disconnected : Option ℕ → Op
  call_state : CallState → Option CallDirection → Op
  transition : CallState → Expected → Option CallDirection → Op
  identity : Identity → Op
  identity_if : String → ℕ → Identity → Op
  pending_outbound : Text → String → ℕ → ℕ → Op
  clear_pending : Text → ℕ → ℕ → Op
  audio_active : Bool → Op
  sco_state : ScoState → Option String → Option String → Option String → Op
  sco_connected : Bool → Op
  client_attached : Bool → Option String → Op
  audio_metrics : RawMetrics → Op
  live_ai : List (String × LiveValue) → Op
  health : String → String → Op

-- The state after one method call, its result left out.
unfoldable pub apply : Reading → Op → HfpState → HfpState
apply r (Op.connecting address) s = (set_connecting r address s).0
apply r (Op.connected address sock adapter name) s = (set_connected r address sock adapter name s).0
apply r (Op.handshake_complete g) s = (set_handshake_complete r g s).0
apply r (Op.disconnected g) s = (set_disconnected r g s).0
apply r (Op.call_state state direction) s = set_call_state r state direction s
apply r (Op.transition state e direction) s = (transition_call_state r state e direction s).0
apply r (Op.identity i) s = set_remote_identity r i s
apply r (Op.identity_if id g i) s = (set_remote_identity_if r id g i s).0
apply r (Op.pending_outbound number role c g) s =
    (set_pending_outbound_identity r number role c g s).0
apply r (Op.clear_pending number c g) s = (clear_pending_outbound_identity r number c g s).0
apply r (Op.audio_active active) s = set_audio_active r active s
apply r (Op.sco_state state bridge owner stream) s = set_sco_state r state bridge owner stream s
apply r (Op.sco_connected up) s = set_sco_connected r up s
apply r (Op.client_attached attached stream) s = (set_audio_client_attached r attached stream s).0
apply r (Op.audio_metrics m) s = set_audio_metrics r m s
apply r (Op.live_ai values) s = set_live_ai_state r values s
apply r (Op.health component value) s = set_health r component value s

-- An execution: method calls in the order in which they take the lock.
unfoldable pub run : List (Reading × Op) → HfpState → HfpState
run [] s = s
run ((r, op) ∷ rest) s = run rest (apply r op s)

pub run-append : (xs ys : List (Reading × Op)) (s : HfpState) → run (xs ++ ys) s ≡ run ys (run xs s)
unfolding run
run-append [] ys s = refl
run-append ((r, op) ∷ xs) ys s = run-append xs ys (apply r op s)

-- What every step keeps, every execution keeps.
module _ {ℓ} (P : HfpState → Type ℓ)
    (step : (r : Reading) (op : Op) (s : HfpState) → P s → P (apply r op s)) where
  pub run_induction : (ops : List (Reading × Op)) (s : HfpState) → P s → P (run ops s)
  unfolding run
  run_induction [] s h = h
  run_induction ((r, op) ∷ rest) s h = run_induction rest (apply r op s) (step r op s h)
