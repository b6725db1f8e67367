-- ===== src/State/Balance.antt =====
-- Which methods of src/hfp_mcp/state.py end a call, and that the call generation counts the calls
-- that begin under all others.
use hermes_phone_hfp.Prelude.{
  ℕ, ◌+◌, Bool, true, false, not, Option, List, [], ◌∷◌, All, ◌≡◌, refl, arith, Bool-cases, inl,
  inr, if◌then◌else◌,
}
use hermes_phone_hfp.State.Types.{CallState, CallDirection, is_idle, Reading, HfpState, publish}
use hermes_phone_hfp.State.Connection.{set_connecting, set_connected, set_handshake_complete}
use hermes_phone_hfp.State.Call.{Expected, set_call_state, transition_call_state, replaced}
use hermes_phone_hfp.State.Identity.{
  set_remote_identity, set_remote_identity_if, set_pending_outbound_identity,
  clear_pending_outbound_identity,
}
use hermes_phone_hfp.State.Audio.{
  RawMetrics, set_audio_active, set_sco_state, set_sco_connected, set_audio_client_attached,
  set_audio_metrics,
}
use hermes_phone_hfp.State.Health.{set_live_ai_state, set_health}
use hermes_phone_hfp.State.Steps.{Op, apply, run}
use hermes_phone_hfp.State.Generations.{transition-eq-set}
use hermes_phone_hfp.State.Transitions.{set_call_state-state, set_call_state-generation}

-- The calls that are present.
abbrev pub present : HfpState → ℕ
present s = if is_idle s.call.call_state then 0 else 1

-- A method call that leads to no idle state: no reset of the link, and no transition to idle.
abbrev pub ends_no_call : Op → Bool
ends_no_call (Op.disconnected g) = false
ends_no_call (Op.call_state state direction) = not (is_idle state)
ends_no_call (Op.transition state e direction) = not (is_idle state)
ends_no_call _ = true

abbrev pub EndsNoCall : List (Reading × Op) → Type 0
EndsNoCall ops = All (λ step. ends_no_call step.1 ≡ true) ops

-- As many calls began as the generation has moved by, and all of them are present.
abbrev pub Balanced : HfpState → HfpState → Type 0
Balanced s t = t.call.call_generation + present s ≡ s.call.call_generation + present t

set_call_state-Balanced :
    (r : Reading) (state : CallState) (direction : Option CallDirection) (s : HfpState)
    → not (is_idle state) ≡ true
    → Balanced s (set_call_state r state direction s)
set_call_state-Balanced r state direction s busy =
    let reached = set_call_state-state r state direction s in
    let moved = set_call_state-generation r state direction s in ground (arith, reached, moved)

transition-Balanced :
    (r : Reading) (state : CallState) (e : Expected) (direction : Option CallDirection)
    (s : HfpState)
    → not (is_idle state) ≡ true
    → Balanced s (transition_call_state r state e direction s).0
transition-Balanced r state e direction s busy =
    rw transition-eq-set (elim (Bool-cases (replaced e s)) [
      | inl out ↦ rw out refl
      | inr kept ↦ rw kept (set_call_state-Balanced r state direction s busy)
    ])

set_audio_metrics-Balanced :
    (r : Reading) (m : RawMetrics) (s : HfpState) → Balanced s (set_audio_metrics r m s)
unfolding set_audio_metrics publish
set_audio_metrics-Balanced r m s = ground arith

apply-Balanced :
    (r : Reading) (op : Op) (s : HfpState) → ends_no_call op ≡ true → Balanced s (apply r op s)
unfolding apply set_connecting set_connected set_handshake_complete set_remote_identity
    set_remote_identity_if set_pending_outbound_identity clear_pending_outbound_identity
    set_audio_active set_sco_state set_sco_connected set_audio_client_attached set_live_ai_state
    set_health publish
apply-Balanced r (Op.call_state state direction) s busy =
    set_call_state-Balanced r state direction s busy
apply-Balanced r (Op.transition state e direction) s busy =
    transition-Balanced r state e direction s busy
apply-Balanced r (Op.audio_metrics m) s busy = set_audio_metrics-Balanced r m s
apply-Balanced r _ s busy = ground (arith, busy)

pub run-Balanced :
    (ops : List (Reading × Op)) (s : HfpState) → EndsNoCall ops → Balanced s (run ops s)
unfolding run
run-Balanced [] s h = refl
run-Balanced ((r, op) ∷ rest) s h =
    let first = apply-Balanced r op s h.0 in
    let later = run-Balanced rest (apply r op s) h.1 in omega (arith, first, later)
