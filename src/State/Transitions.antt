-- ===== src/State/Transitions.antt =====
-- Where `set_call_state` of src/hfp_mcp/state.py leads: the state it is given, and a generation more
-- exactly when a call begins.
use hermes_phone_hfp.Prelude.{
  suc, not, ◌&&◌, Option, ◌≡◌, refl, arith, Bool-cases, inl, inr, if◌then◌else◌,
}
use hermes_phone_hfp.State.Types.{
  CallState, CallDirection, is_idle, Reading, Call, HfpState, publish,
}
use hermes_phone_hfp.State.Call.{
  set_call_state, set_direction, settle_pending, begin_call, name_call, enter_state, same_state,
}

enter-state :
    (r : Reading) (state : CallState) (c : Call) → (enter_state r state c).call_state ≡ state
unfolding enter_state
enter-state r CallState.idle c = refl
enter-state r CallState.active c = ground arith
enter-state r _ c = refl

enter-generation :
    (r : Reading) (state previous : CallState) (direction : Option CallDirection) (c : Call)
    → let e = enter_state r state (
        name_call r state (
          begin_call previous state
            (settle_pending previous state (set_direction state direction c)))) in
      e.call_generation ≡ (
        if is_idle previous && not (is_idle state)
        then suc c.call_generation
        else c.call_generation)
unfolding enter_state name_call begin_call settle_pending set_direction
enter-generation r CallState.idle previous direction c = ground arith
enter-generation r CallState.active previous direction c = ground arith
enter-generation r _ previous direction c = ground arith

module _ (r : Reading) (state : CallState) (direction : Option CallDirection) (s : HfpState) where
  pub set_call_state-state : (set_call_state r state direction s).call.call_state ≡ state
  unfolding set_call_state publish
  set_call_state-state = elim (Bool-cases (same_state state s.call.call_state)) [
    | inl e ↦ rw e (enter-state r state _)
    | inr e ↦ rw e (enter-state r state _)
  ]

  pub set_call_state-generation : (set_call_state r state direction s).call.call_generation ≡ (
      if is_idle s.call.call_state && not (is_idle state)
      then suc s.call.call_generation
      else s.call.call_generation)
  unfolding set_call_state publish
  set_call_state-generation =
      ground (arith, enter-generation r state s.call.call_state direction s.call)
