-- ===== src/State/Invariant.antt =====
-- What holds of the runtime state between two method calls.
use hermes_phone_hfp.Prelude.{
  ◌<◌, true, false, Option, none, List, ◌≡◌, arith, is_some, is_none, Bool-cases, inl, inr,
}
use hermes_phone_hfp.State.Types.{
  CallDirection, CallState, is_idle, is_ready, Reading, Call, Audio, HfpState, publish, initial,
}
use hermes_phone_hfp.State.Connection.{
  set_connecting, set_connected, set_handshake_complete, set_disconnected,
}
use hermes_phone_hfp.State.Call.{
  Expected, set_call_state, transition_call_state, set_direction, settle_pending, begin_call,
  name_call, enter_state, audio_after, same_state, replaced,
}
use hermes_phone_hfp.State.Identity.{
  set_remote_identity, set_remote_identity_if, set_pending_outbound_identity,
  clear_pending_outbound_identity,
}
use hermes_phone_hfp.State.Audio.{
  RawMetrics, set_audio_active, set_sco_state, set_sco_connected, set_audio_client_attached,
  set_audio_metrics,
}
use hermes_phone_hfp.State.Health.{set_live_ai_state, set_health}
use hermes_phone_hfp.State.Steps.{Op, apply, run, run_induction}

pub record CallIsConsistent (c : Call) : Type 0 where
  -- A call has an id exactly while it is not idle, and was counted.
  pub named : is_none c.call_id ≡ is_idle c.call_state
  pub counted : is_idle c.call_state ≡ false → 0 < c.call_generation
  -- An active call has a start, an idle one has none, and the two stamps go together.
  pub started : c.call_state ≡ CallState.active → is_some c.call_started_at ≡ true
  pub unstarted : is_idle c.call_state ≡ true → is_none c.call_started_at ≡ true
  pub stamps : is_some c.call_started_at ≡ is_some c.call_started_at_utc

pub record AudioIsConsistent (a : Audio) : Type 0 where
  pub ready : a.sco_connected ≡ is_ready a.sco_state
  pub owned : is_ready a.sco_state ≡ false → a.audio_owner ≡ none
  pub streamed : is_ready a.sco_state ≡ false → a.audio_stream_id ≡ none

pub record IsConsistent (s : HfpState) : Type 0 where
  pub call_consistent : CallIsConsistent s.call
  pub audio_consistent : AudioIsConsistent s.audio
  -- Every revision was announced once.
  pub published : s.revision ≡ s.notified

-- The blocks of the two call methods from the second on, over a call whose first block ran.
enter-CallIsConsistent :
    (r : Reading) (state : CallState) (c d : Call)
    → CallIsConsistent c
    → d.call_state ≡ c.call_state
    → d.call_id ≡ c.call_id
    → d.call_generation ≡ c.call_generation
    → d.call_started_at ≡ c.call_started_at
    → d.call_started_at_utc ≡ c.call_started_at_utc
    → CallIsConsistent (enter_state r state (name_call r state (begin_call c.call_state state d)))
unfolding enter_state name_call begin_call
enter-CallIsConsistent r CallState.idle c d h e1 e2 e3 e4 e5 = ground arith
enter-CallIsConsistent r _ c d h e1 e2 e3 e4 e5 = ground arith

-- Those two blocks touch the identity of the remote party only.
abbrev SameProgress : Call → Call → Type 0
SameProgress d c =
    (d.call_state ≡ c.call_state)
    × (d.call_id ≡ c.call_id)
    × (d.call_generation ≡ c.call_generation)
    × (d.call_started_at ≡ c.call_started_at)
    × (d.call_started_at_utc ≡ c.call_started_at_utc)

settle-SameProgress :
    (state : CallState) (direction : Option CallDirection) (c : Call)
    → SameProgress (settle_pending c.call_state state (set_direction state direction c)) c
unfolding settle_pending set_direction
settle-SameProgress state direction c = ground arith

entered-CallIsConsistent :
    (r : Reading) (state : CallState) (direction : Option CallDirection) (c : Call)
    → CallIsConsistent c
    → CallIsConsistent (
        enter_state r state (
          name_call r state (
            begin_call c.call_state state
              (settle_pending c.call_state state (set_direction state direction c)))))
entered-CallIsConsistent r state direction c h =
    let k = settle-SameProgress state direction c in
    enter-CallIsConsistent r state c _ h k.0 k.1 k.2 k.3 k.4

after-AudioIsConsistent :
    (state : CallState) (a : Audio) → AudioIsConsistent a → AudioIsConsistent (audio_after state a)
unfolding audio_after
after-AudioIsConsistent state a h = ground arith

-- The state that the two call methods leave before they publish it.
entered-IsConsistent :
    (r : Reading) (state : CallState) (direction : Option CallDirection) (s : HfpState)
    → IsConsistent s
    → IsConsistent (record s {
      call = enter_state r state (
          name_call r state (
            begin_call s.call.call_state state
              (settle_pending s.call.call_state state (set_direction state direction s.call))));
      audio = audio_after state s.audio;
    })
entered-IsConsistent r state direction s h = record {
  call_consistent = entered-CallIsConsistent r state direction s.call h.call_consistent;
  audio_consistent = after-AudioIsConsistent state s.audio h.audio_consistent;
  published = h.published;
}

publish-IsConsistent : (r : Reading) (s : HfpState) → IsConsistent s → IsConsistent (publish r s)
unfolding publish
publish-IsConsistent r s h = ground arith

set_call_state-IsConsistent :
    (r : Reading) (state : CallState) (direction : Option CallDirection) (s : HfpState)
    → IsConsistent s
    → IsConsistent (set_call_state r state direction s)
unfolding set_call_state
set_call_state-IsConsistent r state direction s h =
    elim (Bool-cases (same_state state s.call.call_state)) [
      | inl e ↦ rw e (entered-IsConsistent r state direction s h)
      | inr e ↦ rw e (publish-IsConsistent r _ (entered-IsConsistent r state direction s h))
    ]

transition_call_state-IsConsistent :
    (r : Reading) (state : CallState) (e : Expected) (direction : Option CallDirection)
    (s : HfpState)
    → IsConsistent s
    → IsConsistent (transition_call_state r state e direction s).0
unfolding transition_call_state
transition_call_state-IsConsistent r state e direction s h = elim (Bool-cases (replaced e s)) [
  | inl out ↦ rw out h
  | inr kept ↦ rw kept (elim (Bool-cases (same_state state s.call.call_state)) [
    | inl same ↦ rw same (entered-IsConsistent r state direction s h)
    | inr new ↦ rw new (publish-IsConsistent r _ (entered-IsConsistent r state direction s h))
  ])
]

set_audio_metrics-IsConsistent :
    (r : Reading) (m : RawMetrics) (s : HfpState)
    → IsConsistent s
    → IsConsistent (set_audio_metrics r m s)
unfolding set_audio_metrics
set_audio_metrics-IsConsistent r m s h = ground arith

-- Every method, whatever its arguments, keeps the state consistent.
apply-IsConsistent :
    (r : Reading) (op : Op) (s : HfpState) → IsConsistent s → IsConsistent (apply r op s)
unfolding apply set_connecting set_connected set_handshake_complete set_disconnected
    set_remote_identity set_remote_identity_if set_pending_outbound_identity
    clear_pending_outbound_identity set_audio_active set_sco_state set_sco_connected
    set_audio_client_attached set_live_ai_state set_health
apply-IsConsistent r (Op.call_state state direction) s h =
    set_call_state-IsConsistent r state direction s h
apply-IsConsistent r (Op.transition state e direction) s h =
    transition_call_state-IsConsistent r state e direction s h
apply-IsConsistent r (Op.audio_metrics m) s h = set_audio_metrics-IsConsistent r m s h
apply-IsConsistent r _ s h = ground arith

initial-IsConsistent : (r : Reading) → IsConsistent (initial r)
initial-IsConsistent r = ground arith

-- Every state that the daemon reaches, by any method calls in any order, is consistent: a call has
-- an id, and was counted, exactly while it is not idle; an active call has a start and an idle one
-- none; the audio fields agree with the SCO state; and each revision was announced once.
pub run-IsConsistent :
    (r : Reading) (ops : List (Reading × Op)) → IsConsistent (run ops (initial r))
run-IsConsistent r ops =
    run_induction IsConsistent apply-IsConsistent ops (initial r) (initial-IsConsistent r)
