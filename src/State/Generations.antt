-- ===== src/State/Generations.antt =====
-- The counters of src/hfp_mcp/state.py only grow, and a new call takes a new generation, so that a
-- compare-and-set on an old observation fails.
use hermes_phone_hfp.Prelude.{
  ℕ, ◌≤◌, ◌<◌, String, true, false, Option, List, ◌≡◌, arith, Bool-cases, inl, inr, ◌==◌,
  if◌then◌else◌,
}
use hermes_phone_hfp.State.Types.{
  CallState, CallDirection, is_idle, Reading, Call, HfpState, publish,
}
use hermes_phone_hfp.State.Connection.{
  set_connecting, set_connected, set_handshake_complete, set_disconnected,
}
use hermes_phone_hfp.State.Call.{
  Expected, set_call_state, transition_call_state, set_direction, settle_pending, begin_call,
  name_call, enter_state, audio_after, replaced, same_state,
}
use hermes_phone_hfp.State.Identity.{
  Identity, set_remote_identity, set_remote_identity_if, set_pending_outbound_identity,
  clear_pending_outbound_identity,
}
use hermes_phone_hfp.State.Audio.{
  RawMetrics, set_audio_active, set_sco_state, set_sco_connected, set_audio_client_attached,
  set_audio_metrics,
}
use hermes_phone_hfp.State.Health.{set_live_ai_state, set_health}
use hermes_phone_hfp.State.Steps.{Op, apply, run, run_induction}

-- A call that begins takes a new generation.
pub record Grows (s t : HfpState) : Type 0 where
  pub connections : s.connection.connection_generation ≤ t.connection.connection_generation
  pub calls : s.call.call_generation ≤ t.call.call_generation
  pub revisions : s.revision ≤ t.revision
  pub begins :
      is_idle s.call.call_state ≡ true
      → is_idle t.call.call_state ≡ false
      → s.call.call_generation < t.call.call_generation

settle-call_generation :
    (previous state : CallState) (direction : Option CallDirection) (c : Call)
    → (settle_pending previous state (set_direction state direction c)).call_generation
      ≡ c.call_generation
unfolding settle_pending set_direction
settle-call_generation previous state direction c = ground arith

enter-Grows :
    (r : Reading) (state : CallState) (c d : Call)
    → d.call_generation ≡ c.call_generation
    → let e = enter_state r state (name_call r state (begin_call c.call_state state d)) in
      (c.call_generation ≤ e.call_generation)
      × (is_idle c.call_state ≡ true
          → is_idle e.call_state ≡ false
          → c.call_generation < e.call_generation)
unfolding enter_state name_call begin_call
enter-Grows r CallState.idle c d e = ground arith
enter-Grows r _ c d e = ground arith

entered-Grows :
    (r : Reading) (state : CallState) (direction : Option CallDirection) (s : HfpState)
    → Grows s (record s {
      call = enter_state r state (
          name_call r state (
            begin_call s.call.call_state state
              (settle_pending s.call.call_state state (set_direction state direction s.call))));
      audio = audio_after state s.audio;
    })
entered-Grows r state direction s =
    let k =
      enter-Grows r state s.call _
        (settle-call_generation s.call.call_state state direction s.call) in
    record { connections = omega arith; calls = k.0; revisions = omega arith; begins = k.1 }

publish-Grows : (r : Reading) (s t : HfpState) → Grows s t → Grows s (publish r t)
unfolding publish
publish-Grows r s t h = record {
  connections = h.connections;
  calls = h.calls;
  revisions = omega (arith, h.revisions);
  begins = h.begins;
}

set_call_state-Grows :
    (r : Reading) (state : CallState) (direction : Option CallDirection) (s : HfpState)
    → Grows s (set_call_state r state direction s)
unfolding set_call_state
set_call_state-Grows r state direction s = elim (Bool-cases (same_state state s.call.call_state)) [
  | inl e ↦ rw e (entered-Grows r state direction s)
  | inr e ↦ rw e (publish-Grows r s _ (entered-Grows r state direction s))
]

Grows-refl : (s : HfpState) → Grows s s
Grows-refl s = ground arith

-- The two methods are composed of the same blocks.
pub transition-eq-set :
    (r : Reading) (state : CallState) (e : Expected) (direction : Option CallDirection)
    (s : HfpState)
    → transition_call_state r state e direction s
      ≡ (if replaced e s then (s, false) else (set_call_state r state direction s, true))
unfolding transition_call_state set_call_state
transition-eq-set r state e direction s = elim (Bool-cases (replaced e s)) [
  | inl out ↦ rw out
  | inr kept ↦ rw kept (elim (Bool-cases (same_state state s.call.call_state)) [
    | inl same ↦ rw same
    | inr new ↦ rw new
  ])
]

transition-Grows :
    (r : Reading) (state : CallState) (e : Expected) (direction : Option CallDirection)
    (s : HfpState)
    → Grows s (transition_call_state r state e direction s).0
transition-Grows r state e direction s = rw transition-eq-set (elim (Bool-cases (replaced e s)) [
  | inl out ↦ rw out (Grows-refl s)
  | inr kept ↦ rw kept (set_call_state-Grows r state direction s)
])

set_audio_metrics-Grows :
    (r : Reading) (m : RawMetrics) (s : HfpState) → Grows s (set_audio_metrics r m s)
unfolding set_audio_metrics
set_audio_metrics-Grows r m s = ground arith

pub apply-Grows : (r : Reading) (op : Op) (s : HfpState) → Grows s (apply r op s)
unfolding apply set_connecting set_connected set_handshake_complete set_disconnected
    set_remote_identity set_remote_identity_if set_pending_outbound_identity
    clear_pending_outbound_identity set_audio_active set_sco_state set_sco_connected
    set_audio_client_attached set_live_ai_state set_health
apply-Grows r (Op.call_state state direction) s = set_call_state-Grows r state direction s
apply-Grows r (Op.transition state e direction) s = transition-Grows r state e direction s
apply-Grows r (Op.audio_metrics m) s = set_audio_metrics-Grows r m s
apply-Grows r _ s = ground arith

Grows-trans : (s t u : HfpState) → Grows s t → Grows t u → Grows s u
Grows-trans s t u g h = record {
  connections = omega (arith, g.connections, h.connections);
  calls = omega (arith, g.calls, h.calls);
  revisions = omega (arith, g.revisions, h.revisions);
  begins = λ i n. elim (Bool-cases (is_idle t.call.call_state)) [
    | inl idle ↦ omega (arith, g.calls, h.begins idle n)
    | inr present ↦ omega (arith, g.begins i present, h.calls)
  ];
}

pub run-Grows : (ops : List (Reading × Op)) (s : HfpState) → Grows s (run ops s)
run-Grows ops s =
    run_induction (Grows s) (λ r op t h. Grows-trans s t (apply r op t) h (apply-Grows r op t)) ops
      s (Grows-refl s)

-- Over any execution the revision and both generations never go back.
pub run_monotone :
    (ops : List (Reading × Op)) (s : HfpState)
    → (s.connection.connection_generation ≤ (run ops s).connection.connection_generation)
      × (s.call.call_generation ≤ (run ops s).call.call_generation)
      × (s.revision ≤ (run ops s).revision)
run_monotone ops s = let g = run-Grows ops s in (g.connections, g.calls, g.revisions)

-- Between an observation and a moment at which a call is present, the call generation has moved if
-- no call was present somewhere between the two.
outlived-generation :
    (s : HfpState) (between later : List (Reading × Op)) (g : ℕ)
    → g ≡ s.call.call_generation
    → is_idle (run between s).call.call_state ≡ true
    → is_idle (run later (run between s)).call.call_state ≡ false
    → ((run later (run between s)).call.call_generation == g) ≡ false
outlived-generation s between later g observed ended present =
    let first = run-Grows between s in
    let second = run-Grows later (run between s) in
    ground (arith, first.calls, observed, second.begins ended present)

-- An observation of a call that has ended can never act on a later call: where no call was present
-- at some moment behind the observation, and a call is present now, the guarded transition and the
-- guarded identity update are both refused and leave the state as it is.
pub outlived_refused :
    (s : HfpState) (between later : List (Reading × Op)) (r : Reading) (state : CallState)
    (e : Expected) (direction : Option CallDirection) (id : String) (i : Identity)
    → e.expected_generation ≡ s.call.call_generation
    → is_idle (run between s).call.call_state ≡ true
    → is_idle (run later (run between s)).call.call_state ≡ false
    → let t = run later (run between s) in
      (transition_call_state r state e direction t ≡ (t, false))
      × (set_remote_identity_if r id e.expected_generation i t ≡ (t, false))
unfolding replaced set_remote_identity_if
outlived_refused s between later r state e direction id i observed ended present =
    let apart = outlived-generation s between later e.expected_generation observed ended present in
    (rw transition-eq-set (ground (arith, apart)), ground (arith, apart))
