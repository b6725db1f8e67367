-- ===== src/Hfp/Dispatcher/Counts.antt =====
-- What the dispatcher of src/hfp_mcp/hfp/session.py has reported, against the state's call generation:
-- each of its handlers keeps the balance.
use hermes_phone_hfp.Prelude.{
  ◌+◌, false, not, ◌&&◌, Option, none, some, List, [], ◌∷◌, length, length-append, ◌≡◌, refl, arith,
  Bool-cases, if_both, inl, inr,
}
use hermes_phone_hfp.Prelude.Text.{Text, codes}
use hermes_phone_hfp.Prelude.Int.{ℤ}
use hermes_phone_hfp.State.Types.{CallState, is_idle, Reading, HfpState, publish}
use hermes_phone_hfp.State.Identity.{set_remote_identity}
use hermes_phone_hfp.State.Audio.{set_audio_active}
use hermes_phone_hfp.State.Connection.{set_disconnected}
use hermes_phone_hfp.State.Balance.{present}
use hermes_phone_hfp.State.Transitions.{set_call_state-state, set_call_state-generation}
use hermes_phone_hfp.Hfp.Line.{ParsedAt}
use hermes_phone_hfp.Hfp.Results
use hermes_phone_hfp.Prelude.Result.{Result, ok, err}
use hermes_phone_hfp.Hfp.Results.{
  PayloadError, ClipInfo, ClccEntry, ClccStatus, parse_clip, parse_clcc, split_comma,
}
use hermes_phone_hfp.Hfp.Broker.{handle_event}
use hermes_phone_hfp.Hfp.Dispatcher.{
  Dispatcher, Readings, set_state, end_call, reconcile_indicators, handle_ciev, apply_clcc_entries,
  apply_clip, handle_urc, dispatch, state_by_status, primary_of, identified, close, direction_text,
  is_ending, ciev_of, ciev_result, apply_ciev, set_indicator, is_call_indicator, clip_result,
  clcc_result, urc_of,
}

-- The calls that began since the start, and the one of the start, have been reported as ended or are
-- present.
pub record Counts (s : HfpState) (d : Dispatcher) : Type 0 where
  pub balance :
      length d.ended + present d.state + s.call.call_generation
      ≡ d.state.call.call_generation + present s

set_state-Counts :
    (base : HfpState) (r : Reading) (state : CallState) (direction : Option Results.CallDirection)
    (d : Dispatcher)
    → is_idle state ≡ false
    → Counts base d
    → Counts base (set_state r state direction d)
unfolding set_state
set_state-Counts base r state direction d busy h =
    let s1 = set_call_state-state r state (direction_text direction) d.state in
    let s2 = set_call_state-generation r state (direction_text direction) d.state in
    elim (Bool-cases (is_ending d.state.call.call_state && not (is_idle state))) [
      | inl kept ↦ rw kept h
      | inr free ↦ rw free (ground (arith, s1, s2))
    ]

end_call-Counts :
    (base : HfpState) (r : Readings) (reason : Text) (d : Dispatcher)
    → Counts base d
    → Counts base (end_call r reason d)
unfolding end_call set_audio_active publish
end_call-Counts base r reason d h =
    let s1 = set_call_state-state r.first CallState.idle none d.state in
    let s2 = set_call_state-generation r.first CallState.idle none d.state in
    ground (
      arith,
      s1,
      s2,
      length-append d.ended (record d.call_info { termination_reason = some reason } ∷ []),
    )

reconcile-Counts :
    (base : HfpState) (r : Readings) (d : Dispatcher)
    → Counts base d
    → Counts base (reconcile_indicators r d)
unfolding reconcile_indicators
reconcile-Counts base r d h =
    let step =
      λ (state : CallState) (direction : Option Results.CallDirection)
          (busy : is_idle state ≡ false).
        set_state-Counts base r.first state direction d busy h in
    if_both (Counts base) _ (step CallState.incoming (some Results.CallDirection.incoming) refl) (
      if_both (Counts base) _ (step CallState.dialing (some Results.CallDirection.outgoing) refl) (
        if_both (Counts base) _ (step CallState.ringing (some Results.CallDirection.outgoing) refl)
          (if_both (Counts base) _ (step CallState.held d.call_info.direction refl) (
            if_both (Counts base) _ (step CallState.active d.call_info.direction refl)
              (end_call-Counts base r _ d h)))))

apply_ciev-Counts :
    (base : HfpState) (r : Readings) (index value : ℤ) (d : Dispatcher)
    → Counts base d
    → Counts base (apply_ciev r index value d)
unfolding apply_ciev
apply_ciev-Counts base r index value d h =
    let e = record d {
      state = record d.state { indicators = (set_indicator index value d.state.indicators).1 };
    } in
    let k : Counts base e = record { balance = h.balance } in
    if_both (Counts base) (is_call_indicator (set_indicator index value d.state.indicators).0)
      (reconcile-Counts base r e k) k

ciev_result-Counts :
    (base : HfpState) (r : Readings) (pair : Option (ℤ × ℤ)) (d : Dispatcher)
    → Counts base d
    → Counts base (ciev_result r pair d)
ciev_result-Counts base r none d h = h
ciev_result-Counts base r (some (index, value)) d h = apply_ciev-Counts base r index value d h

state_by_status-busy : (status : ClccStatus) → is_idle (state_by_status status) ≡ false
state_by_status-busy status = ground arith

identified-present :
    (r : Reading) (e : ClccEntry) (number : Option Text) (s : HfpState)
    → (present (identified r e number s) ≡ present s)
      × ((identified r e number s).call.call_generation ≡ s.call.call_generation)
unfolding set_remote_identity publish
identified-present r e none s = (refl, refl)
identified-present r e (some []) s = (refl, refl)
identified-present r e (some (c ∷ cs)) s = (refl, refl)

clcc-Counts :
    (base : HfpState) (r : Readings) (entries : List ClccEntry) (d : Dispatcher)
    → Counts base d
    → Counts base (apply_clcc_entries r entries d)
unfolding apply_clcc_entries
clcc-Counts base r [] d h = end_call-Counts base r _ d h
clcc-Counts base r (c ∷ cs) d h =
    let primary = primary_of c cs in
    let e =
      set_state-Counts base r.first (state_by_status primary.status) (some primary.direction) d
        (state_by_status-busy primary.status) h in
    let k =
      identified-present r.second primary primary.number
        (set_state r.first (state_by_status primary.status) (some primary.direction) d).state in
    record { balance = omega (arith, e.balance, k.0, k.1) }

clip-Counts :
    (base : HfpState) (r : Readings) (caller : ClipInfo) (d : Dispatcher)
    → Counts base d
    → Counts base (apply_clip r caller d)
unfolding apply_clip set_remote_identity publish
clip-Counts base r caller d h = record { balance = h.balance }

clip_result-Counts :
    (base : HfpState) (r : Readings) (payload : Text) (d : Dispatcher)
    → Counts base d
    → Counts base (clip_result r payload d)
clip_result-Counts base r payload d h = by_case (parse_clip payload)
  where
    by_case :
        (m : Result PayloadError ClipInfo)
        → Counts base (elim m [ ok caller ↦ apply_clip r caller d | err _ ↦ d ])
    by_case (ok caller) = clip-Counts base r caller d h
    by_case (err e) = h

clcc_result-Counts :
    (base : HfpState) (r : Readings) (payload : Text) (d : Dispatcher)
    → Counts base d
    → Counts base (clcc_result r payload d)
clcc_result-Counts base r payload d h = by_case (parse_clcc payload)
  where
    by_case :
        (m : Result PayloadError ClccEntry)
        → Counts base (elim m [ ok entry ↦ apply_clcc_entries r (entry ∷ []) d | err _ ↦ d ])
    by_case (ok entry) = clcc-Counts base r (entry ∷ []) d h
    by_case (err e) = h

urc-Counts :
    (base : HfpState) (r : Readings) (prefix payload : Text) (d : Dispatcher)
    → Counts base d
    → Counts base (handle_urc r prefix payload d)
unfolding handle_urc handle_ciev
urc-Counts base r prefix payload d h =
    if_both (Counts base) _ (ciev_result-Counts base r (ciev_of (split_comma payload)) d h) (
      if_both (Counts base) _
        (set_state-Counts base r.first CallState.incoming (some Results.CallDirection.incoming) d
          refl h)
        (if_both (Counts base) _ (clip_result-Counts base r payload d h) (
          if_both (Counts base) _ (clcc_result-Counts base r payload d h) (
            if_both (Counts base) _ (end_call-Counts base r (codes "no_carrier") d h) (
              if_both (Counts base) _ (end_call-Counts base r (codes "busy") d h)
                (if_both (Counts base) _ (end_call-Counts base r (codes "no_answer") d h) h))))))

urc_of-Counts :
    (base : HfpState) (r : Readings) (event : ParsedAt) (d : Dispatcher)
    → Counts base d
    → Counts base (urc_of r event d)
urc_of-Counts base r (ParsedAt.response success code) d h = h
urc_of-Counts base r (ParsedAt.result prefix payload) d h = urc-Counts base r prefix payload d h
urc_of-Counts base r (ParsedAt.unsolicited prefix payload) d h =
    urc-Counts base r prefix payload d h

pub dispatch-Counts :
    (base : HfpState) (r : Readings) (event : ParsedAt) (d : Dispatcher)
    → Counts base d
    → Counts base (dispatch r event d)
unfolding dispatch
dispatch-Counts base r event d h =
    let handled = record d { broker = (handle_event event d.broker).0 } in
    let k : Counts base handled = record { balance = h.balance } in
    if_both (Counts base) (handle_event event d.broker).1 k (urc_of-Counts base r event d h)

pub close-Counts :
    (base : HfpState) (r : Readings) (d : Dispatcher) → Counts base d → Counts base (close r d)
unfolding set_disconnected publish
close-Counts base r d h = ground (
  arith,
  length-append d.ended
      (record d.call_info { termination_reason = some (codes "transport_disconnected") } ∷ []),
)
