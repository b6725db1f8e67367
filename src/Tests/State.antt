-- ===== src/Tests/State.antt =====
-- The theorems about src/hfp_mcp/state.py at concrete calls and connections.
use hermes_phone_hfp.Prelude.{
  true, false, none, some, List, [], ◌∷◌, ◌≡◌, is_none, is_some, ℕ, refl, ◌≤◌, arith, ◌≢◌,
}
use hermes_phone_hfp.Prelude.Text.{Text, codes}
use hermes_phone_hfp.Prelude.Int.{pos, negsuc}
use hermes_phone_hfp.State.Types.{
  CallState, ScoState, Reading, HfpState, is_idle, initial, publish, no_metrics,
}
use hermes_phone_hfp.State.Connection.{set_connected, set_disconnected, set_handshake_complete}
use hermes_phone_hfp.State.Call.{
  Expected, set_call_state, transition_call_state, set_direction, settle_pending, begin_call,
  name_call, enter_state, audio_after,
}
use hermes_phone_hfp.State.Identity.{
  Identity, set_remote_identity_if, set_pending_outbound_identity, clear_pending_outbound_identity,
}
use hermes_phone_hfp.State.Audio.{
  RawMetrics, set_sco_state, set_audio_client_attached, set_audio_metrics,
}
use hermes_phone_hfp.State.Health.{set_health}
use hermes_phone_hfp.State.Steps.{Op, apply, run}
use hermes_phone_hfp.State.Invariant.{IsConsistent, run-IsConsistent}
use hermes_phone_hfp.State.Generations.{outlived_refused, run_monotone}
use hermes_phone_hfp.State.Pending.{party, nobody, pending-settled, clear-pending, clear-pending_ne}
use hermes_phone_hfp.State.Snapshot.{
  versioned_snapshot, snapshot, dialed-verified, snapshot-consistent,
}
use hermes_phone_hfp.State.Replacement.{
  replaced_connection, set_sco_state-stream, lost_link_refuses, repeated_report,
}

abbrev noon : Reading
noon = record { monotonic = 120; utc_now = "2026-01-01T12:00:00Z"; uuid = "call-a" }

abbrev later : Reading
later = record { monotonic = 180; utc_now = "2026-01-01T12:01:00Z"; uuid = "call-b" }

abbrev start : HfpState
start = initial noon

abbrev rings : List (Reading × Op)
rings = (noon, Op.call_state CallState.incoming none) ∷ []

abbrev hangs_up : List (Reading × Op)
hangs_up = (noon, Op.call_state CallState.idle none) ∷ []

abbrev rings_again : List (Reading × Op)
rings_again = (later, Op.call_state CallState.incoming none) ∷ []

abbrev observed : Expected
observed = record {
  expected_call_id = some "call-a";
  expected_generation = 1;
  allowed_states = CallState.incoming ∷ [];
  expected_connection_generation = none;
}

abbrev caller : Identity
caller = record {
  number = some (codes "+15550100");
  source = "clip";
  name = none;
  direction = none;
  caller_role = none;
}

outlived_refused_example :
    let t = run rings_again (run hangs_up (run rings start)) in
    (transition_call_state later CallState.active observed none t ≡ (t, false))
    × (set_remote_identity_if later "call-a" 1 caller t ≡ (t, false))
unfolding run apply set_call_state set_direction settle_pending begin_call name_call enter_state
    publish audio_after
outlived_refused_example =
    outlived_refused (run rings start) hangs_up rings_again later CallState.active observed none
      "call-a" caller refl refl refl

run-IsConsistent_example : IsConsistent (run rings (initial noon))
run-IsConsistent_example = run-IsConsistent noon rings

run_monotone_example :
    (start.connection.connection_generation ≤ (run rings start).connection.connection_generation)
    × (start.call.call_generation ≤ (run rings start).call.call_generation)
    × (start.revision ≤ (run rings start).revision)
run_monotone_example = run_monotone rings start

abbrev dialed : Text
dialed = codes "+15550111"

pending-settled_example :
    party (
      set_call_state later CallState.incoming none
        (set_pending_outbound_identity noon dialed "admin" 0 0 start).0)
    ≡ nobody
unfolding set_pending_outbound_identity publish
pending-settled_example =
    pending-settled noon later dialed "admin" 0 0 start CallState.incoming none refl refl

clear-pending_example :
    party
      (clear_pending_outbound_identity later dialed 0 0
        (set_pending_outbound_identity noon dialed "contact" 0 0 start).0).0
    ≡ nobody
unfolding set_pending_outbound_identity publish
clear-pending_example = clear-pending noon later dialed "contact" 0 0 start refl

dialed_ne : dialed ≢ codes "+15550112"
dialed_ne e = ground (arith, e)

clear-pending_ne_example :
    clear_pending_outbound_identity later
      (codes "+15550112")
      0
      0
      (set_pending_outbound_identity noon dialed "contact" 0 0 start).0
    ≡ ((set_pending_outbound_identity noon dialed "contact" 0 0 start).0, false)
unfolding set_pending_outbound_identity publish
clear-pending_ne_example =
    clear-pending_ne noon later dialed (codes "+15550112") "contact" 0 0 0 0 start refl dialed_ne

replaced_connection_example :
    let t = run rings (set_connected noon "AA:BB" 7 none none start).0 in
    (set_disconnected later (some 0) t ≡ (t, false))
    × (set_handshake_complete later (some 0) t ≡ (t, false))
replaced_connection_example = replaced_connection noon later "AA:BB" 7 none none start rings

set_sco_state-stream_example :
    let t = set_sco_state noon ScoState.ready none (some "gemini_live") (some "audio-1") start in
    (t.audio.metrics ≡ no_metrics)
    × (t.audio.audio_client_attached ≡ false)
    × (t.audio.audio_stream_id ≡ some "audio-1")
set_sco_state-stream_example =
    set_sco_state-stream noon ScoState.ready none (some "gemini_live") (some "audio-1") start

lost_link_refuses_example :
    set_audio_client_attached later true
      (some "audio-1")
      (set_sco_state noon ScoState.disconnected none none none start)
    ≡ (set_sco_state noon ScoState.disconnected none none none start, false)
lost_link_refuses_example =
    lost_link_refuses noon later ScoState.disconnected none none none true "audio-1" start refl

abbrev counters : RawMetrics
counters = record {
  queue_ms = pos 40;
  dropped_frames = negsuc 2;
  queue_peak_ms = pos 60;
  overflow_events = pos 1;
  rejected_bytes = pos 0;
  accepted_bytes = pos 640;
  consumed_bytes = pos 320;
  playback_controlled = true;
  playback_target_ms = pos 80;
  playback_underrun_events = pos 0;
  playback_underrun_ms = pos 0;
  capture_queue_ms = pos 20;
  capture_queue_peak_ms = pos 20;
  capture_overflow_bytes = pos 0;
}

repeated_report_example :
    (set_audio_metrics later counters (set_audio_metrics noon counters start)
      ≡ set_audio_metrics noon counters start)
    × (set_health later "gemini" "ok" (set_health noon "gemini" "ok" start)
        ≡ set_health noon "gemini" "ok" start)
repeated_report_example = repeated_report noon later counters "gemini" "ok" start

abbrev tenths : ℕ → ℕ
tenths d = d

dialed-verified_example :
    let dial = (set_pending_outbound_identity noon dialed "contact" 0 0 start).0 in
    ((versioned_snapshot tenths 200 "daemon" dial).call.remote_number_verified ≡ false)
    × ((versioned_snapshot tenths 200 "daemon"
          (set_call_state later CallState.incoming none dial)).call.remote_number_verified
        ≡ false)
unfolding set_pending_outbound_identity publish
dialed-verified_example =
    dialed-verified tenths 200 "daemon" noon later 43 (codes "15550111") "contact" 0 0 start
      CallState.incoming none refl refl

snapshot-consistent_example :
    let s = run rings (initial noon) in
    let v = snapshot tenths 200 "daemon" s in
    (is_none v.call_id ≡ is_idle v.call_state)
    × (v.sco_connected ≡ s.audio.sco_connected)
    × (is_some v.call_duration_seconds ≡ is_some s.call.call_started_at_utc)
snapshot-consistent_example = snapshot-consistent tenths 200 "daemon" noon rings
