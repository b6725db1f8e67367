-- ===== src/Hfp/CurrentCalls.antt =====
-- What `ATEventDispatcher` of src/hfp_mcp/hfp/session.py makes of the current calls.
use hermes_phone_hfp.Prelude.{ℕ, String, Option, none, some, List, [], ◌∷◌, ltb, if◌then◌else◌}
use hermes_phone_hfp.Prelude.Text.{Text, codes}
use hermes_phone_hfp.Prelude.Dict.{text_equality}
use hermes_phone_hfp.State.Types.{CallState, CallDirection, Reading, HfpState}
use hermes_phone_hfp.State.Identity.{set_remote_identity}
use hermes_phone_hfp.Hfp.Results
use hermes_phone_hfp.Hfp.Results.{
  ClipInfo, ClccStatus, ClccEntry, split_comma, parse_clip, parse_clcc,
}
use hermes_phone_hfp.Hfp.Reports.{
  CallInfo, Dispatcher, Readings, notify_call_info, set_state, end_call,
}

abbrev pub priority : ClccStatus → ℕ
priority ClccStatus.active = 0
priority ClccStatus.incoming = 1
priority ClccStatus.waiting = 1
priority ClccStatus.dialing = 2
priority ClccStatus.alerting = 3
priority ClccStatus.held = 4
priority ClccStatus.held_by_response = 4

-- `min(calls, key=...)`: the first of the least.
unfoldable pub primary_of : ClccEntry → List ClccEntry → ClccEntry
primary_of best [] = best
primary_of best (c ∷ cs) =
    primary_of (if ltb (priority c.status) (priority best.status) then c else best) cs

abbrev pub state_by_status : ClccStatus → CallState
state_by_status ClccStatus.active = CallState.active
state_by_status ClccStatus.held = CallState.held
state_by_status ClccStatus.dialing = CallState.dialing
state_by_status ClccStatus.alerting = CallState.ringing
state_by_status ClccStatus.incoming = CallState.incoming
state_by_status ClccStatus.waiting = CallState.incoming
state_by_status ClccStatus.held_by_response = CallState.active

-- `a or b` on optional texts.
abbrev pub or_text : Option Text → Option Text → Option Text
or_text none b = b
or_text (some []) b = b
or_text (some (c ∷ cs)) b = some (c ∷ cs)

abbrev pub identify :
    Reading → String → Option Text → Option Text → CallDirection → HfpState → HfpState
identify r source number name direction s =
    set_remote_identity r
      (record {
        number = number;
        source = source;
        name = name;
        direction = some direction;
        caller_role = none;
      })
      s

abbrev pub stated : Results.CallDirection → CallDirection
stated Results.CallDirection.incoming = CallDirection.incoming
stated Results.CallDirection.outgoing = CallDirection.outgoing

abbrev pub identified : Reading → ClccEntry → Option Text → HfpState → HfpState
identified r e none s = s
identified r e (some []) s = s
identified r e (some (c ∷ cs)) s =
    identify r "clcc_unvalidated" (some (c ∷ cs)) e.name (stated e.direction) s

unfoldable pub apply_clcc_entries : Readings → List ClccEntry → Dispatcher → Dispatcher
apply_clcc_entries r [] d = end_call r (codes "disconnected") d
apply_clcc_entries r (c ∷ cs) d =
    let primary = primary_of c cs in
    let e = set_state r.first (state_by_status primary.status) (some primary.direction) d in
    let info : CallInfo = record {
      generation = e.call_info.generation;
      direction = some primary.direction;
      number = or_text primary.number e.call_info.number;
      name = or_text primary.name e.call_info.name;
      calls = c ∷ cs;
      termination_reason = none;
      was_active = e.call_info.was_active;
    } in
    notify_call_info
      (record e { call_info = info; state = identified r.second primary primary.number e.state })
