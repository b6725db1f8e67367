-- ===== src/State/Identity.antt =====
-- The remote party's identity in src/hfp_mcp/state.py.
use hermes_phone_hfp.Prelude.{
  ℕ, String, Bool, true, false, not, ◌||◌, Option, none, some, is_some, ◌==◌, if◌then◌else◌,
}
use hermes_phone_hfp.Prelude.Text.{Text}
use hermes_phone_hfp.Prelude.Dict.{option_eq, string_eq, text_equality}
use hermes_phone_hfp.State.Types.{CallDirection, is_idle, Reading, HfpState, publish}
use hermes_phone_hfp.State.Call.{forget_remote}

-- The keyword arguments of `set_remote_identity`.
pub record Identity : Type 0 where
  pub number : Option Text
  pub source : String
  pub name : Option Text
  pub direction : Option CallDirection
  pub caller_role : Option String

abbrev role_after : Option String → Option Text → String → String
role_after (some role) number old = role
role_after none none old = "unknown"
role_after none (some _) old = old

abbrev kept_direction : Option CallDirection → CallDirection → CallDirection
kept_direction none old = old
kept_direction (some d) old = d

unfoldable pub set_remote_identity : Reading → Identity → HfpState → HfpState
unfolding publish
set_remote_identity r i s = publish r (record s {
  call = record s.call {
    remote_number = i.number;
    remote_number_source = some i.source;
    remote_name = i.name;
    call_direction = kept_direction i.direction s.call.call_direction;
    caller_role = role_after i.caller_role i.number s.call.caller_role;
  };
})

unfoldable pub set_remote_identity_if : Reading → String → ℕ → Identity → HfpState → HfpState × Bool
unfolding publish
set_remote_identity_if r call_id call_generation i s =
    if not (option_eq s.call.call_id (some call_id))
      || not (s.call.call_generation == call_generation)
    then (s, false)
    else (
      publish r (record s {
        call = record s.call {
          remote_number = i.number;
          remote_number_source = some i.source;
          remote_name = i.name;
          call_direction = kept_direction i.direction s.call.call_direction;
          caller_role = role_after i.caller_role i.number s.call.caller_role;
        };
      }),
      true,
    )

-- The guard that both outbound methods begin with.
abbrev pub not_idle_at : ℕ → ℕ → HfpState → Bool
not_idle_at expected_connection expected_call s =
    not (s.connection.connection_generation == expected_connection)
    || (not (s.call.call_generation == expected_call)
        || (not (is_idle s.call.call_state) || is_some s.call.call_id))

unfoldable pub set_pending_outbound_identity :
    Reading → Text → String → ℕ → ℕ → HfpState → HfpState × Bool
unfolding publish
set_pending_outbound_identity r number role expected_connection expected_call s =
    if not_idle_at expected_connection expected_call s then (s, false) else (
      publish r (record s {
        call = record s.call {
          remote_number = some number;
          remote_number_source = some "dialed_pending";
          remote_name = none;
          call_direction = CallDirection.outgoing;
          caller_role = role;
        };
      }),
      true,
    )

unfoldable pub clear_pending_outbound_identity : Reading → Text → ℕ → ℕ → HfpState → HfpState × Bool
unfolding publish
clear_pending_outbound_identity r number expected_connection expected_call s =
    if not_idle_at expected_connection expected_call s
      || (not (option_eq s.call.remote_number (some number))
          || not (option_eq s.call.remote_number_source (some "dialed_pending")))
    then (s, false)
    else (
      publish r (record s {
        call = record (forget_remote s.call) { call_direction = CallDirection.unknown };
      }),
      true,
    )
