-- ===== src/State/Pending.antt =====
-- The identity of an outgoing call between `ATD` and its answer, in src/hfp_mcp/state.py.
use hermes_phone_hfp.Prelude.{
  ℕ, String, Bool, true, false, Option, none, some, ◌≡◌, ◌≢◌, refl, arith, eq_refl, ◌∙◌,
  if◌then◌else◌,
}
use hermes_phone_hfp.Prelude.Text.{Text, text_eq_refl, text_eq→eq}
use hermes_phone_hfp.State.Types.{
  CallState, CallDirection, is_idle, Reading, Call, HfpState, publish,
}
use hermes_phone_hfp.State.Call.{
  set_call_state, set_direction, settle_pending, begin_call, name_call, enter_state,
  direction_after, is_outgoing,
}
use hermes_phone_hfp.State.Identity.{
  set_pending_outbound_identity, clear_pending_outbound_identity, not_idle_at,
}

-- Who the state says is at the other end.
pub record Party : Type 0 where
  pub number : Option Text
  pub source : Option String
  pub role : String

unfoldable pub party : HfpState → Party
party s = record {
  number = s.call.remote_number;
  source = s.call.remote_number_source;
  role = s.call.caller_role;
}

abbrev pub nobody : Party
nobody = record { number = none; source = none; role = "unknown" }

enter-party :
    (r : Reading) (state : CallState) (previous : CallState) (c : Call)
    → is_idle state ≡ false
    → let e = enter_state r state (name_call r state (begin_call previous state c)) in
      (e.remote_number ≡ c.remote_number)
      × (e.remote_number_source ≡ c.remote_number_source)
      × (e.caller_role ≡ c.caller_role)
unfolding enter_state name_call begin_call
enter-party r CallState.idle previous c h = ground arith
enter-party r _ previous c h = ground arith

settled-party :
    (state : CallState) (direction : Option CallDirection) (c : Call)
    → is_idle c.call_state ≡ true
    → is_idle state ≡ false
    → c.remote_number_source ≡ some "dialed_pending"
    → let e = settle_pending c.call_state state (set_direction state direction c) in
      let out = is_outgoing (direction_after state direction c.call_direction) in
      (e.remote_number ≡ (if out then c.remote_number else none))
      × (e.remote_number_source ≡ (if out then some "dialed" else none))
      × (e.caller_role ≡ (if out then c.caller_role else "unknown"))
unfolding settle_pending set_direction
settled-party state direction c i n p = ground (arith, eq_refl "dialed_pending")

set_call_state-party :
    (r : Reading) (state : CallState) (direction : Option CallDirection) (s : HfpState)
    → is_idle s.call.call_state ≡ true
    → is_idle state ≡ false
    → s.call.remote_number_source ≡ some "dialed_pending"
    → party (set_call_state r state direction s) ≡ (
        if is_outgoing (direction_after state direction s.call.call_direction)
        then record {
          number = s.call.remote_number;
          source = some "dialed";
          role = s.call.caller_role;
        }
        else nobody)
unfolding set_call_state party publish
set_call_state-party r state direction s i n p =
    let settled = settled-party state direction s.call i n p in
    let entered =
      enter-party r state s.call.call_state
        (settle_pending s.call.call_state state (set_direction state direction s.call)) n in
    ground (arith, settled, entered)

-- What an accepted dial leaves.
pub record IsPending (number : Text) (role : String) (c g : ℕ) (t : HfpState) : Type 0 where
  pub absent : is_idle t.call.call_state ≡ true
  pub numbered : t.call.remote_number ≡ some number
  pub sourced : t.call.remote_number_source ≡ some "dialed_pending"
  pub directed : t.call.call_direction ≡ CallDirection.outgoing
  pub charged : t.call.caller_role ≡ role
  pub guarded : not_idle_at c g t ≡ false

pub dial-IsPending :
    (r : Reading) (number : Text) (role : String) (c g : ℕ) (s : HfpState)
    → (set_pending_outbound_identity r number role c g s).1 ≡ true
    → IsPending number role c g (set_pending_outbound_identity r number role c g s).0
unfolding set_pending_outbound_identity publish
dial-IsPending r number role c g s done = ground arith

-- Which calls behind a dial are the dialed one: a direction that is given decides, and without one
-- every state of a call but `incoming`.
abbrev pub is_dialed_call : CallState → Option CallDirection → Bool
is_dialed_call state (some CallDirection.outgoing) = true
is_dialed_call state (some _) = false
is_dialed_call CallState.incoming none = false
is_dialed_call _ none = true

dialed-direction :
    (state : CallState) (direction : Option CallDirection)
    → is_outgoing (direction_after state direction CallDirection.outgoing)
      ≡ is_dialed_call state direction
dialed-direction state (some CallDirection.outgoing) = refl
dialed-direction state (some CallDirection.incoming) = refl
dialed-direction state (some CallDirection.unknown) = refl
dialed-direction CallState.idle none = refl
dialed-direction CallState.incoming none = refl
dialed-direction CallState.dialing none = refl
dialed-direction CallState.ringing none = refl
dialed-direction CallState.active none = refl
dialed-direction CallState.held none = refl
dialed-direction CallState.ending none = refl

-- The call that begins behind an accepted dial, in any state but idle, settles it: it carries the
-- dialed number and its role where it is reported as outgoing, or without a direction and in another
-- state than `incoming`. In all other cases it has no number, no source and the role "unknown", so
-- that an incoming call never takes the privileges of the dialed party.
pub pending-settled :
    (r r' : Reading) (number : Text) (role : String) (c g : ℕ) (s : HfpState) (state : CallState)
    (direction : Option CallDirection)
    → (set_pending_outbound_identity r number role c g s).1 ≡ true
    → is_idle state ≡ false
    → party
        (set_call_state r' state direction (set_pending_outbound_identity r number role c g s).0)
      ≡ (if is_dialed_call state direction
          then record { number = some number; source = some "dialed"; role = role }
          else nobody)
pending-settled r r' number role c g s state direction done present =
    let k = dial-IsPending r number role c g s done in
    let t = (set_pending_outbound_identity r number role c g s).0 in
    set_call_state-party r' state direction t k.absent present k.sourced
    ∙ cc (k.numbered, k.directed, k.charged, dialed-direction state direction)

clear_self :
    (r : Reading) (number : Text) (role : String) (c g : ℕ) (t : HfpState)
    → IsPending number role c g t
    → party (clear_pending_outbound_identity r number c g t).0 ≡ nobody
unfolding clear_pending_outbound_identity party publish
clear_self r number role c g t k = ground (arith, k, text_eq_refl number, eq_refl "dialed_pending")

-- Clearing an accepted dial, with the observation that it was made with, leaves nobody.
pub clear-pending :
    (r r' : Reading) (number : Text) (role : String) (c g : ℕ) (s : HfpState)
    → (set_pending_outbound_identity r number role c g s).1 ≡ true
    → party
        (clear_pending_outbound_identity r' number c g
          (set_pending_outbound_identity r number role c g s).0).0
      ≡ nobody
clear-pending r r' number role c g s done =
    clear_self r' number role c g _ (dial-IsPending r number role c g s done)

clear_other :
    (r : Reading) (number other : Text) (role : String) (c g c' g' : ℕ) (t : HfpState)
    → IsPending number role c g t
    → number ≢ other
    → clear_pending_outbound_identity r other c' g' t ≡ (t, false)
unfolding clear_pending_outbound_identity
clear_other r number other role c g c' g' t k apart = ground (arith, k, text_eq→eq number other)

-- The clearing of a dial to another number is refused and changes nothing.
pub clear-pending_ne :
    (r r' : Reading) (number other : Text) (role : String) (c g c' g' : ℕ) (s : HfpState)
    → (set_pending_outbound_identity r number role c g s).1 ≡ true
    → number ≢ other
    → clear_pending_outbound_identity r' other c' g'
        (set_pending_outbound_identity r number role c g s).0
      ≡ ((set_pending_outbound_identity r number role c g s).0, false)
clear-pending_ne r r' number other role c g c' g' s done apart =
    clear_other r' number other role c g c' g' _ (dial-IsPending r number role c g s done) apart
