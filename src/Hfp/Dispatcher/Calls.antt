-- ===== src/Hfp/Dispatcher/Calls.antt =====
-- Calls as the dispatcher of src/hfp_mcp/hfp/session.py reports them, while other coroutines share the
-- state.
use hermes_phone_hfp.Prelude.{
  ℕ, ◌+◌, Option, none, some, List, [], ◌∷◌, All, length, ◌≡◌, arith, Bool-cases, if_both, inl, inr,
  if◌then◌else◌,
}
use hermes_phone_hfp.State.Types.{Reading, HfpState}
use hermes_phone_hfp.State.Steps.{Op, run}
use hermes_phone_hfp.State.Balance.{present, EndsNoCall, run-Balanced}
use hermes_phone_hfp.Hfp.Line.{ParsedAt}
use hermes_phone_hfp.Hfp.Broker.{Broker}
use hermes_phone_hfp.Hfp.Dispatcher.Counts.{Counts, dispatch-Counts, close-Counts}
use hermes_phone_hfp.Hfp.Dispatcher.{
  Dispatcher, new_dispatcher, Readings, round, is_stale, live_round,
}

-- What comes before one look at the event queue: the state's methods that other coroutines call
-- while `run` waits, what they do to the broker, and then the event, or none for the sentinel of a
-- closed connection.
pub record Turn : Type 0 where
  pub others : List (Reading × Op)
  pub commands : Broker → Broker
  pub readings : Readings
  pub event : Option ParsedAt

-- Rounds of `run` until one ends it.
unfoldable pub rounds : List Turn → Dispatcher → Dispatcher
rounds [] d = d
rounds (t ∷ rest) d =
    let waited = record d { state = run t.others d.state; broker = t.commands d.broker } in
    let (e, goes_on) = round t.readings t.event waited in
    let later = rounds rest e in if goes_on then later else e

-- No other coroutine resets the link or leads the call to idle; the call is theirs to begin, to move
-- on and to mark as ending.
abbrev pub OthersEndNoCall : List Turn → Type 0
OthersEndNoCall turns = All (λ t. EndsNoCall t.others) turns

live_round-Counts :
    (base : HfpState) (r : Readings) (event : Option ParsedAt) (d : Dispatcher)
    → Counts base d
    → Counts base (live_round r event d).0
live_round-Counts base r none d h = close-Counts base r d h
live_round-Counts base r (some e) d h = dispatch-Counts base r e d h

round-Counts :
    (base : HfpState) (r : Readings) (event : Option ParsedAt) (d : Dispatcher)
    → Counts base d
    → Counts base (round r event d).0
unfolding round
round-Counts base r event d h = elim (Bool-cases (is_stale d)) [
  | inl stale ↦ rw stale (record { balance = h.balance })
  | inr live ↦ rw live (live_round-Counts base r event d h)
]

waited-Counts :
    (base : HfpState) (others : List (Reading × Op)) (commands : Broker → Broker) (d : Dispatcher)
    → EndsNoCall others
    → Counts base d
    → Counts base (record d { state = run others d.state; broker = commands d.broker })
waited-Counts base others commands d busy h = record {
  balance = omega (arith, h.balance, run-Balanced others d.state busy);
}

rounds-Counts :
    (base : HfpState) (turns : List Turn) (d : Dispatcher)
    → OthersEndNoCall turns
    → Counts base d
    → Counts base (rounds turns d)
unfolding rounds
rounds-Counts base [] d busy h = h
rounds-Counts base (t ∷ rest) d busy h =
    let waited = record d { state = run t.others d.state; broker = t.commands d.broker } in
    let k =
      round-Counts base t.readings t.event waited
        (waited-Counts base t.others t.commands d busy.0 h) in
    if_both (Counts base) _ (rounds-Counts base rest (round t.readings t.event waited).0 busy.1 k) k

-- Each call is reported as ended once or is still present, whatever events arrive, whatever other
-- coroutines do to the broker between them and whichever methods of the state they call, where these
-- neither reset the link nor lead the call to idle. The calls that were reported as ended and the one
-- that is present, if any, are together as many as the state's call generation has moved by since the
-- start, and one more if a call was present then.
pub calls_reported_once :
    (generation : ℕ) (s : HfpState) (b : Broker) (turns : List Turn)
    → OthersEndNoCall turns
    → let d = rounds turns (new_dispatcher generation s b) in
      length d.ended + present d.state + s.call.call_generation
      ≡ d.state.call.call_generation + present s
unfolding new_dispatcher
calls_reported_once generation s b turns busy =
    let start : Counts s (new_dispatcher generation s b) = record { balance = omega arith } in
    (rounds-Counts s turns (new_dispatcher generation s b) busy start).balance
