-- ===== src/Hfp/Broker/Pump.antt =====
-- `execute` of src/hfp_mcp/hfp/session.py with an `event_queue`: before the dispatcher runs, the
-- transaction takes the events itself and puts back those that are not its own.
use hermes_phone_hfp.Prelude.{
  Bool, true, false, not, Option, none, some, List, [], ◌∷◌, ◌++◌, ◌≡◌, refl, ◌∙◌, All,
  if◌then◌else◌,
}
use hermes_phone_hfp.Hfp.Line.{ParsedAt}
use hermes_phone_hfp.Hfp.Broker.{Broker, waits, handle_event, abort}
use mathlib.Core.List.{append_assoc, append-nil}

-- An entry of the event queue; none is the sentinel of a closed connection.
abbrev pub Event : Type 0
Event = Option ParsedAt

abbrev take_event : Event → Broker → Broker × Bool
take_event none b = (abort b, true)
take_event (some event) b = handle_event event b

pub record Pumped : Type 0 where
  pub broker : Broker
  pub deferred : List Event
  pub queue : List Event

-- The `while not future.done()` loop over the events that arrive before the deadline.
unfoldable pub pump_loop : Broker → List Event → List Event → Pumped
pump_loop b deferred [] = record { broker = b; deferred = deferred; queue = [] }
pump_loop b deferred (e ∷ rest) =
    let (c, mine) = take_event e b in
    let next = pump_loop c (if mine then deferred else deferred ++ e ∷ []) rest in
    if not (waits b.pending)
    then record { broker = b; deferred = deferred; queue = e ∷ rest }
    else next

-- With the `finally` of `execute`: each deferred event is put at the end of the queue.
unfoldable pub pump : Broker → List Event → Broker × List Event
pump b queue = let p = pump_loop b [] queue in (p.broker, p.queue ++ p.deferred)

-- An event that the transaction does not take, and that does not change it.
abbrev pub IsForeign : Broker → Event → Type 0
IsForeign b e = take_event e b ≡ (b, false)

pump_loop-foreign :
    (b : Broker) (deferred urcs rest : List Event)
    → waits b.pending ≡ true
    → All (IsForeign b) urcs
    → pump_loop b deferred (urcs ++ rest) ≡ pump_loop b (deferred ++ urcs) rest
unfolding pump_loop
pump_loop-foreign b deferred [] rest waiting foreign = rw append-nil
pump_loop-foreign b deferred (e ∷ urcs) rest waiting foreign =
    rw (foreign.0, waiting)
      (pump_loop-foreign b (deferred ++ e ∷ []) urcs rest waiting foreign.1 ∙ rw append_assoc)

pump_loop-done :
    (b : Broker) (deferred queue : List Event)
    → waits b.pending ≡ false
    → pump_loop b deferred queue ≡ record { broker = b; deferred = deferred; queue = queue }
unfolding pump_loop
pump_loop-done b deferred [] done = refl
pump_loop-done b deferred (e ∷ rest) done = rw done

pump_loop-answer :
    (b c : Broker) (answer : ParsedAt) (deferred later : List Event)
    → waits b.pending ≡ true
    → handle_event answer b ≡ (c, true)
    → pump_loop b deferred (some answer ∷ later) ≡ pump_loop c deferred later
unfolding pump_loop
pump_loop-answer b c answer deferred later waiting mine = rw (mine, waiting)

-- Where a waiting transaction meets foreign events, then the answer that ends it, then later
-- events, the queue afterwards holds the later events first and the foreign ones behind them: the
-- foreign events keep their order among themselves, and the order of arrival is kept as a whole
-- only where one of the two groups is empty.
pub pump_order :
    (b c : Broker) (answer : ParsedAt) (urcs later : List Event)
    → waits b.pending ≡ true
    → All (IsForeign b) urcs
    → handle_event answer b ≡ (c, true)
    → waits c.pending ≡ false
    → pump b (urcs ++ (some answer ∷ later)) ≡ (c, later ++ urcs)
unfolding pump
pump_order b c answer urcs later waiting foreign mine done = rw (
  pump_loop-foreign b [] urcs (some answer ∷ later) waiting foreign,
  pump_loop-answer b c answer urcs later waiting mine,
  pump_loop-done c urcs later done,
)
