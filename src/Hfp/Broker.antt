-- ===== src/Hfp/Broker.antt =====
-- `ATCommandBroker` of src/hfp_mcp/hfp/session.py: one command at a time, and its terminal answer.
-- A coroutine is cut at its awaits: `begin` runs `execute` up to the wait for the future, the event
-- loop calls `handle_event` and `abort`, and `finish`, `time_out` or `cancel` is the rest. The
-- command lock admits one `execute` at a time, which holds it while its transaction is pending.
-- `time.monotonic` is an argument, in a fixed fraction of a second.
pub mod Attribution
pub mod Pump
use hermes_phone_hfp.Prelude.{
  ℕ, ◌+◌, Bool, true, false, not, ◌&&◌, Option, none, some, List, [], ◌∷◌, ◌++◌, any, is_some,
  is_none, ltb, ◌==◌, if◌then◌else◌,
}
use hermes_phone_hfp.Prelude.Text.{Text, text_eq, upper, codes}
use hermes_phone_hfp.Prelude.Result.{Result, ok, err}
use hermes_phone_hfp.Hfp.Line.{ParsedAt}
use hermes_phone_hfp.Hfp.Command.{encode_command}

-- `ATResult`
pub record AtResult : Type 0 where
  pub prefix : Text
  pub payload : Text

-- `ATCommandResult`
pub record CommandResult : Type 0 where
  pub command : Text
  pub results : List AtResult

-- What `execute` raises.
pub data AtError : Type 0 where
  bad_command : AtError
  not_positive : AtError
  unresolved : AtError
  rejected : Text → AtError
  no_result : AtError
  closed : AtError
  timeout : AtError

pub data Future : Type 0 where
  waiting : Future
  completed : CommandResult → Future
  failed : AtError → Future

abbrev pub is_done : Future → Bool
is_done Future.waiting = false
is_done _ = true

-- `_PendingTransaction`
pub record Pending : Type 0 where
  pub command : Text
  pub expected_prefixes : List Text
  pub require_result : Bool
  pub future : Future
  pub results : List AtResult

pub record Broker : Type 0 where
  pub quarantine_seconds : ℕ
  pub generation : ℕ
  pub pending : Option Pending
  pub quarantine_until : Option ℕ
  pub sent : List (List ℕ)

abbrev pub fresh_broker : ℕ → ℕ → Broker
fresh_broker quarantine_seconds generation = record {
  quarantine_seconds = quarantine_seconds;
  generation = generation;
  pending = none;
  quarantine_until = none;
  sent = [];
}

-- `ATCommandBroker(...)`, on a connection's generation: none stands for its `ValueError`.
unfoldable pub new_broker : ℕ → ℕ → Option Broker
new_broker quarantine_seconds generation =
    if quarantine_seconds == 0 then none else some (fresh_broker quarantine_seconds generation)

-- `AT_TERMINAL_QUARANTINE_SECONDS`, in milliseconds.
abbrev pub at_terminal_quarantine : ℕ
at_terminal_quarantine = 5000

-- How far `execute` came: it raised, it waits for the lock, or its bytes are queued.
pub data Began : Type 0 where
  raised : AtError → Began
  locked : Began
  started : Began

abbrev quarantined_at : ℕ → Option ℕ → Bool
quarantined_at now none = false
quarantined_at now (some until) = ltb now until

-- `terminal_quarantined`: a quarantine that ran out is forgotten.
unfoldable pub terminal_quarantined : ℕ → Broker → Bool × Broker
terminal_quarantined now b =
    if quarantined_at now b.quarantine_until
    then (true, b)
    else (false, record b { quarantine_until = none })

-- The arguments of `execute`.
pub record Request : Type 0 where
  pub command : Text
  pub expected_prefixes : List Text
  pub require_result : Option Bool
  pub timeout : ℕ

abbrev is_empty {ℓ} : {A : Type ℓ} → List A → Bool
is_empty [] = true
is_empty (_ ∷ _) = false

abbrev requires : Option Bool → List Text → Bool
requires none expected = not (is_empty expected)
requires (some flag) expected = flag

abbrev pub upper_all : List Text → List Text
upper_all [] = []
upper_all (p ∷ ps) = upper p ∷ upper_all ps

abbrev begin_sent : ℕ → Request → Broker → Result AtError (List ℕ) → Began × Broker
begin_sent now q b (err e) = (raised e, b)
begin_sent now q b (ok bytes) =
    if q.timeout == 0
    then (raised not_positive, b)
    else if is_some b.pending
    then (locked, b)
    else (let (quarantined, c) = terminal_quarantined now b in
        if quarantined then (raised unresolved, c) else (
          started,
          record c {
            pending = some (record {
              command = q.command;
              expected_prefixes = upper_all q.expected_prefixes;
              require_result = requires q.require_result q.expected_prefixes;
              future = Future.waiting;
              results = [];
            });
            sent = c.sent ++ bytes ∷ [];
          },
        ))

abbrev pub encoded : Text → Result AtError (List ℕ)
encoded command = elim (encode_command command) [ ok bytes ↦ ok bytes | err _ ↦ err bad_command ]

-- `execute` up to its wait.
unfoldable pub begin : ℕ → Request → Broker → Began × Broker
unfolding terminal_quarantined
begin now q b = begin_sent now q b (encoded q.command)

abbrev is_response : ParsedAt → Bool
is_response (ParsedAt.response _ _) = true
is_response _ = false

-- The future after the terminal answer: an error, an answer that lacks its result, or a success.
abbrev answered : Bool → Text → Pending → Future
answered false [] p = Future.failed (rejected (codes "ERROR"))
answered false (c ∷ code) p = Future.failed (rejected (c ∷ code))
answered true code p =
    if p.require_result && is_empty p.results
    then Future.failed no_result
    else Future.completed (record { command = p.command; results = p.results })

abbrev handle_pending : ParsedAt → Broker → Option Pending → Broker × Bool
handle_pending event b none = (b, false)
handle_pending (ParsedAt.result prefix payload) b (some p) =
    if not (any (text_eq prefix) p.expected_prefixes) then (b, false) else (
      record b {
        pending = some (record p {
          results = p.results ++ record { prefix = prefix; payload = payload } ∷ [];
        });
      },
      true,
    )
handle_pending (ParsedAt.unsolicited _ _) b (some p) = (b, false)
handle_pending (ParsedAt.response success code) b (some p) =
    if is_done p.future
    then (b, true)
    else (record b { pending = some (record p { future = answered success code p }) }, true)

-- `handle_event`: whether the event belongs to the broker.
unfoldable pub handle_event : ParsedAt → Broker → Broker × Bool
handle_event event b =
    if is_response event && is_some b.quarantine_until
    then (record b { quarantine_until = none }, true)
    else handle_pending event b b.pending

abbrev abort_pending : Broker → Option Pending → Broker
abort_pending b none = b
abort_pending b (some p) =
    if is_done p.future
    then b
    else record b { pending = some (record p { future = Future.failed closed }) }

-- `abort`
unfoldable pub abort : Broker → Broker
abort b = abort_pending b b.pending

abbrev outcome : Future → Result AtError CommandResult
outcome Future.waiting = err timeout
outcome (Future.completed r) = ok r
outcome (Future.failed e) = err e

abbrev pub waits : Option Pending → Bool
waits none = false
waits (some p) = not (is_done p.future)

-- The `finally` of `execute` when the future is done: its result is returned or raised.
unfoldable pub finish : Broker → Option (Result AtError CommandResult) × Broker
finish b = elim b.pending [
  | none ↦ (none, b)
  | some p ↦
      if is_done p.future then (some (outcome p.future), record b { pending = none }) else (none, b)
]

-- The deadline of `execute` passes, which leaves a quarantine also if the future was completed in the
-- same turn of the event loop.
unfoldable pub time_out : ℕ → Broker → Broker
time_out now b =
    if is_some b.pending
    then record b { pending = none; quarantine_until = some (now + b.quarantine_seconds) }
    else b

-- The task of `execute` is cancelled after its bytes were queued.
unfoldable pub cancel : ℕ → Broker → Broker
cancel now b =
    if waits b.pending
    then record b { pending = none; quarantine_until = some (now + b.quarantine_seconds) }
    else record b { pending = none }

-- `reset_at_command_broker`: the old broker's transaction fails, and a new connection has a new
-- broker.
unfoldable pub reset_broker : ℕ → Broker → Broker × Broker
unfolding abort
reset_broker generation old = (abort old, fresh_broker at_terminal_quarantine generation)
