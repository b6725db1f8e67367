-- ===== src/Hfp/Handshake.antt =====
-- `HFPHandshaker` of src/hfp_mcp/hfp/handshake.py: the service-level connection. Each command waits
-- for its transaction, and other threads call methods of the state while it waits: an `Exchange`
-- is what a transaction gave and those calls. Without an exchange left the gateway is silent, and
-- the command times out.
pub mod Completion
use hermes_phone_hfp.Prelude.{
  ℕ, suc, ◌+◌, ◌-◌, ◌/◌, ◌%◌, ◌^◌, Bool, true, false, not, ◌&&◌, ◌||◌, Option, none, some, List, [],
  ◌∷◌, ◌++◌, length, is_none, get_elem?, ◌==◌, ltb, max, if◌then◌else◌,
}
use hermes_phone_hfp.Prelude.Text.{Text, codes, text_eq}
use hermes_phone_hfp.Prelude.Int.{ℤ, pos, negsuc, is_nat}
use hermes_phone_hfp.Prelude.Dict.{lookup, text_equality}
use hermes_phone_hfp.Prelude.Result.{Result, ok, err}
use hermes_phone_hfp.State.Types.{CallState, Reading, Indicator, HfpState}
use hermes_phone_hfp.State.Connection.{set_handshake_complete}
use hermes_phone_hfp.State.Call.{set_call_state}
use hermes_phone_hfp.State.Audio.{set_audio_active}
use hermes_phone_hfp.State.Steps.{Op}
use hermes_phone_hfp.State.Steps
use hermes_phone_hfp.Hfp.Number.{parse_int}
use hermes_phone_hfp.Hfp.Results.{PayloadError, parse_cind_definition, parse_cind_values}
use hermes_phone_hfp.Hfp.Command.{
  cmd_brsf, cmd_cind_list, cmd_cind_read, cmd_cmer, cmd_chld_list, cmd_clip_enable,
}
use hermes_phone_hfp.Hfp.Broker.{AtResult, AtError, timeout}
use hermes_phone_hfp.Hfp.Dispatcher.{value_of}

pub data HandshakeError : Type 0 where
  command_failed : AtError → HandshakeError
  invalid_result : HandshakeError
  omitted : HandshakeError
  too_few_values : HandshakeError
  replaced : HandshakeError

pub record Exchange : Type 0 where
  pub outcome : Result AtError (List AtResult)
  pub meanwhile : List (Reading × Op)

-- The run of a handshake: the state, the exchanges to come, and the commands that were given to
-- the broker.
pub record Slc : Type 0 where
  pub state : HfpState
  pub exchanges : List Exchange
  pub sent : List Text

pub record Config : Type 0 where
  pub hf_features : ℕ
  pub generation : ℕ
  pub reading : Reading

abbrev pub H : Type 0 → Type 0
H A = Slc → Result HandshakeError A × Slc

abbrev pub continue :
    {A B : Type 0} → (A → H B) → Result HandshakeError A × Slc → Result HandshakeError B × Slc
continue f (ok a, s) = f a s
continue f (err e, s) = (err e, s)

infixl 5 ◌>>=◌ ◌>>◌
unfoldable pub ◌>>=◌ : {A B : Type 0} → H A → (A → H B) → H B
◌>>=◌ m f s = continue f (m s)

unfoldable pub ◌>>◌ : {A B : Type 0} → H A → H B → H B
unfolding ◌>>=◌
m >> k = m >>= λ _. k

abbrev pub give : {A : Type 0} → A → H A
give a s = (ok a, s)

abbrev pub raise : {A : Type 0} → HandshakeError → H A
raise e s = (err e, s)

abbrev pub or_raise : {A : Type 0} → HandshakeError → Option A → H A
or_raise e none = raise e
or_raise e (some a) = give a

abbrev answer_of : Result AtError (List AtResult) → Result HandshakeError (List AtResult)
answer_of (ok results) = ok results
answer_of (err e) = err (command_failed e)

abbrev exchanged : Text → Slc → List Exchange → Result HandshakeError (List AtResult) × Slc
exchanged command s [] = (err (command_failed timeout), record s { sent = s.sent ++ command ∷ [] })
exchanged command s (x ∷ rest) = (
  answer_of x.outcome,
  record { state = Steps.run x.meanwhile s.state; exchanges = rest; sent = s.sent ++ command ∷ [] },
)

-- `await self._broker.execute(command, ...)`
unfoldable pub execute : Text → H (List AtResult)
execute command s = exchanged command s s.exchanges

-- `ATCommandResult.first`
unfoldable pub first : Text → List AtResult → Option Text
first prefix [] = none
first prefix (r ∷ rest) = if text_eq r.prefix prefix then some r.payload else first prefix rest

-- A result that the transaction has to have.
abbrev pub required : Text → List AtResult → H Text
required prefix results = or_raise omitted (first prefix results)

abbrev mask_of : Option ℤ → H ℕ
mask_of (some (pos n)) = give n
mask_of _ = raise invalid_result

-- `_parse_feature_mask`
unfoldable pub parse_feature_mask : Text → H ℕ
parse_feature_mask payload = mask_of (parse_int payload)

-- `_ensure_current_generation`
unfoldable pub ensure_current_generation : ℕ → H (Unit {0})
ensure_current_generation generation s =
    if not (generation == 0) && not (s.state.connection.connection_generation == generation)
    then (err replaced, s)
    else (ok tt, s)

abbrev pub modify : (HfpState → HfpState) → H (Unit {0})
modify f s = (ok tt, record s { state = f s.state })

-- `max(indicator_map.values())`
abbrev pub largest_index : List (Text × ℕ) → ℕ
largest_index [] = 0
largest_index ((name, i) ∷ rest) = max i (largest_index rest)

-- `{name: [index, values[index - 1]]}`; an index out of range is an `IndexError`.
unfoldable pub indicators_of : List (Text × ℕ) → List ℤ → Option (List (Text × Indicator))
indicators_of [] values = some []
indicators_of ((name, i) ∷ rest) values = elim (get_elem? values (i - 1)) [
  | none ↦ none
  | some v ↦ elim (indicators_of rest values) [
    | none ↦ none
    | some later ↦ some ((name, record { index = i; value = v }) ∷ later)
  ]
]

abbrev pub lacks : Text → List (Text × ℕ) → Bool
lacks name d = is_none (lookup name d)

-- What `_apply_initial_call_state` makes of the indicators.
unfoldable pub initial_call_state : List (Text × Indicator) → CallState
initial_call_state indicators =
    let setup = value_of (codes "callsetup") indicators in
    if is_nat setup 1
    then CallState.incoming
    else if is_nat setup 2
    then CallState.dialing
    else if is_nat setup 3
    then CallState.ringing
    else if is_nat (value_of (codes "call") indicators) 1
        || not (is_nat (value_of (codes "callheld") indicators) 0)
    then CallState.active
    else CallState.idle

unfoldable pub apply_initial_call_state : Reading → HfpState → HfpState
apply_initial_call_state r s =
    set_audio_active r false (set_call_state r (initial_call_state s.indicators) none s)

-- Bit k of a feature mask.
abbrev pub has_bit : ℕ → ℕ → Bool
has_bit mask k = mask / 2 ^ k % 2 == 1

abbrev pub definition_of : Text → H (List (Text × ℕ))
definition_of payload =
    let d = parse_cind_definition payload in
    if lacks (codes "call") d || lacks (codes "callsetup") d then raise omitted else give d

abbrev pub indicators_from :
    List (Text × ℕ) → Result PayloadError (List ℤ) → H (List (Text × Indicator))
indicators_from d (err _) = raise invalid_result
indicators_from d (ok values) =
    if ltb (length values) (largest_index d)
    then raise too_few_values
    else or_raise invalid_result (indicators_of d values)

-- The features of the audio gateway.
unfoldable pub exchange_features : Config → H ℕ
exchange_features c = do
  results ← execute (cmd_brsf c.hf_features)
  payload ← required (codes "+BRSF") results
  remote ← parse_feature_mask payload
  ensure_current_generation c.generation
  modify (λ s. record s { remote_brsf = remote })
  give remote

-- The indicators and the call state that they say.
unfoldable pub read_indicators : Config → H (Unit {0})
read_indicators c = do
  defined ← execute cmd_cind_list
  definition ← required (codes "+CIND") defined
  d ← definition_of definition
  read ← execute cmd_cind_read
  payload ← required (codes "+CIND") read
  indicators ← indicators_from d (parse_cind_values payload)
  ensure_current_generation c.generation
  modify (λ s. record s { indicators = indicators })
  modify (apply_initial_call_state c.reading)

abbrev pub execute_if : Bool → Text → H (Unit {0})
execute_if true command = do execute command; give tt
execute_if false command = give tt

abbrev completed : Bool × HfpState → Slc → Result HandshakeError (Unit {0}) × Slc
completed (true, s) t = (ok tt, record t { state = s })
completed (false, s) t = (err replaced, record t { state = s })

abbrev pub complete : Config → H (Unit {0})
complete c t =
    let (s, done) = set_handshake_complete c.reading (some c.generation) t.state in
    completed (done, s) t

-- `run`
unfoldable pub run : Config → H (Unit {0})
run c = do
  remote ← exchange_features c
  read_indicators c
  execute_if true cmd_cmer
  execute_if (has_bit c.hf_features 1 && has_bit remote 0) cmd_chld_list
  execute_if (has_bit c.hf_features 2) cmd_clip_enable
  ensure_current_generation c.generation
  complete c
